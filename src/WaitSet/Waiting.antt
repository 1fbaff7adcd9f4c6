-- ===== src/WaitSet/Waiting.antt =====
-- src/impl/runtime/waitset.cpp: `wait` and what it calls. The callback runs once for each id that
-- iceoryx2 reports, until it answers `stop`. The context of one call of `wait` is built up beside
-- the session, and its end detaches the attachments.
pub mod Triggers
pub mod Results
pub mod Failures
pub mod Callback
pub mod Exact
pub mod Events
pub mod Attaching
pub mod Wakes
pub mod Mapped
use rmw_iceoryx.Common.{
  Bool, Exec, Expected, List, [], err, false, get_elem?, guard, if◌then◌else◌, is_none, none, some,
  ℕ, ◌++◌, ◌==◌, ◌>>=◌, ◌>>◌, ◌∷◌, Option, ok, or_raise, pure,
}
use rmw_iceoryx.Errors.{WaitSetError}
use rmw_iceoryx.WaitSet.{
  WaitableEntity, WaitSetPort, RmwMapping, ListenerDetails, WaitSet, Session, listener_storage,
}

pub data CallbackProgression : Type 0 where
  stop continue_processing : CallbackProgression

pub record TriggeredWaitable : Type 0 where
  pub waitable_type : WaitableEntity
  pub rmw_index : ℕ

module _ (port : WaitSetPort) where
  open port use {Guard}

  pub record AttachmentDetails : Type 0 where
    pub attached : Guard
    pub mapping : RmwMapping

  pub record WaitContext : Type 0 where
    pub session : Session port
    pub attached_timeout : Option Guard
    pub attached_listeners : List AttachmentDetails
    pub result : List TriggeredWaitable

abbrev pub is_zero_timeout : Option ℕ → Bool
is_zero_timeout none = false
is_zero_timeout (some timeout) = timeout == 0

abbrev pub triggered : RmwMapping → TriggeredWaitable
triggered m = record { waitable_type = m.waitable_type; rmw_index = m.rmw_index }

abbrev pub is_timeout : {Guard : Type 0} → (Guard → ℕ) → ℕ → Option Guard → Bool
is_timeout from_guard id none = false
is_timeout from_guard id (some g) = from_guard g == id

detach_timeout : {Guard World : Type 0} → (Guard → World → World) → Option Guard → World → World
detach_timeout detach none w = w
detach_timeout detach (some g) w = detach g w

module _ {port : WaitSetPort} where
  open port use {World, Listener, Guard}

  abbrev pub id_of : AttachmentDetails port → ℕ
  id_of a = port.from_guard a.attached

  abbrev call : {A : Type 0} → (World → A × World) → Exec (WaitContext port) WaitSetError A
  call f ctx = (
    ok (f ctx.session.world).0,
    record ctx { session = record (ctx.session) { world = (f ctx.session.world).1 } },
  )

  -- `get_stored_listener`
  abbrev pub stored_listener :
      WaitableEntity → ℕ → Exec (WaitContext port) WaitSetError (ListenerDetails Listener)
  stored_listener e storage_index ctx =
      or_raise (get_elem? (listener_storage e ctx.session.self) storage_index)
        WaitSetError.invalid_storage_index ctx

  abbrev add_timeout : Guard → Exec (WaitContext port) WaitSetError (Unit {0})
  add_timeout g ctx = (ok tt, record ctx { attached_timeout = some g })

  abbrev add_attachment : AttachmentDetails port → Exec (WaitContext port) WaitSetError (Unit {0})
  add_attachment a ctx =
      (ok tt, record ctx { attached_listeners = ctx.attached_listeners ++ a ∷ [] })

  unfoldable pub attach_timeout : Option ℕ → Exec (WaitContext port) WaitSetError (Unit {0})
  attach_timeout none ctx = (ok tt, ctx)
  attach_timeout (some timeout) ctx =
      (do
        answer ← call (port.attach_interval timeout)
        g ← or_raise answer WaitSetError.attachment_failure
        add_timeout g)
        ctx

  unfoldable pub attach_mapped_listener :
      RmwMapping → Exec (WaitContext port) WaitSetError (AttachmentDetails port)
  attach_mapped_listener m = do
    d ← stored_listener m.waitable_type m.storage_index
    answer ← call (port.attach_notification d.listener)
    g ← or_raise answer WaitSetError.attachment_failure
    pure (record { attached = g; mapping = m })

  unfoldable pub attach_mapped_listeners :
      List RmwMapping → Exec (WaitContext port) WaitSetError (Unit {0})
  attach_mapped_listeners [] ctx = (ok tt, ctx)
  attach_mapped_listeners (m ∷ ms) ctx =
      (do a ← attach_mapped_listener m; add_attachment a; attach_mapped_listeners ms) ctx

  -- All events of the listener are drained; their number is irrelevant.
  unfoldable pub process_trigger :
      WaitableEntity → ℕ → Exec (WaitContext port) WaitSetError (Unit {0})
  process_trigger e storage_index = do
    d ← stored_listener e storage_index
    drained ← call (port.try_wait_all d.listener)
    guard drained WaitSetError.listener_failure

  unfoldable pub find_attachment :
      ℕ → List (AttachmentDetails port) → Option (AttachmentDetails port)
  find_attachment id [] = none
  find_attachment id (a ∷ as') = if id_of a == id then some a else find_attachment id as'

  -- A trigger that cannot be processed is only logged.
  abbrev pub record_trigger :
      RmwMapping → Expected WaitSetError (Unit {0}) × WaitContext port → WaitContext port
  record_trigger m (ok _, ctx) = record ctx { result = ctx.result ++ triggered m ∷ [] }
  record_trigger m (err e, ctx) = ctx

  unfoldable pub handle_attachment :
      Option (AttachmentDetails port) → WaitContext port → WaitContext port
  handle_attachment none ctx = ctx
  handle_attachment (some a) ctx =
      record_trigger a.mapping (process_trigger a.mapping.waitable_type a.mapping.storage_index ctx)

  unfoldable pub on_event : ℕ → WaitContext port → CallbackProgression × WaitContext port
  on_event id ctx =
      if is_timeout port.from_guard id ctx.attached_timeout
      then (stop, ctx)
      else (continue_processing, handle_attachment (find_attachment id ctx.attached_listeners) ctx)

  unfoldable pub process_events : List ℕ → WaitContext port → WaitContext port
  process_events [] ctx = ctx
  process_events (id ∷ ids) ctx = elim (on_event id ctx).0 [
    | stop ↦ (on_event id ctx).1
    | continue_processing ↦ process_events ids (on_event id ctx).1
  ]

  unfoldable pub wait_and_process :
      Option ℕ → Exec (WaitContext port) WaitSetError (List TriggeredWaitable)
  wait_and_process timeout = do
    answer ← call (port.wait_and_process_once timeout)
    ids ← or_raise answer WaitSetError.wait_failure
    λ ctx. (ok (process_events ids ctx).result, process_events ids ctx)

  detach_all : List (AttachmentDetails port) → World → World
  detach_all [] w = w
  detach_all (a ∷ as') w = detach_all as' (port.detach a.attached w)

  abbrev start : Session port → WaitContext port
  start s = record { session = s; attached_timeout = none; attached_listeners = []; result = [] }

  -- The end of the context's scope.
  unfoldable pub leave :
      Expected WaitSetError (List TriggeredWaitable) × WaitContext port
      → Expected WaitSetError (List TriggeredWaitable) × Session port
  unfolding detach_all detach_timeout
  leave (r, ctx) = (
    r,
    record (ctx.session) {
      world =
          detach_timeout port.detach ctx.attached_timeout
            (detach_all ctx.attached_listeners ctx.session.world);
    },
  )

  unfoldable pub wait_attached :
      Option ℕ → Exec (Session port) WaitSetError (List TriggeredWaitable)
  wait_attached timeout s = leave (
      (do attach_timeout timeout; attach_mapped_listeners s.mapping; wait_and_process timeout)
        (start s))

  -- With nothing mapped, a zero timeout is no operation, and none at all would block forever.
  unfoldable pub wait_mapped :
      List RmwMapping → Option ℕ → Exec (Session port) WaitSetError (List TriggeredWaitable)
  wait_mapped [] timeout s =
      if is_zero_timeout timeout
      then (ok [], s)
      else if is_none timeout
      then (err WaitSetError.wait_failure, s)
      else wait_attached timeout s
  wait_mapped (m ∷ ms) timeout s = wait_attached timeout s

  unfoldable pub wait : Option ℕ → Exec (Session port) WaitSetError (List TriggeredWaitable)
  wait timeout s = wait_mapped s.mapping timeout s
