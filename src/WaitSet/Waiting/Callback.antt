-- ===== src/WaitSet/Waiting/Callback.antt =====
-- The callback of a wait, over the ids that iceoryx2 reports.
use rmw_iceoryx.Common.{
  All, List, Option, [], none, some, ok, ℕ, ◌++◌, ◌∷◌, ◌≡◌, refl, if◌then◌else◌, arith,
  get_elem?-is_some, Expected, true, Bool-cases, ap, err, inl, inr, sym, ◌==◌, subst, false, ◌∙◌,
}
use mathlib.Core.List.{append_assoc, append-nil}
use rmw_iceoryx.Errors.{WaitSetError}
use rmw_iceoryx.WaitSet.{WaitSetPort, RmwMapping, WaitSet, listener_storage, WaitableEntity}
use rmw_iceoryx.WaitSet.Mapping.{IsStored}
use rmw_iceoryx.WaitSet.Waiting.{
  AttachmentDetails, WaitContext, TriggeredWaitable, triggered, is_timeout, find_attachment,
  process_trigger, record_trigger, handle_attachment, on_event, process_events, id_of,
  continue_processing, stop,
}

module _ {port : WaitSetPort} where
  open port use {Guard, World, Listener}

  abbrev pub waitable_of :
      Option (AttachmentDetails port) → List TriggeredWaitable → List TriggeredWaitable
  waitable_of none ts = ts
  waitable_of (some a) ts = triggered a.mapping ∷ ts

  -- The waitables of the ids before that of the timeout, in their order; an id that is attached to
  -- nothing has none.
  unfoldable pub reported :
      Option Guard → List (AttachmentDetails port) → List ℕ → List TriggeredWaitable
  reported timeout as' [] = []
  reported timeout as' (id ∷ ids) =
      let rest = reported timeout as' ids in
      if is_timeout port.from_guard id timeout
      then []
      else waitable_of (find_attachment id as') rest

  -- What is left of a context, with other results.
  record Becomes (ctx ctx' : WaitContext port) (results : List TriggeredWaitable) : Type 0 where
    result : ctx'.result ≡ results
    timeout : ctx'.attached_timeout ≡ ctx.attached_timeout
    listeners : ctx'.attached_listeners ≡ ctx.attached_listeners
    self : ctx'.session.self ≡ ctx.session.self

  abbrev added : Option (AttachmentDetails port) → List TriggeredWaitable → List TriggeredWaitable
  added none ts = ts
  added (some a) ts = ts ++ triggered a.mapping ∷ []

  added-append :
      (o : Option (AttachmentDetails port)) (ts us : List TriggeredWaitable)
      → added o ts ++ us ≡ ts ++ waitable_of o us
  added-append none ts us = refl
  added-append (some a) ts us = append_assoc ts (triggered a.mapping ∷ []) us

  process_trigger-Becomes :
      (e : WaitableEntity) (i : ℕ) (ctx : WaitContext port)
      → Becomes ctx (process_trigger e i ctx).1 ctx.result
  unfolding process_trigger
  process_trigger-Becomes e i ctx = record {
    result = ground arith;
    timeout = ground arith;
    listeners = ground arith;
    self = ground arith;
  }

  record_trigger-Becomes :
      (m : RmwMapping) (ctx : WaitContext port)
      (r : Expected WaitSetError (Unit {0}) × WaitContext port)
      → r.0 ≡ ok tt
      → Becomes ctx r.1 ctx.result
      → Becomes ctx (record_trigger m r) (ctx.result ++ triggered m ∷ [])
  record_trigger-Becomes m ctx (ok u, ctx') e b = record {
    result = ap (λ ts. ts ++ triggered m ∷ []) b.result;
    timeout = b.timeout;
    listeners = b.listeners;
    self = b.self;
  }
  record_trigger-Becomes m ctx (err x, ctx') e b = absurd (cc)

  module _ (drains : (l : Listener) (w : World) → (port.try_wait_all l w).0 ≡ true)
      (w : WaitSet port) where
    process_trigger-ok :
        (m : RmwMapping) (ctx : WaitContext port)
        → ctx.session.self ≡ w
        → IsStored w m
        → (process_trigger m.waitable_type m.storage_index ctx).0 ≡ ok tt
    unfolding process_trigger
    process_trigger-ok m ctx same lt =
        let (d, found) =
          get_elem?-is_some (listener_storage m.waitable_type w) m.storage_index lt in
        ground (arith, found, same, drains d.listener ctx.session.world)

    find_attachment-IsStored :
        (id : ℕ) (as' : List (AttachmentDetails port)) (a : AttachmentDetails port)
        → All (λ a. IsStored w a.mapping) as'
        → find_attachment id as' ≡ some a
        → IsStored w a.mapping
    unfolding find_attachment
    find_attachment-IsStored id [] a h e = absurd (cc)
    find_attachment-IsStored id (b ∷ bs) a h e = elim (Bool-cases (id_of b == id)) [
      | inl hit ↦
          let same : b ≡ a = ground (arith, hit, e) in subst (λ x. IsStored w x.mapping) same h.0
      | inr miss ↦ find_attachment-IsStored id bs a h.1 (ground (arith, miss, e))
    ]

    handle_attachment-Becomes :
        (o : Option (AttachmentDetails port)) (ctx : WaitContext port)
        → ctx.session.self ≡ w
        → ((a : AttachmentDetails port) → o ≡ some a → IsStored w a.mapping)
        → Becomes ctx (handle_attachment o ctx) (added o ctx.result)
    unfolding handle_attachment
    handle_attachment-Becomes none ctx same h = record {
      result = refl;
      timeout = refl;
      listeners = refl;
      self = refl;
    }
    handle_attachment-Becomes (some a) ctx same h =
        record_trigger-Becomes a.mapping ctx
          (process_trigger a.mapping.waitable_type a.mapping.storage_index ctx)
          (process_trigger-ok a.mapping ctx same (h a refl))
          (process_trigger-Becomes a.mapping.waitable_type a.mapping.storage_index ctx)

    -- The callback runs on, for an id that is not the timeout's.
    on_event_continues :
        (id : ℕ) (ids : List ℕ) (ctx : WaitContext port)
        → is_timeout port.from_guard id ctx.attached_timeout ≡ false
        → process_events (id ∷ ids) ctx
          ≡ process_events ids (handle_attachment (find_attachment id ctx.attached_listeners) ctx)
    unfolding process_events on_event
    on_event_continues id ids ctx going =
        let same : on_event id ctx ≡ (
          continue_processing,
          handle_attachment (find_attachment id ctx.attached_listeners) ctx,
        ) =
          rw (on_event, going) in
        rw (process_events, on_event, going) (ap (λ r. process_events ids r.1) same)

    on_event_stops :
        (id : ℕ) (ids : List ℕ) (ctx : WaitContext port)
        → is_timeout port.from_guard id ctx.attached_timeout ≡ true
        → process_events (id ∷ ids) ctx ≡ ctx
    unfolding process_events on_event
    on_event_stops id ids ctx ended =
        let same : on_event id ctx ≡ (stop, ctx) = rw (on_event, ended) in
        rw (process_events, on_event, ended) (ap (λ r. r.1) same)

    -- The callback adds to the results what is reported.
    pub process_events-reported :
        (ids : List ℕ) (ctx : WaitContext port)
        → ctx.session.self ≡ w
        → All (λ a. IsStored w a.mapping) ctx.attached_listeners
        → (process_events ids ctx).result
          ≡ ctx.result ++ reported ctx.attached_timeout ctx.attached_listeners ids
    unfolding reported process_events
    process_events-reported [] ctx same stored = sym (append-nil ctx.result)
    process_events-reported (id ∷ ids) ctx same stored =
        let found : Option (AttachmentDetails port) = find_attachment id ctx.attached_listeners in
        elim (Bool-cases (is_timeout port.from_guard id ctx.attached_timeout)) [
          | inl ended ↦ rw (on_event_stops id ids ctx ended, ended) (sym (append-nil ctx.result))
          | inr going ↦
              let b : Becomes ctx (handle_attachment found ctx) (added found ctx.result) =
                handle_attachment-Becomes found ctx same
                  (λ a e. find_attachment-IsStored id ctx.attached_listeners a stored e) in
              rw (on_event_continues id ids ctx going, going)
                (process_events-reported ids (handle_attachment found ctx) (b.self ∙ same)
                    (subst (All (λ a. IsStored w a.mapping)) (sym b.listeners) stored)
                  ∙ rw (b.result, b.timeout, b.listeners)
                      (added-append found ctx.result
                        (reported ctx.attached_timeout ctx.attached_listeners ids)))
        ]
