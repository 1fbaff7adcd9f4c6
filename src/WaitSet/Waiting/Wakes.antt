-- ===== src/WaitSet/Waiting/Wakes.antt =====
-- A wait over a listener with an event that was not yet drained: it returns with
-- the waitable.
use rmw_iceoryx.WaitSet.Waiting.Attaching.{Tracks, IsHeld, attach_mapped_listeners-AttachesAll}
use rmw_iceoryx.WaitSet.Waiting.Exact.{mappings_of, All-mappings_of}
use rmw_iceoryx.Common.{
  All, List, [], none, some, ok, ℕ, ◌++◌, ◌∷◌, ◌≡◌, refl, arith, ap, inl, inr, sym, subst, ◌∙◌,
  get_elem?, Expected,
}
use rmw_iceoryx.Errors.{WaitSetError}
use rmw_iceoryx.WaitSet.{
  WaitSetPort, RmwMapping, WaitSet, ListenerDetails, listener_storage, Session,
}
use rmw_iceoryx.WaitSet.Mapping.{IsStored, IsValid}
use rmw_iceoryx.WaitSet.Waiting.{
  AttachmentDetails, WaitContext, TriggeredWaitable, triggered, id_of, attach_mapped_listeners,
  wait_and_process, process_events, start, wait, wait_attached, wait_mapped, attach_timeout, leave,
}
use rmw_iceoryx.WaitSet.Waiting.Triggers.{Among}
use rmw_iceoryx.WaitSet.Waiting.Callback.{reported, process_events-reported}
use rmw_iceoryx.WaitSet.Waiting.Events.{Events, IsOneOf, All-at, reported-IsOneOf}

module _ {port : WaitSetPort} where
  open port use {World, Listener, Guard}

  module _ (events : Events port) (w : WaitSet port) (l : Listener) where
    open events use {IsPending, IsAttached}

    IsOneOf-mapping :
        (m : RmwMapping) (as' : List (AttachmentDetails port))
        → Among m (mappings_of as')
        → (a : AttachmentDetails port) × IsOneOf a as' × (a.mapping ≡ m)
    IsOneOf-mapping m [] h = absurd h
    IsOneOf-mapping m (a ∷ as') (inl same) = (a, inl refl, sym same)
    IsOneOf-mapping m (a ∷ as') (inr later) =
        let (b, one, same) = IsOneOf-mapping m as' later in (b, inr one, same)

    abbrev IsWoken : RmwMapping → Expected WaitSetError (List TriggeredWaitable) → Type 0
    IsWoken m r = (ts : List TriggeredWaitable) × (r ≡ ok ts) × IsOneOf (triggered m) ts

    wait_and_process-IsWoken :
        (m : RmwMapping) (d : ListenerDetails Listener) (ctx : WaitContext port)
        → Tracks events w l w.mapping ctx
        → All (IsStored w) w.mapping
        → Among m w.mapping
        → get_elem? (listener_storage m.waitable_type w) m.storage_index ≡ some d
        → d.listener ≡ l
        → IsWoken m (wait_and_process none ctx).0
    unfolding wait_and_process
    wait_and_process-IsWoken m d ctx v stored among at mine =
        let (a, one, is_m) =
          IsOneOf-mapping m ctx.attached_listeners (subst (Among m) (sym v.listed) among) in
        let (e, at', attached) =
          All-at (IsHeld events w l ctx.session.world) ctx.attached_listeners a v.held one in
        let f = All-at _ ctx.attached_listeners a v.found one in
        let same : e ≡ d = ground (arith, at, at', is_m) in
        let (before, after, reports) =
          events.reports a.attached l ctx.session.world
            (subst (λ k. IsAttached a.attached k ctx.session.world)
              (ap (λ e. e.listener) same ∙ mine) attached)
            v.pending in
        let ids : List ℕ = before ++ id_of a ∷ after in
        let ctx' : WaitContext port = record ctx {
          session = record (ctx.session) {
            world = (port.wait_and_process_once none ctx.session.world).1;
          };
        } in
        let results : (process_events ids ctx').result ≡ reported none ctx.attached_listeners ids =
          process_events-reported events.drains w ids ctx' v.same (
            All-mappings_of (IsStored w) ctx.attached_listeners
              (subst (All (IsStored w)) (sym v.listed) stored))
          ∙ rw (v.no_result, v.no_timeout) refl in
        (
          (process_events ids ctx').result,
          ground (arith, reports),
          subst (λ ts. IsOneOf (triggered m) ts) (sym results)
              (subst (λ n. IsOneOf (triggered n) (reported none ctx.attached_listeners ids)) is_m
                (reported-IsOneOf ctx.attached_listeners a before after f)),
        )

  module _ (events : Events port) (s : Session port) (m : RmwMapping) (d : ListenerDetails Listener)
      (valid : IsValid s.self) (among : Among m s.mapping)
      (stored : get_elem? (listener_storage m.waitable_type s.self) m.storage_index ≡ some d)
      (pending : events.IsPending d.listener s.world) where
    start-Tracks : Tracks events s.self d.listener [] (start s)
    start-Tracks = record {
      same = refl;
      no_timeout = refl;
      no_result = refl;
      listed = refl;
      held = tt;
      found = tt;
      pending = pending;
    }

    wait_attached-IsWoken : IsWoken events s.self d.listener m (wait_attached none s).0
    unfolding wait_attached attach_timeout leave
    wait_attached-IsWoken =
        let (attached, v) =
          attach_mapped_listeners-AttachesAll events s.self d.listener [] s.mapping (start s)
            valid.in_range start-Tracks in
        let ctx = (attach_mapped_listeners s.mapping (start s)).1 in
        let (ts, done, one) =
          wait_and_process-IsWoken events s.self d.listener m d ctx v valid.in_range among stored
            refl in
        (ts, ground (arith, attached, done), one)

    wait_mapped-attached :
        (ms : List RmwMapping) → Among m ms → wait_mapped ms none s ≡ wait_attached none s
    unfolding wait_mapped
    wait_mapped-attached [] h = absurd h
    wait_mapped-attached (n ∷ ns) h = refl

    -- On a well-formed wait set a wait without a timeout returns if an event is pending on a
    -- listener that is mapped, and the waitable is among those that it gives, if iceoryx2 attaches
    -- every listener and reports pending events.
    pub wait-IsWoken :
        (ts : List TriggeredWaitable) × ((wait none s).0 ≡ ok ts) × IsOneOf (triggered m) ts
    unfolding wait
    wait-IsWoken =
        let (ts, done, one) = wait_attached-IsWoken in
        (ts, ap (λ r. r.0) (wait_mapped-attached s.mapping among) ∙ done, one)
