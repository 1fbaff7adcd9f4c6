-- ===== src/Rmw/Signal.antt =====
-- A guard condition and a wait over one middleware: `rmw_trigger_guard_condition` of
-- src/rmw/guard_condition.cpp with `rmw_wait` of src/rmw/waitset.cpp. What iceoryx2 carries from the
-- notifier to the listener is the record `Signals`.
use rmw_iceoryx.Common.{
  List, [], none, some, ok, ℕ, ◌≡◌, true, arith, sym, subst, is_some, Bool-cases, get_elem?, inl,
  inr, ◌<◌, ◌≢◌,
}
use rmw_iceoryx.Rmw.Ensure.{Identifier, is_own}
use rmw_iceoryx.Runtime.{RuntimePort, GuardCondition, rmw_trigger_guard_condition, trigger}
use rmw_iceoryx.WaitSet.{WaitSetPort, ListenerDetails, find_listener, guard_condition}
use rmw_iceoryx.WaitSet.Waiting.Events.{Events}
use rmw_iceoryx.Rmw.Wait.{Waiter, WaitSetHandle, all_given, rmw_wait}
use rmw_iceoryx.Rmw.Wait.Entries.{entry}
use rmw_iceoryx.Rmw.Wait.Wakes.{rmw_wait_leaves}

pub record Signals (p : RuntimePort) (q : WaitSetPort) : Type 1 where
  pub events : Events q
  -- the middleware as the wait set finds it
  pub view : p.World → q.World
  -- a listener of the service of a name
  pub IsListenerOf : q.Listener → List ℕ → q.World → Type 0
  -- an event that is sent is pending on the listeners of its service
  pub notifies :
      (name : List ℕ) (id : ℕ) (l : q.Listener) (w : p.World)
      → (p.notify_with_custom_event_id name id w).0 ≡ true
      → IsListenerOf l name (view w)
      → events.IsPending l (view (p.notify_with_custom_event_id name id w).1)

module _ {p : RuntimePort} {q : WaitSetPort} (signals : Signals p q) (g : GuardCondition)
    (w : p.World) (v : Waiter q) (d : ListenerDetails q.Listener) where
  triggered-IsPending :
      (id : Identifier)
      → is_own id ≡ true
      → signals.IsListenerOf d.listener g.service_name (signals.view w)
      → (rmw_trigger_guard_condition p (some (id, some g)) w).0 ≡ ok tt
      → signals.events.IsPending d.listener
          (signals.view (rmw_trigger_guard_condition p (some (id, some g)) w).1)
  unfolding rmw_trigger_guard_condition trigger
  triggered-IsPending id own of_service done =
      elim (Bool-cases (p.notify_with_custom_event_id g.service_name g.trigger_id w).0) [
        | inl notified ↦
            let after : (rmw_trigger_guard_condition p (some (id, some g)) w).1
                ≡ (p.notify_with_custom_event_id g.service_name g.trigger_id w).1 =
              ground (arith, own, notified) in
            subst (λ u. signals.events.IsPending d.listener (signals.view u)) (sym after)
              (signals.notifies g.service_name g.trigger_id d.listener w notified of_service)
        | inr failed ↦ absurd (ground (arith, own, failed, done))
      ]

  -- A guard condition that is triggered wakes the next wait that it is in: if
  -- rmw_trigger_guard_condition succeeds, an rmw_wait without a timeout, over arrays with no null
  -- entry of which one guard condition is that one, the first of its service, returns RMW_RET_OK
  -- and leaves that entry. The handles are of this implementation and in place, nothing is mapped
  -- before, the wait set stores the listener of the service of the guard condition, and iceoryx2
  -- opens services, creates and attaches listeners, and carries and reports events.
  pub rmw_wait-rmw_trigger_guard_condition :
      (id : Identifier) (h : WaitSetHandle) (service_name : ℕ → List ℕ) (i a j : ℕ)
      → is_own id ≡ true
      → is_own h.implementation_identifier ≡ true
      → is_some h.impl ≡ true
      → (rmw_trigger_guard_condition p (some (id, some g)) w).0 ≡ ok tt
      → v.session.world ≡ signals.view (rmw_trigger_guard_condition p (some (id, some g)) w).1
      → v.session.mapping ≡ []
      → all_given v.arrays.guard_conditions ≡ true
      → all_given v.arrays.subscribers ≡ true
      → entry guard_condition v.arrays i ≡ some (some (some a))
      → service_name a ≡ g.service_name
      → ((u b : ℕ)
          → u < i
          → entry guard_condition v.arrays u ≡ some (some (some b))
          → service_name b ≢ service_name a)
      → find_listener g.service_name v.session.guard_condition_listeners ≡ some j
      → get_elem? v.session.guard_condition_listeners j ≡ some d
      → signals.IsListenerOf d.listener g.service_name (signals.view w)
      → ((rmw_wait service_name (some h) none v).0 ≡ ok tt)
        × (entry guard_condition (rmw_wait service_name (some h) none v).1.arrays i
            ≡ some (some (some a)))
  rmw_wait-rmw_trigger_guard_condition id h service_name i a j own own' in_place done next
        none_mapped guards subscribers at named first found stored of_service =
      rmw_wait_leaves signals.events service_name guard_condition a j d v i
        (record {
          is_found =
              subst (λ n. find_listener n v.session.guard_condition_listeners ≡ some j) (sym named)
                found;
          stored = stored;
          pending =
              subst (signals.events.IsPending d.listener) (sym next)
                (triggered-IsPending id own of_service done);
        })
        none_mapped guards subscribers at first h own' in_place
