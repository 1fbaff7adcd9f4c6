-- ===== src/Rmw/Wait/Serving.antt =====
-- `rmw_wait` from the arrays to the arrays: which entries a wait that succeeds leaves.
use rmw_iceoryx.Common.{
  List, Option, [], ok, ℕ, ◌≡◌, ◌>>◌, Expected, continue, refl, ap, sym, subst, arith, err, inl,
  inr, report, true, ◌∙◌, ◌∷◌, ◌≢◌,
}
use mathlib.Core.Option
use rmw_iceoryx.Errors.{RetCode, WaitSetError}
use rmw_iceoryx.WaitSet.{WaitSetPort, Session, WaitableEntity}
use rmw_iceoryx.WaitSet.Mapping.{IsValid}
use rmw_iceoryx.WaitSet.Waiting.{TriggeredWaitable, wait}
use rmw_iceoryx.WaitSet.Waiting.Exact.{WaitsFor, wait-WaitsFor}
use rmw_iceoryx.WaitSet.Waiting.Results.{wait-Waits}
use rmw_iceoryx.WaitSet.Waiting.Triggers.{Among}
use rmw_iceoryx.Rmw.Wait.{
  Waiter, Time, WaitSetHandle, to_nanoseconds, map_guard_conditions, map_subscriptions,
  wait_and_finish, wait_on, rmw_wait, is_triggered, finish, guard_condition, subscriber,
}
use rmw_iceoryx.Rmw.Wait.Entries.{entry, kept, after_wait-entry}
use rmw_iceoryx.Rmw.Wait.Mappings.{mapped-IsValid}
use rmw_iceoryx.Rmw.Wait.Reports.{checked}

abbrev pub nanoseconds : Option Time → Option ℕ
nanoseconds t = Option.map to_nanoseconds t

module _ {port : WaitSetPort} (service_name : ℕ → List ℕ) (t : Option Time) where
  open port use {World, Listener}

  -- The arrays are mapped, the guard conditions first; the wait set waits for all of them; and an
  -- entry stays if its kind and its index were triggered, and is null if not.
  abbrev pub Serves : Waiter port → Expected RetCode (Unit {0}) × Waiter port → Type 0
  Serves v r =
      (w w' : Waiter port) × (ts : List TriggeredWaitable) × (map_guard_conditions service_name v
        ≡ (ok tt, w))
      × (map_subscriptions service_name w ≡ (ok tt, w'))
      × WaitsFor (nanoseconds t) w'.session ts
      × ((e : WaitableEntity) (i : ℕ)
          → entry e r.1.arrays i ≡ Option.map (kept (is_triggered e i ts)) (entry e v.arrays i))

  some_mapped :
      (s : Session port) (ts : List TriggeredWaitable) (u : TriggeredWaitable)
      → (wait (nanoseconds t) s).0 ≡ ok (u ∷ ts)
      → s.mapping ≢ []
  some_mapped s ts u e none_mapped =
      let (m, among, _) = ((wait-Waits (nanoseconds t) s).1 (u ∷ ts) e).0 in
      absurd (subst (Among m) none_mapped among)

  module _ (drains : (l : Listener) (w : World) → (port.try_wait_all l w).0 ≡ true)
      (v : Waiter port) where
    finished-Serves :
        (w w' : Waiter port) (r : Expected WaitSetError (List TriggeredWaitable) × Session port)
        → map_guard_conditions service_name v ≡ (ok tt, w)
        → map_subscriptions service_name w ≡ (ok tt, w')
        → w'.arrays ≡ v.arrays
        → IsValid w'.session.self
        → wait (nanoseconds t) w'.session ≡ r
        → (continue (report RetCode.error (r.0, record w' { session = r.1 })) finish).0 ≡ ok tt
        → Serves v (continue (report RetCode.error (r.0, record w' { session = r.1 })) finish)
    finished-Serves w w' (err x, s) g m same valid e done = absurd (cc)
    finished-Serves w w' (ok [], s) g m same valid e done = absurd (cc)
    finished-Serves w w' (ok (u ∷ ts), s) g m same valid e done =
        let ended : (wait (nanoseconds t) w'.session).0 ≡ ok (u ∷ ts) = ap (λ r. r.0) e in
        (
          w,
          w',
          u ∷ ts,
          g,
          m,
          wait-WaitsFor drains (nanoseconds t) w'.session valid (u ∷ ts)
              (some_mapped w'.session ts u ended) ended,
          λ e i.
              after_wait-entry (u ∷ ts) w'.arrays e i
              ∙ ap (λ a. Option.map (kept (is_triggered e i (u ∷ ts))) (entry e a i)) same,
        )

    subscribed-Serves :
        (w : Waiter port) (r : Expected RetCode (Unit {0}) × Waiter port)
        → map_guard_conditions service_name v ≡ (ok tt, w)
        → map_subscriptions service_name w ≡ r
        → r.1.arrays ≡ v.arrays
        → IsValid r.1.session.self
        → (continue r (λ _. wait_and_finish t)).0 ≡ ok tt
        → Serves v (continue r (λ _. wait_and_finish t))
    unfolding wait_and_finish
    subscribed-Serves w (err c, w') g m same valid done = absurd (cc)
    subscribed-Serves w (ok _, w') g m same valid done =
        finished-Serves w w' (wait (nanoseconds t) w'.session) g m same valid refl done

    guarded-Serves :
        (r : Expected RetCode (Unit {0}) × Waiter port)
        → map_guard_conditions service_name v ≡ r
        → r.1.arrays ≡ v.arrays
        → IsValid r.1.session.self
        → (continue r (λ _. map_subscriptions service_name >> wait_and_finish t)).0 ≡ ok tt
        → Serves v (continue r (λ _. map_subscriptions service_name >> wait_and_finish t))
    unfolding map_subscriptions
    guarded-Serves (err c, w) g same valid done = absurd (cc)
    guarded-Serves (ok _, w) g same valid done =
        subscribed-Serves w (map_subscriptions service_name w) g refl same
          (mapped-IsValid service_name subscriber w.arrays.subscribers w.session valid) done

    pub rmw_wait-Serves :
        (h : Option WaitSetHandle)
        → IsValid v.session.self
        → (rmw_wait service_name h t v).0 ≡ ok tt
        → Serves v (rmw_wait service_name h t v)
    unfolding wait_on map_guard_conditions
    rmw_wait-Serves h valid done = elim (checked service_name h t v) [
      | inl runs ↦ subst (Serves v) (sym runs) (
          guarded-Serves (map_guard_conditions service_name v) refl refl
            (mapped-IsValid service_name guard_condition v.arrays.guard_conditions v.session valid)
            (ap (λ r. r.0) (sym runs) ∙ done))
      | inr (c, refuses, _) ↦ absurd (ground (arith, refuses, done))
    ]
