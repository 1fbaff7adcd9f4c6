-- ===== src/Rmw/Wait/Shared.antt =====
-- `rmw_wait` over two entries of one kind and one service: the arrays, and what a wait leaves
-- of them.
use rmw_iceoryx.WaitSet.Waiting.Exact.{All-mappings_of}
use rmw_iceoryx.Rmw.Wait.Serving.{Serves, rmw_wait-Serves}
use rmw_iceoryx.Rmw.Wait.Entries.{entry, array_of}
use rmw_iceoryx.Common.{
  All, Bool-cases, List, Option, [], none, some, ok, ℕ, ◌≡◌, refl, arith, true, false, ap, inl, inr,
  sym, subst, ◌∙◌, get_elem?, ◌<◌, Expected,
}
use mathlib.Core.Option
use rmw_iceoryx.WaitSet.{WaitSetPort, WaitableEntity, Session, same_entity}
use rmw_iceoryx.WaitSet.Mapping.{same_entity-eq}
use rmw_iceoryx.Rmw.Wait.{
  Handles, map_array, is_triggered, Waiter, map_guard_conditions, map_subscriptions,
  guard_condition, subscriber, Time, WaitSetHandle, RetCode, rmw_wait,
}
use rmw_iceoryx.Rmw.Wait.Mappings.{map_array-keeps}
use rmw_iceoryx.Rmw.Wait.Sharing.{
  IsOther, IsOfService, HasOther, map_waitable-HasOther, map_handles-HasOther, reported_other,
}

module _ (service_name : ℕ → List ℕ) (e : WaitableEntity) (i k p q : ℕ) (lt : i < k)
    (same_service : service_name p ≡ service_name q) where
  -- The array has the two entries, if it is the one of the kind.
  abbrev HasBoth : WaitableEntity → Handles → Type 0
  HasBoth f hs =
      f ≡ e
      → (Option.map (λ hs. get_elem? hs i) hs ≡ some (some (some p)))
        × (Option.map (λ hs. get_elem? hs k) hs ≡ some (some (some q)))

  IsOfService-of :
      (hs : List (Option ℕ))
      → get_elem? hs k ≡ some (some q)
      → IsOfService service_name e (service_name q) k 0 hs
  IsOfService-of hs at t p' at' hit =
      let same : t ≡ k = ground (arith, hit) in
      let there : get_elem? hs k ≡ some (some p') =
        subst (λ t. get_elem? hs t ≡ some (some p')) same at' in
      let one : p' ≡ q = ground (arith, at, there) in ap service_name one

  module _ {port : WaitSetPort} where
    abbrev HasNotSecond : Session port → Type 0
    HasNotSecond = HasOther service_name e (service_name q) k

    map_own-HasNotSecond :
        (hs : Handles) (s : Session port)
        → HasBoth e hs
        → (map_array service_name e hs s).0 ≡ ok tt
        → HasNotSecond s
        → HasNotSecond (map_array service_name e hs s).1
    map_own-HasNotSecond none s both done h = h
    map_own-HasNotSecond (some hs) s both done h =
        let (at, at') = both refl in
        map_handles-HasOther service_name e (service_name q) k 0 i p hs s (ground (arith, at))
          same_service (omega (arith, lt)) (IsOfService-of hs (ground (arith, at'))) done h

    map_array-HasNotSecond :
        (f : WaitableEntity) (hs : Handles) (s : Session port)
        → HasBoth f hs
        → (map_array service_name f hs s).0 ≡ ok tt
        → HasNotSecond s
        → HasNotSecond (map_array service_name f hs s).1
    map_array-HasNotSecond f hs s both done h = elim (Bool-cases (same_entity f e)) [
      | inl same ↦
          subst
            (λ g.
              HasBoth g hs
              → (map_array service_name g hs s).0 ≡ ok tt
              → HasNotSecond (map_array service_name g hs s).1)
            (sym (same_entity-eq f e same)) (λ b d. map_own-HasNotSecond hs s b d h) both done
      | inr other ↦
          map_array-keeps HasNotSecond service_name f hs s
            (λ t p' s' at h'.
              map_waitable-HasOther service_name e (service_name q) k f t (service_name p') s'
                (ground (arith, other)) h')
            h
    ]

    guarded-HasNotSecond :
        (v w : Waiter port)
        → HasBoth guard_condition v.arrays.guard_conditions
        → map_guard_conditions service_name v ≡ (ok tt, w)
        → HasNotSecond v.session
        → HasNotSecond w.session × (w.arrays ≡ v.arrays)
    unfolding map_guard_conditions
    guarded-HasNotSecond v w both g h = (
      subst HasNotSecond (ap (λ r. r.1.session) g) (
          map_array-HasNotSecond guard_condition v.arrays.guard_conditions v.session both
            (ap (λ r. r.0) g) h),
      sym (ap (λ r. r.1.arrays) g),
    )

    subscribed-HasNotSecond :
        (v w : Waiter port)
        → HasBoth subscriber v.arrays.subscribers
        → map_subscriptions service_name v ≡ (ok tt, w)
        → HasNotSecond v.session
        → HasNotSecond w.session
    unfolding map_subscriptions
    subscribed-HasNotSecond v w both m h =
        subst HasNotSecond (ap (λ r. r.1.session) m) (
          map_array-HasNotSecond subscriber v.arrays.subscribers v.session both (ap (λ r. r.0) m) h)

    module _ (v : Waiter port) (at : entry e v.arrays i ≡ some (some (some p)))
        (at' : entry e v.arrays k ≡ some (some (some q))) where
      HasBoth-array : (f : WaitableEntity) → HasBoth f (array_of f v.arrays)
      HasBoth-array f same =
          subst
            (λ f.
              (entry f v.arrays i ≡ some (some (some p)))
              × (entry f v.arrays k ≡ some (some (some q))))
            (sym same) (at, at')

      Serves-second :
          (t : Option Time) (r : Expected RetCode (Unit {0}) × Waiter port)
          → v.session.mapping ≡ []
          → Serves service_name t v r
          → entry e r.1.arrays k ≡ some (some none)
      Serves-second t r none_mapped (w, w', ts, g, m, waits, entries) =
          let (start', ctx, ids, _, _, listed, _, results) = waits in
          let (h, same) =
            guarded-HasNotSecond v w (HasBoth-array guard_condition) g
              (subst (All (IsOther service_name e (service_name q) k)) (sym none_mapped) tt) in
          let h' : HasNotSecond w'.session =
            subscribed-HasNotSecond w w'
              (subst (λ a. HasBoth subscriber a.subscribers) (sym same) (HasBoth-array subscriber))
              m h in
          let nothing : is_triggered e k ts ≡ false =
            ap (is_triggered e k) results
            ∙ reported_other service_name e (service_name q) k ctx.attached_timeout
                ctx.attached_listeners ids
                (All-mappings_of (IsOther service_name e (service_name q) k) ctx.attached_listeners
                  (subst (All (IsOther service_name e (service_name q) k)) (sym listed) h')) in
          entries e k ∙ rw (nothing, at') refl

      -- Of two entries of one array whose services have the same name, an rmw_wait that returns
      -- RMW_RET_OK sets the second to null, whatever iceoryx2 reports, if nothing was mapped before
      -- and iceoryx2 drains the listeners.
      pub rmw_wait_nulls_second :
          ((l : port.Listener) (w : port.World) → (port.try_wait_all l w).0 ≡ true)
          → (h : Option WaitSetHandle) (t : Option Time) → v.session.mapping ≡ []
          → (rmw_wait service_name h t v).0 ≡ ok tt
          → entry e (rmw_wait service_name h t v).1.arrays k ≡ some (some none)
      rmw_wait_nulls_second drains h t none_mapped done =
          Serves-second t (rmw_wait service_name h t v) none_mapped (
            rmw_wait-Serves service_name t drains v h
              (record { in_range = rw none_mapped tt; distinct = rw none_mapped tt }) done)
