-- ===== src/Rmw/Wait/Reports.antt =====
-- What `rmw_wait` leaves of the arrays, by its code.
use rmw_iceoryx.Rmw.Wait.Entries.{after_wait-entry, array_of, entry}
use rmw_iceoryx.Rmw.Ensure.{is_own}
use rmw_iceoryx.WaitSet.Waiting.Results.{wait-Waits}
use rmw_iceoryx.Errors.{WaitSetError}
use rmw_iceoryx.WaitSet.Waiting.Triggers.{Among, IsTriggered}
use rmw_iceoryx.WaitSet.Mapping.{map_waitable-All, same_entity_refl}
use rmw_iceoryx.Rmw.Wait.{
  is_triggered, Arrays, Waiter, after_wait, map_array, RetCode, rmw_wait, wait_on, WaitSetHandle,
  map_guard_conditions, Time, finish, map_subscriptions, wait_and_finish, to_nanoseconds, all_given,
  Handles, null_all,
}
use mathlib.Core.Option
use rmw_iceoryx.WaitSet.{
  WaitSetPort, Session, WaitableEntity, RmwMapping, guard_condition, subscriber, unmap_all,
}
use rmw_iceoryx.WaitSet.Waiting.{TriggeredWaitable, wait, triggered}
use rmw_iceoryx.Rmw.Wait.Mappings.{then-holds, map_array-keeps, map_array-error}
use rmw_iceoryx.Common.{
  List, Option, [], arith, none, refl, some, ℕ, ◌∷◌, ◌≡◌, All, Expected, continue, eq_refl, err,
  inl, inr, ok, report, subst, sym, true, ◌∙◌, Bool-cases, Option-cases, ◌&&◌, ◌≢◌, ◌⊎◌, get_elem?,
  length, length-replicate, suc, zero,
}

-- The mapping names an entry of the arrays that is not null.
abbrev pub IsGiven : Arrays → RmwMapping → Type 0
IsGiven a m = (p : ℕ) × (entry m.waitable_type a m.rmw_index ≡ some (some (some p)))

-- Some entry of the subscribers or the guard conditions is not null.
abbrev pub HasReady : Arrays → Type 0
HasReady a = (e : WaitableEntity) × (i : ℕ) × (p : ℕ) × (entry e a i ≡ some (some (some p)))

pub All-Among :
    (P : RmwMapping → Type 0) (m : RmwMapping) (ms : List RmwMapping) → Among m ms → All P ms → P m
All-Among P m [] a h = absurd a
All-Among P m (n ∷ ns) (inl e) h = subst P (sym e) h.0
All-Among P m (n ∷ ns) (inr a) h = All-Among P m ns a h.1

triggered-HasReady :
    (m : RmwMapping) (t : TriggeredWaitable) (ts : List TriggeredWaitable) (a : Arrays)
    → t ≡ triggered m
    → IsGiven a m
    → HasReady (after_wait (t ∷ ts) a)
unfolding is_triggered
triggered-HasReady m t ts a e (p, g) = (
  m.waitable_type,
  m.rmw_index,
  p,
  after_wait-entry (t ∷ ts) a m.waitable_type m.rmw_index
      ∙ (let hit : is_triggered m.waitable_type m.rmw_index (t ∷ ts) ≡ true =
            ground (arith, e, same_entity_refl m.waitable_type, eq_refl m.rmw_index) in
          rw hit (rw g refl)),
)

-- An array as another one with null in each entry, and a null pointer as one.
abbrev pub IsNulled : Handles → Handles → Type 0
IsNulled none hs = hs ≡ none
IsNulled (some ks) none = ⊥
IsNulled (some ks) (some hs) =
    (length hs ≡ length ks) × ((i p : ℕ) → get_elem? hs i ≢ some (some p))

null_all-get : (ks : List (Option ℕ)) (i p : ℕ) → get_elem? (null_all ks) i ≢ some (some p)
null_all-get [] i p e = absurd (cc)
null_all-get (k ∷ ks) zero p e = absurd (cc)
null_all-get (k ∷ ks) (suc i) p e = null_all-get ks i p e

null_all-IsNulled : (hs : Handles) → IsNulled hs (Option.map null_all hs)
null_all-IsNulled none = refl
null_all-IsNulled (some ks) = (length-replicate (length ks) none, null_all-get ks)

-- What a timeout leaves: the subscribers and the guard conditions, and of the others null entries.
pub record IsTimedOut (a b : Arrays) : Type 0 where
  pub subscribers : b.subscribers ≡ a.subscribers
  pub guard_conditions : b.guard_conditions ≡ a.guard_conditions
  pub services : IsNulled a.services b.services
  pub clients : IsNulled a.clients b.clients
  pub events : IsNulled a.events b.events

after_wait-IsTimedOut : (a : Arrays) → IsTimedOut a (after_wait [] a)
unfolding after_wait
after_wait-IsTimedOut a = record {
  subscribers = refl;
  guard_conditions = refl;
  services = null_all-IsNulled a.services;
  clients = null_all-IsNulled a.clients;
  events = null_all-IsNulled a.events;
}

module _ {port : WaitSetPort} where
  abbrev AllGiven : Waiter port → Type 0
  AllGiven v = All (IsGiven v.arrays) v.session.mapping

  mapped-IsGiven :
      (service_name : ℕ → List ℕ) (e : WaitableEntity) (a : Arrays) (s : Session port)
      → All (IsGiven a) s.mapping
      → All (IsGiven a) (map_array service_name e (array_of e a) s).1.mapping
  mapped-IsGiven service_name e a s =
      map_array-keeps (λ s. All (IsGiven a) s.mapping) service_name e (array_of e a) s
        λ i p s g h. map_waitable-All (IsGiven a) e i (λ k. (p, g)) (service_name p) s h

  -- What a wait that may report the mappings of `v` promises.
  abbrev Reports : Expected RetCode (Unit {0}) × Waiter port → Type 0
  Reports r = r.0 ≡ ok tt → HasReady r.1.arrays

  finished-Reports :
      (r : Expected WaitSetError (List TriggeredWaitable) × Session port) (v : Waiter port)
      → ((ts : List TriggeredWaitable) → r.0 ≡ ok ts → All (IsTriggered v.session.mapping) ts)
      → AllGiven v
      → Reports (continue (report RetCode.error (r.0, record v { session = r.1 })) finish)
  finished-Reports (ok [], s) v h given e = absurd (cc)
  finished-Reports (ok (t ∷ ts), s) v h given e =
      let (m, among, same) = (h (t ∷ ts) refl).0 in
      triggered-HasReady m t ts v.arrays same
        (All-Among (IsGiven v.arrays) m v.session.mapping among given)
  finished-Reports (err c, s) v h given e = absurd (cc)

  wait_on-Reports :
      (service_name : ℕ → List ℕ) (t : Option Time) (v : Waiter port)
      → AllGiven v
      → Reports (wait_on service_name t v)
  unfolding wait_on map_guard_conditions map_subscriptions wait_and_finish
  wait_on-Reports service_name t v given =
      then-holds AllGiven Reports (map_guard_conditions service_name) _ v
        (mapped-IsGiven service_name guard_condition v.arrays v.session given)
        (λ c s' e done. absurd (cc))
        λ w h.
          then-holds AllGiven Reports (map_subscriptions service_name) (wait_and_finish t) w
            (mapped-IsGiven service_name subscriber w.arrays w.session h)
            (λ c s' e done. absurd (cc))
            λ w' h'.
              finished-Reports (wait (Option.map to_nanoseconds t) w'.session) w'
                (wait-Waits (Option.map to_nanoseconds t) w'.session).1 h'

  pub checked :
      (service_name : ℕ → List ℕ) (h : Option WaitSetHandle) (t : Option Time) (v : Waiter port)
      → (rmw_wait service_name h t v ≡ wait_on service_name t v)
        ⊎ ((c : RetCode) × (rmw_wait service_name h t v ≡ (err c, v)) × (c ≢ RetCode.timeout))
  unfolding rmw_wait
  checked service_name none t v = inr (RetCode.invalid_argument, refl, λ e. absurd (cc))
  checked service_name (some h) t v = elim (Bool-cases (is_own h.implementation_identifier)) [
    | inr other ↦ inr (RetCode.incorrect_rmw_implementation, rw other refl, λ e. absurd (cc))
    | inl own ↦
        elim (Bool-cases (all_given v.arrays.guard_conditions && all_given v.arrays.subscribers)) [
          | inr hole ↦ inr (RetCode.invalid_argument, ground (arith, own, hole), λ e. absurd (cc))
          | inl given ↦ elim (Option-cases h.impl) [
            | inl none_impl ↦
                inr (RetCode.error, ground (arith, own, given, none_impl), λ e. absurd (cc))
            | inr (p, impl) ↦ inl (ground (arith, own, given, impl))
          ]
        ]
  ]

  -- If nothing was mapped before the call, an rmw_wait that returns RMW_RET_OK leaves some entry of
  -- the subscribers or the guard conditions that is not null, whatever ids iceoryx2 reports.
  pub rmw_wait-HasReady :
      (service_name : ℕ → List ℕ) (h : Option WaitSetHandle) (t : Option Time) (v : Waiter port)
      → v.session.mapping ≡ []
      → (rmw_wait service_name h t v).0 ≡ ok tt
      → HasReady (rmw_wait service_name h t v).1.arrays
  rmw_wait-HasReady service_name h t v none_mapped done = elim (checked service_name h t v) [
    | inl runs ↦
        subst Reports (sym runs)
          (wait_on-Reports service_name t v (subst (All (IsGiven v.arrays)) (sym none_mapped) tt))
          done
    | inr (c, refuses, _) ↦ absurd (ground (arith, refuses, done))
  ]

  abbrev KeepsOnTimeout : Arrays → Expected RetCode (Unit {0}) × Waiter port → Type 0
  KeepsOnTimeout a r =
      r.0 ≡ err RetCode.timeout → IsTimedOut a r.1.arrays × (r.1.session.mapping ≡ [])

  finished-KeepsOnTimeout :
      (r : Expected WaitSetError (List TriggeredWaitable) × Session port) (a : Arrays)
      → KeepsOnTimeout a
          (continue (report RetCode.error (r.0, record { session = r.1; arrays = a })) finish)
  unfolding unmap_all
  finished-KeepsOnTimeout (ok [], s) a e = (after_wait-IsTimedOut a, refl)
  finished-KeepsOnTimeout (ok (t ∷ ts), s) a e = absurd (cc)
  finished-KeepsOnTimeout (err c, s) a e = absurd (cc)

  wait_on-KeepsOnTimeout :
      (service_name : ℕ → List ℕ) (t : Option Time) (v : Waiter port)
      → KeepsOnTimeout v.arrays (wait_on service_name t v)
  unfolding wait_on map_guard_conditions map_subscriptions wait_and_finish
  wait_on-KeepsOnTimeout service_name t v =
      then-holds (λ w. w.arrays ≡ v.arrays) (KeepsOnTimeout v.arrays)
        (map_guard_conditions service_name) _ v refl
        (λ c s' e timed_out. absurd (
          ground (
            arith,
            timed_out,
            map_array-error service_name guard_condition v.arrays.guard_conditions v.session c e,
          )))
        λ w h.
          then-holds (λ w. w.arrays ≡ v.arrays) (KeepsOnTimeout v.arrays)
            (map_subscriptions service_name) (wait_and_finish t) w h
            (λ c s' e timed_out. absurd (
              ground (
                arith,
                timed_out,
                map_array-error service_name subscriber w.arrays.subscribers w.session c e,
              )))
            λ w' h'.
              subst (λ a. KeepsOnTimeout a (wait_and_finish t w')) h'
                (finished-KeepsOnTimeout (wait (Option.map to_nanoseconds t) w'.session) w'.arrays)

  -- An rmw_wait that times out leaves the subscribers and the guard conditions as the caller passed
  -- them, sets every entry of the other arrays to null, and leaves nothing mapped.
  pub rmw_wait_timeout :
      (service_name : ℕ → List ℕ) (h : Option WaitSetHandle) (t : Option Time) (v : Waiter port)
      → (rmw_wait service_name h t v).0 ≡ err RetCode.timeout
      → IsTimedOut v.arrays (rmw_wait service_name h t v).1.arrays
        × ((rmw_wait service_name h t v).1.session.mapping ≡ [])
  rmw_wait_timeout service_name h t v timed_out = elim (checked service_name h t v) [
    | inl runs ↦
        subst (KeepsOnTimeout v.arrays) (sym runs) (wait_on-KeepsOnTimeout service_name t v)
          timed_out
    | inr (c, refuses, other) ↦ absurd (ground (arith, refuses, timed_out, other))
  ]
