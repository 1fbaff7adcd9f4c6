-- ===== src/Rmw/Wait/Mappings.antt =====
-- What `rmw_wait` leaves of the wait set.
use rmw_iceoryx.Rmw.Ensure.{is_own}
use rmw_iceoryx.WaitSet.Waiting.Results.{wait-Waits}
use rmw_iceoryx.Rmw.Wait.{
  map_handles, Handles, rmw_wait, wait_on, Time, WaitSetHandle, Arrays, Waiter, finish, map_array,
  to_nanoseconds, map_guard_conditions, wait_and_finish, map_subscriptions, all_given,
}
use rmw_iceoryx.WaitSet.Waiting.{TriggeredWaitable, wait}
use rmw_iceoryx.Errors.{RetCode, WaitSetError}
use rmw_iceoryx.WaitSet.{
  WaitSetPort, Session, WaitableEntity, map_waitable, unmap_all, guard_condition, subscriber,
}
use mathlib.Core.Option
use rmw_iceoryx.WaitSet.Mapping.{IsValid, map_waitable-IsValid, unmap_all-IsValid}
use rmw_iceoryx.Common.{
  Exec, Expected, List, Option, [], arith, continue, err, get_elem?, none, ok, refl, report, some,
  suc, sym, ℕ, ◌+◌, ◌∷◌, ◌≡◌, subst, ap, ◌⊎◌, or_code, ◌>>◌, true,
}

-- The wait ran to its end.
abbrev pub Completes : Expected RetCode (Unit {0}) → Type 0
Completes r = (r ≡ ok tt) ⊎ (r ≡ err RetCode.timeout)

pub then-keeps :
    {S : Type 0} (Q : S → Type 0) (m f : Exec S RetCode (Unit {0})) (s : S)
    → Q (m s).1
    → ((s : S) → Q s → Q (f s).1)
    → Q ((m >> f) s).1
then-keeps Q m f s q rest = continued (m s) q
  where
    continued : (r : Expected RetCode (Unit {0}) × _) → Q r.1 → Q (continue r (λ _. f)).1
    continued (ok _, s) q = rest s q
    continued (err e, s) q = q

-- The same for a claim of the result: it holds of every error of the first part.
pub then-holds :
    {S : Type 0} (Q : S → Type 0) (P : Expected RetCode (Unit {0}) × S → Type 0)
    (m f : Exec S RetCode (Unit {0})) (s : S)
    → Q (m s).1
    → ((c : RetCode) (s' : S) → (m s).0 ≡ err c → P (err c, s'))
    → ((s' : S) → Q s' → P (f s'))
    → P ((m >> f) s)
then-holds {S} Q P m f s q fails rest = continued (m s) q fails
  where
    continued :
        (r : Expected RetCode (Unit {0}) × S)
        → Q r.1
        → ((c : RetCode) (s' : S) → r.0 ≡ err c → P (err c, s'))
        → P (continue r (λ _. f))
    continued (ok _, s) q fails = rest s q
    continued (err e, s) q fails = fails e s refl

module _ {port : WaitSetPort} where
  reported-session :
      {E A : Type 0} (c : RetCode) (r : Expected E A × Session port) → (report c r).1 ≡ r.1
  reported-session c (ok a, s) = refl
  reported-session c (err e, s) = refl

  module _ (Q : Session port → Type 0) where
    -- What every mapping of a given handle keeps, the whole array keeps.
    pub map_handles-keeps :
        (service_name : ℕ → List ℕ) (e : WaitableEntity) (k : ℕ) (hs : List (Option ℕ))
        (s : Session port)
        → ((i p : ℕ) (s : Session port)
            → get_elem? hs i ≡ some (some p)
            → Q s
            → Q (map_waitable e (k + i) (service_name p) s).1)
        → Q s
        → Q (map_handles service_name e k hs s).1
    unfolding map_handles
    map_handles-keeps service_name e k [] s h q = q
    map_handles-keeps service_name e k (none ∷ hs) s h q = q
    map_handles-keeps service_name e k (some p ∷ hs) s h q =
        then-keeps Q (or_code (map_waitable e k (service_name p)) RetCode.error)
          (map_handles service_name e (suc k) hs) s
          (subst Q (sym (reported-session RetCode.error _)) (
            let z : k + 0 ≡ k = omega arith in
            subst (λ n. Q (map_waitable e n (service_name p) s).1) z (h 0 p s refl q)))
          (λ s' q'.
            map_handles-keeps service_name e (suc k) hs s'
              (λ i p' s'' g q''.
                let z : k + suc i ≡ suc k + i = omega arith in
                subst (λ n. Q (map_waitable e n (service_name p') s'').1) z
                  (h (suc i) p' s'' g q''))
              q')

    pub map_array-keeps :
        (service_name : ℕ → List ℕ) (e : WaitableEntity) (hs : Handles) (s : Session port)
        → ((i p : ℕ) (s : Session port)
            → Option.map (λ hs. get_elem? hs i) hs ≡ some (some (some p))
            → Q s
            → Q (map_waitable e i (service_name p) s).1)
        → Q s
        → Q (map_array service_name e hs s).1
    map_array-keeps service_name e none s h q = q
    map_array-keeps service_name e (some hs) s h q =
        map_handles-keeps service_name e 0 hs s
          (λ i p s' g q'.
            let z : i ≡ 0 + i = omega arith in
            subst (λ n. Q (map_waitable e n (service_name p) s').1) z (h i p s' (ap some g) q'))
          q

  finished-IsValid :
      (r : Expected WaitSetError (List TriggeredWaitable) × Session port) (a : Arrays)
      → IsValid r.1.self
      → IsValid
          (continue
            (report RetCode.error (r.0, record { session = r.1; arrays = a }))
            finish).1.session.self
  finished-IsValid (ok ts, s) a v = unmap_all-IsValid s
  finished-IsValid (err e, s) a v = v

  abbrev HasValidMapping : Waiter port → Type 0
  HasValidMapping v = IsValid v.session.self

  pub mapped-IsValid :
      (service_name : ℕ → List ℕ) (e : WaitableEntity) (hs : Handles) (s : Session port)
      → IsValid s.self
      → IsValid (map_array service_name e hs s).1.self
  mapped-IsValid service_name e hs s =
      map_array-keeps (λ s. IsValid s.self) service_name e hs s
        λ i p s _ h. map_waitable-IsValid e i (service_name p) s h

  wait_on-IsValid :
      (service_name : ℕ → List ℕ) (t : Option Time) (v : Waiter port)
      → HasValidMapping v
      → HasValidMapping (wait_on service_name t v).1
  unfolding wait_on map_guard_conditions map_subscriptions wait_and_finish
  wait_on-IsValid service_name t v valid =
      then-keeps HasValidMapping (map_guard_conditions service_name) _ v
        (mapped-IsValid service_name guard_condition v.arrays.guard_conditions v.session valid)
        λ w h.
          then-keeps HasValidMapping (map_subscriptions service_name) (wait_and_finish t) w
            (mapped-IsValid service_name subscriber w.arrays.subscribers w.session h)
            λ w' h'.
              finished-IsValid (wait (Option.map to_nanoseconds t) w'.session) w'.arrays
                (subst IsValid (sym (wait-Waits (Option.map to_nanoseconds t) w'.session).0) h')

  -- Whatever the arrays hold and however it ends, rmw_wait keeps the wait set well formed: each
  -- mapping on a stored listener, and none twice.
  pub rmw_wait-IsValid :
      (service_name : ℕ → List ℕ) (h : Option WaitSetHandle) (t : Option Time) (v : Waiter port)
      → IsValid v.session.self
      → IsValid (rmw_wait service_name h t v).1.session.self
  unfolding rmw_wait
  rmw_wait-IsValid service_name h t v valid = ground (arith, wait_on-IsValid service_name t v valid)

  map_handles-error :
      (service_name : ℕ → List ℕ) (e : WaitableEntity) (k : ℕ) (hs : List (Option ℕ))
      (s : Session port) (c : RetCode)
      → (map_handles service_name e k hs s).0 ≡ err c
      → c ≡ RetCode.error
  unfolding map_handles
  map_handles-error service_name e k [] s c h = absurd (cc)
  map_handles-error service_name e k (none ∷ hs) s c h = ground arith
  map_handles-error service_name e k (some p ∷ hs) s c h = ground (
    arith,
    h,
    map_handles-error service_name e (suc k) hs (map_waitable e k (service_name p) s).1 c,
  )

  pub map_array-error :
      (service_name : ℕ → List ℕ) (e : WaitableEntity) (hs : Handles) (s : Session port)
      (c : RetCode)
      → (map_array service_name e hs s).0 ≡ err c
      → c ≡ RetCode.error
  map_array-error service_name e none s c h = absurd (cc)
  map_array-error service_name e (some hs) s c h = map_handles-error service_name e 0 hs s c h

  abbrev Unmaps : Expected RetCode (Unit {0}) × Waiter port → Type 0
  Unmaps r = Completes r.0 → r.1.session.mapping ≡ []

  wait_on-Unmaps :
      (service_name : ℕ → List ℕ) (t : Option Time) (v : Waiter port)
      → Unmaps (wait_on service_name t v)
  unfolding wait_on map_guard_conditions map_subscriptions wait_and_finish unmap_all
  wait_on-Unmaps service_name t v =
      then-holds (λ _. Unit) Unmaps (map_guard_conditions service_name) _ v tt
        (λ c s' e done. absurd (
          ground (
            arith,
            done,
            map_array-error service_name guard_condition v.arrays.guard_conditions v.session c e,
          )))
        λ w _.
          then-holds (λ _. Unit) Unmaps (map_subscriptions service_name) (wait_and_finish t) w tt
            (λ c s' e done. absurd (
              ground (
                arith,
                done,
                map_array-error service_name subscriber w.arrays.subscribers w.session c e,
              )))
            λ w' _ done. ground (arith, done)

  -- A wait that ran to its end leaves nothing mapped.
  pub rmw_wait-unmaps :
      (service_name : ℕ → List ℕ) (h : Option WaitSetHandle) (t : Option Time) (v : Waiter port)
      → Completes (rmw_wait service_name h t v).0
      → (rmw_wait service_name h t v).1.session.mapping ≡ []
  unfolding rmw_wait
  rmw_wait-unmaps service_name h t v done = ground (arith, done, wait_on-Unmaps service_name t v)

  -- If the wait fails once the arrays are mapped, rmw_wait returns RMW_RET_ERROR and leaves the
  -- mapping as the arrays left it.
  pub rmw_wait_keeps_mapping :
      (service_name : ℕ → List ℕ) (h : WaitSetHandle) (p : ℕ) (t : Option Time)
      (v v1 v2 : Waiter port) (e : WaitSetError)
      → is_own h.implementation_identifier ≡ true
      → h.impl ≡ some p
      → all_given v.arrays.guard_conditions ≡ true
      → all_given v.arrays.subscribers ≡ true
      → map_guard_conditions service_name v ≡ (ok tt, v1)
      → map_subscriptions service_name v1 ≡ (ok tt, v2)
      → (wait (Option.map to_nanoseconds t) v2.session).0 ≡ err e
      → ((rmw_wait service_name (some h) t v).0 ≡ err RetCode.error)
        × ((rmw_wait service_name (some h) t v).1.session.mapping ≡ v2.session.mapping)
  unfolding rmw_wait wait_on wait_and_finish
  rmw_wait_keeps_mapping service_name h p t v v1 v2 e own impl gcs subs m1 m2 fails =
      ground (arith, (wait-Waits (Option.map to_nanoseconds t) v2.session).0)
