-- ===== src/Rmw/Wait/Sharing.antt =====
-- `rmw_wait` over two entries of one kind and one service: only the first of them can be reported.
use rmw_iceoryx.Common.{
  All, Bool-cases, List, Option, [], none, some, ok, ℕ, ◌∷◌, ◌≡◌, refl, arith, true, false, ap, inl,
  inr, sym, subst, ◌∙◌, suc, zero, get_elem?, ◌+◌, ◌<◌, ◌==◌, ◌&&◌,
}
use rmw_iceoryx.WaitSet.{
  WaitSetPort, WaitableEntity, Session, RmwMapping, map_waitable, same_entity,
}
use rmw_iceoryx.WaitSet.Mapping.{map_waitable-All}
use rmw_iceoryx.WaitSet.Sharing.{
  IsServed, map_waitable-IsServed, map_waitable-serves, map_waitable_served,
}
use rmw_iceoryx.WaitSet.Waiting.{
  AttachmentDetails, TriggeredWaitable, find_attachment, id_of, is_timeout,
}
use rmw_iceoryx.WaitSet.Waiting.Callback.{reported, waitable_of}
use rmw_iceoryx.Rmw.Wait.{map_handles, is_triggered}
use rmw_iceoryx.Rmw.Wait.Mappings.{map_handles-keeps}

-- What follows an entry that is mapped.
pub map_handles-eq :
    {port : WaitSetPort} (service_name : ℕ → List ℕ) (f : WaitableEntity) (k q : ℕ)
    (hs : List (Option ℕ)) (s : Session port)
    → (map_waitable f k (service_name q) s).0 ≡ ok tt
    → map_handles service_name f k (some q ∷ hs) s
      ≡ map_handles service_name f (suc k) hs (map_waitable f k (service_name q) s).1
unfolding map_handles
map_handles-eq service_name f k q hs s done = ground (arith, done)

map_handles-first_ok :
    {port : WaitSetPort} (service_name : ℕ → List ℕ) (f : WaitableEntity) (k q : ℕ)
    (hs : List (Option ℕ)) (s : Session port)
    → (map_handles service_name f k (some q ∷ hs) s).0 ≡ ok tt
    → (map_waitable f k (service_name q) s).0 ≡ ok tt
unfolding map_handles
map_handles-first_ok service_name f k q hs s done = ground (arith, done)

module _ (service_name : ℕ → List ℕ) (e : WaitableEntity) (name : List ℕ) (k : ℕ) where
  -- Not of the kind, or not of the index.
  abbrev pub IsOther : RmwMapping → Type 0
  IsOther m = (same_entity m.waitable_type e && m.rmw_index == k) ≡ false

  -- Entry `k` of an array whose entries from the index `o` on are given is of the service.
  abbrev pub IsOfService : ℕ → List (Option ℕ) → Type 0
  IsOfService o hs =
      (t p : ℕ) → get_elem? hs t ≡ some (some p) → (o + t == k) ≡ true → service_name p ≡ name

  IsOfService-tail :
      (o : ℕ) (h : Option ℕ) (hs : List (Option ℕ))
      → IsOfService o (h ∷ hs)
      → IsOfService (suc o) hs
  IsOfService-tail o h hs of_service t p at hit = of_service (suc t) p at (ground (arith, hit))

  module _ {port : WaitSetPort} where
    abbrev pub HasOther : Session port → Type 0
    HasOther s = All IsOther s.mapping

    pub map_waitable-HasOther :
        (f : WaitableEntity) (i : ℕ) (name' : List ℕ) (s : Session port)
        → (same_entity f e && i == k) ≡ false
        → HasOther s
        → HasOther (map_waitable f i name' s).1
    map_waitable-HasOther f i name' s other h = map_waitable-All IsOther f i (λ j. other) name' s h

    map_handles-after :
        (o : ℕ) (hs : List (Option ℕ)) (s : Session port)
        → IsOfService o hs
        → IsServed e name s
        → HasOther s
        → HasOther (map_handles service_name e o hs s).1
    map_handles-after o hs s of_service served h =
        (map_handles-keeps (λ s. IsServed e name s × HasOther s) service_name e o hs s
          (λ t p s' at (served', h'). elim (Bool-cases (o + t == k)) [
            | inl hit ↦
                rw (of_service t p at hit, map_waitable_served e name (o + t) s' served')
                  (served', h')
            | inr miss ↦ (
              map_waitable-IsServed e name e (o + t) (service_name p) s' served',
              map_waitable-HasOther e (o + t) (service_name p) s' (ground (arith, miss)) h',
            )
          ])
          (served, h)).1

    -- After an earlier entry of the service is mapped, entry `k` is not.
    pub map_handles-HasOther :
        (o i p : ℕ) (hs : List (Option ℕ)) (s : Session port)
        → get_elem? hs i ≡ some (some p)
        → service_name p ≡ name
        → o + i < k
        → IsOfService o hs
        → (map_handles service_name e o hs s).0 ≡ ok tt
        → HasOther s
        → HasOther (map_handles service_name e o hs s).1
    unfolding map_handles
    map_handles-HasOther o i p [] s at named lt of_service done h = absurd (cc)
    map_handles-HasOther o i p (none ∷ hs) s at named lt of_service done h = absurd (cc)
    map_handles-HasOther o zero p (some q ∷ hs) s at named lt of_service done h =
        let same : q ≡ p = ground (arith, at) in
        let first = map_handles-first_ok service_name e o q hs s done in
        let s' : Session port = (map_waitable e o (service_name q) s).1 in
        subst (λ r. HasOther r.1) (sym (map_handles-eq service_name e o q hs s first))
          (map_handles-after (suc o) hs s' (IsOfService-tail o (some q) hs of_service)
            (subst (λ n. IsServed e n s') (ap service_name same ∙ named)
              (map_waitable-serves e (service_name q) o s first))
            (map_waitable-HasOther e o (service_name q) s (ground (arith, lt)) h))
    map_handles-HasOther o (suc i) p (some q ∷ hs) s at named lt of_service done h =
        let first = map_handles-first_ok service_name e o q hs s done in
        let rest = map_handles-eq service_name e o q hs s first in
        subst (λ r. HasOther r.1) (sym rest)
          (map_handles-HasOther (suc o) i p hs (map_waitable e o (service_name q) s).1 at named
            (omega (arith, lt)) (IsOfService-tail o (some q) hs of_service)
            (ap (λ r. r.0) (sym rest) ∙ done)
            (map_waitable-HasOther e o (service_name q) s (ground (arith, lt)) h))

    found-IsOther :
        (id : ℕ) (as' : List (AttachmentDetails port)) (a : AttachmentDetails port)
        → All (λ a. IsOther a.mapping) as'
        → find_attachment id as' ≡ some a
        → IsOther a.mapping
    unfolding find_attachment
    found-IsOther id [] a h f = absurd (cc)
    found-IsOther id (b ∷ bs) a h f = elim (Bool-cases (id_of b == id)) [
      | inl hit ↦
          let same : b ≡ a = ground (arith, hit, f) in subst (λ x. IsOther x.mapping) same h.0
      | inr miss ↦ found-IsOther id bs a h.1 (ground (arith, miss, f))
    ]

    no_trigger :
        (o : Option (AttachmentDetails port)) (ts : List TriggeredWaitable)
        → ((a : AttachmentDetails port) → o ≡ some a → IsOther a.mapping)
        → is_triggered e k ts ≡ false
        → is_triggered e k (waitable_of o ts) ≡ false
    unfolding is_triggered
    no_trigger none ts other h = h
    no_trigger (some a) ts other h = rw (other a refl) h

    -- What is reported of such mappings is not of the kind and the index.
    pub reported_other :
        (timeout : Option port.Guard) (as' : List (AttachmentDetails port)) (ids : List ℕ)
        → All (λ a. IsOther a.mapping) as'
        → is_triggered e k (reported timeout as' ids) ≡ false
    unfolding reported is_triggered
    reported_other timeout as' [] h = refl
    reported_other timeout as' (id ∷ ids) h =
        elim (Bool-cases (is_timeout port.from_guard id timeout)) [
          | inl ended ↦ rw ended refl
          | inr going ↦ rw going (
              no_trigger (find_attachment id as') (reported timeout as' ids)
                (λ a f. found-IsOther id as' a h f) (reported_other timeout as' ids h))
        ]
