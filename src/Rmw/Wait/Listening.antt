-- ===== src/Rmw/Wait/Listening.antt =====
-- The arrays of a wait over a middleware that maps every waitable: the listener of one entry stays, it
-- is mapped, and with which index.
use rmw_iceoryx.WaitSet.Indices.{HasIndex, map_waitable-HasIndex}
use rmw_iceoryx.Common.{
  List, Option, [], none, some, suc, zero, ok, ℕ, ◌∷◌, ◌≡◌, refl, arith, true, sym, subst,
  get_elem?, Expected, All, Bool-cases, ap, false, inl, inr, ◌+◌, ◌<◌, ◌≢◌,
}
use mathlib.Core.Option
use rmw_iceoryx.Errors.{RetCode}
use rmw_iceoryx.WaitSet.{
  WaitSetPort, WaitableEntity, Session, ListenerDetails, is_mapped, map_waitable,
}
use rmw_iceoryx.WaitSet.Mapping.{same_entity-eq, same_entity_refl}
use rmw_iceoryx.WaitSet.Waiting.Events.{Events}
use rmw_iceoryx.WaitSet.Waiting.Mapped.{Listens, map_waitable-Keeps, map_waitable-maps}
use rmw_iceoryx.Rmw.Wait.{Handles, has_no_null, all_given, map_handles, map_array, same_entity}
use rmw_iceoryx.Rmw.Wait.Sharing.{map_handles-eq}
use rmw_iceoryx.Rmw.Wait.Mappings.{map_handles-keeps, map_array-keeps}

module _ {port : WaitSetPort} (events : Events port) (service_name : ℕ → List ℕ)
    (e : WaitableEntity) (p j : ℕ) (d : ListenerDetails port.Listener) where
  -- The listener of the waitable at `p`.
  abbrev pub IsListening : Session port → Type 0
  IsListening = Listens events (service_name p) e j d

  abbrev pub IsKept : Session port → Expected RetCode (Unit {0}) × Session port → Type 0
  IsKept s r =
      (r.0 ≡ ok tt)
      × IsListening r.1
      × ((f : WaitableEntity) (i : ℕ)
          → is_mapped f i s.mapping ≡ true
          → is_mapped f i r.1.mapping ≡ true)

  map_handles-IsKept :
      (f : WaitableEntity) (k : ℕ) (hs : List (Option ℕ)) (s : Session port)
      → has_no_null hs ≡ true
      → IsListening s
      → IsKept s (map_handles service_name f k hs s)
  unfolding map_handles has_no_null
  map_handles-IsKept f k [] s given h = (refl, h, λ g i m. m)
  map_handles-IsKept f k (none ∷ hs) s given h = absurd (cc)
  map_handles-IsKept f k (some q ∷ hs) s given h =
      let v = map_waitable-Keeps events (service_name p) e j d f k (service_name q) s h in
      let (done, listens, keeps) =
        map_handles-IsKept f (suc k) hs (map_waitable f k (service_name q) s).1 given v.listens in
      subst (IsKept s) (sym (map_handles-eq service_name f k q hs s v.succeeds))
        (done, listens, λ g i m. keeps g i (v.keeps g i m))

  map_handles-maps :
      (k i : ℕ) (hs : List (Option ℕ)) (s : Session port)
      → has_no_null hs ≡ true
      → get_elem? hs i ≡ some (some p)
      → IsListening s
      → is_mapped e j (map_handles service_name e k hs s).1.mapping ≡ true
  unfolding map_handles has_no_null
  map_handles-maps k i [] s given at h = absurd (cc)
  map_handles-maps k i (none ∷ hs) s given at h = absurd (cc)
  map_handles-maps k zero (some q ∷ hs) s given at h =
      let same : q ≡ p = ground (arith, at) in
      let v = map_waitable-Keeps events (service_name p) e j d e k (service_name q) s h in
      let (done, listens, keeps) =
        map_handles-IsKept e (suc k) hs (map_waitable e k (service_name q) s).1 given v.listens in
      subst (λ r. is_mapped e j r.1.mapping ≡ true)
        (sym (map_handles-eq service_name e k q hs s v.succeeds))
        (keeps e j (rw same (map_waitable-maps events (service_name p) e j d k s h)))
  map_handles-maps k (suc i) (some q ∷ hs) s given at h =
      let v = map_waitable-Keeps events (service_name p) e j d e k (service_name q) s h in
      subst (λ r. is_mapped e j r.1.mapping ≡ true)
        (sym (map_handles-eq service_name e k q hs s v.succeeds))
        (map_handles-maps (suc k) i hs (map_waitable e k (service_name q) s).1 given at v.listens)

  pub map_array-IsKept :
      (f : WaitableEntity) (hs : Handles) (s : Session port)
      → all_given hs ≡ true
      → IsListening s
      → IsKept s (map_array service_name f hs s)
  map_array-IsKept f none s given h = (refl, h, λ g i m. m)
  map_array-IsKept f (some hs) s given h = map_handles-IsKept f 0 hs s given h

  pub map_array-maps :
      (i : ℕ) (hs : Handles) (s : Session port)
      → all_given hs ≡ true
      → Option.map (λ hs. get_elem? hs i) hs ≡ some (some (some p))
      → IsListening s
      → is_mapped e j (map_array service_name e hs s).1.mapping ≡ true
  map_array-maps i none s given at h = absurd (cc)
  map_array-maps i (some hs) s given at h = map_handles-maps 0 i hs s given (ground (arith, at)) h

  distinct : (f : WaitableEntity) → same_entity f e ≡ false → ¬ (f ≡ e)
  distinct f other same =
      let clash : same_entity e e ≡ false = subst (λ g. same_entity g e ≡ false) same other in
      absurd (ground (arith, clash, same_entity_refl e))

  module _ (i : ℕ) where
    -- Mappings of the listener have the index `i`.
    abbrev pub HasIndices : Session port → Type 0
    HasIndices s = All (HasIndex e j i) s.mapping

    -- Once the listener is mapped.
    map_handles_mapped :
        (o : ℕ) (hs : List (Option ℕ)) (s : Session port)
        → IsListening s
        → is_mapped e j s.mapping ≡ true
        → HasIndices s
        → HasIndices (map_handles service_name e o hs s).1
    map_handles_mapped o hs s h mapped indices =
        (map_handles-keeps (λ s. IsListening s × (is_mapped e j s.mapping ≡ true) × HasIndices s)
          service_name e o hs s
          (λ t q s' at (h', mapped', indices').
            let v =
              map_waitable-Keeps events (service_name p) e j d e (o + t) (service_name q) s' h' in
            (
              v.listens,
              v.keeps e j mapped',
              map_waitable-HasIndex e j i (service_name p) e (o + t) (service_name q) s' h'.is_found
                  (λ _ _. inr mapped') indices',
            ))
          (h, mapped, indices)).2

    -- No entry before `t` is of the service.
    abbrev pub IsFirst : ℕ → List (Option ℕ) → Type 0
    IsFirst t hs =
        (u q : ℕ) → u < t → get_elem? hs u ≡ some (some q) → service_name q ≢ service_name p

    map_handles-HasIndices :
        (o t : ℕ) (hs : List (Option ℕ)) (s : Session port)
        → has_no_null hs ≡ true
        → o + t ≡ i
        → get_elem? hs t ≡ some (some p)
        → IsFirst t hs
        → IsListening s
        → HasIndices s
        → HasIndices (map_handles service_name e o hs s).1
    unfolding has_no_null map_handles
    map_handles-HasIndices o t [] s given index at first h indices = absurd (cc)
    map_handles-HasIndices o t (none ∷ hs) s given index at first h indices = absurd (cc)
    map_handles-HasIndices o zero (some q ∷ hs) s given index at first h indices =
        let same : q ≡ p = ground (arith, at) in
        let v = map_waitable-Keeps events (service_name p) e j d e o (service_name q) s h in
        subst (λ r. HasIndices r.1) (sym (map_handles-eq service_name e o q hs s v.succeeds))
          (map_handles_mapped (suc o) hs (map_waitable e o (service_name q) s).1 v.listens
            (rw same (map_waitable-maps events (service_name p) e j d o s h))
            (map_waitable-HasIndex e j i (service_name p) e o (service_name q) s h.is_found
              (λ _ _. inl (omega (arith, index))) indices))
    map_handles-HasIndices o (suc t) (some q ∷ hs) s given index at first h indices =
        let v = map_waitable-Keeps events (service_name p) e j d e o (service_name q) s h in
        subst (λ r. HasIndices r.1) (sym (map_handles-eq service_name e o q hs s v.succeeds))
          (map_handles-HasIndices (suc o) t hs (map_waitable e o (service_name q) s).1 given
            (omega (arith, index)) at (λ u r lt at'. first (suc u) r (omega (arith, lt)) at')
            v.listens
            (map_waitable-HasIndex e j i (service_name p) e o (service_name q) s h.is_found
              (λ _ same. absurd (first 0 q (omega arith) refl same)) indices))

    -- The array has the entry at `i`, the first of its service, if it is the one of the kind.
    abbrev pub HasFirst : WaitableEntity → Handles → Type 0
    HasFirst f hs =
        f ≡ e
        → (Option.map (λ hs. get_elem? hs i) hs ≡ some (some (some p)))
          × ((u q : ℕ)
              → u < i
              → Option.map (λ hs. get_elem? hs u) hs ≡ some (some (some q))
              → service_name q ≢ service_name p)

    map_own-HasIndices :
        (hs : Handles) (s : Session port)
        → all_given hs ≡ true
        → HasFirst e hs
        → IsListening s
        → HasIndices s
        → HasIndices (map_array service_name e hs s).1
    map_own-HasIndices none s given at h indices = indices
    map_own-HasIndices (some hs) s given at h indices =
        let (here, first) = at refl in
        map_handles-HasIndices 0 i hs s given (omega arith) (ground (arith, here))
          (λ u q lt at'. first u q lt (ap some at')) h indices

    pub map_array-HasIndices :
        (f : WaitableEntity) (hs : Handles) (s : Session port)
        → all_given hs ≡ true
        → HasFirst f hs
        → IsListening s
        → HasIndices s
        → HasIndices (map_array service_name f hs s).1
    map_array-HasIndices f hs s given at h indices = elim (Bool-cases (same_entity f e)) [
      | inl same ↦
          subst (λ g. HasFirst g hs → HasIndices (map_array service_name g hs s).1)
            (sym (same_entity-eq f e same)) (λ at. map_own-HasIndices hs s given at h indices) at
      | inr other ↦
          (map_array-keeps (λ s. IsListening s × HasIndices s) service_name f hs s
            (λ t q s' at' (h', indices').
              let v = map_waitable-Keeps events (service_name p) e j d f t (service_name q) s' h' in
              (
                v.listens,
                map_waitable-HasIndex e j i (service_name p) f t (service_name q) s' h'.is_found
                    (λ same _. absurd (distinct f other same)) indices',
              ))
            (h, indices)).1
    ]
