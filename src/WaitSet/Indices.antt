-- ===== src/WaitSet/Indices.antt =====
-- The index with which the listener of a service is mapped.
use rmw_iceoryx.Common.{
  All, All-append, Bool-cases, List, Option-cases, [], some, ℕ, ◌∷◌, ◌≡◌, refl, arith, true, false,
  ap, inl, inr, sym, subst, ◌∙◌, length, ◌⊎◌, ◌<◌, ◌==◌, ◌&&◌, suc, get_elem?,
}
use rmw_iceoryx.WaitSet.{
  WaitSetPort, RmwMapping, WaitSet, Session, ListenerDetails, listener_storage, WaitableEntity,
  find_listener, is_mapped, map_stored_listener, map_waitable, name_eq, same_entity,
}
use rmw_iceoryx.WaitSet.Storage.{find_listener-lt}
use rmw_iceoryx.WaitSet.Mapping.{same_entity-eq}
use rmw_iceoryx.WaitSet.Waiting.Mapped.{emplaced, emplaced-mapping}
use rmw_iceoryx.WaitSet.Sharing.{map_waitable-Maps}

name_eq-eq : (a b : List ℕ) → name_eq a b ≡ true → a ≡ b
unfolding name_eq
name_eq-eq [] [] h = refl
name_eq-eq [] (y ∷ b) h = absurd (cc)
name_eq-eq (x ∷ a) [] h = absurd (cc)
name_eq-eq (x ∷ a) (y ∷ b) h =
    let tails : a ≡ b = name_eq-eq a b (ground (arith, h)) in
    let heads : x ≡ y = ground (arith, h) in ap (◌∷◌ x) tails ∙ ap (λ z. z ∷ b) heads

-- What is found is the listener of the name.
find_listener-name :
    {L : Type 0} (name : List ℕ) (ds : List (ListenerDetails L)) (j : ℕ)
    → find_listener name ds ≡ some j
    → (d : ListenerDetails L) × (get_elem? ds j ≡ some d) × (d.service_name ≡ name)
unfolding find_listener
find_listener-name name [] j f = absurd (cc)
find_listener-name name (d ∷ ds) j f = elim (Bool-cases (name_eq d.service_name name)) [
  | inl hit ↦
      let first : j ≡ 0 = ground (arith, hit, f) in
      (d, rw first refl, name_eq-eq d.service_name name hit)
  | inr miss ↦ elim (Option-cases (find_listener name ds)) [
    | inl g ↦ absurd (ground (arith, miss, f, g))
    | inr (n, g) ↦
        let (e, at, named) = find_listener-name name ds n g in
        let next : j ≡ suc n = ground (arith, miss, f, g) in (e, rw next at, named)
  ]
]

-- Two names of one listener are the same.
find_listener_unique :
    {L : Type 0} (name name' : List ℕ) (ds : List (ListenerDetails L)) (j : ℕ)
    → find_listener name ds ≡ some j
    → find_listener name' ds ≡ some j
    → name' ≡ name
find_listener_unique name name' ds j f f' =
    let (d, at, named) = find_listener-name name ds j f in
    let (d', at', named') = find_listener-name name' ds j f' in
    let same : d' ≡ d = ground (arith, at, at') in
    sym named' ∙ ap (λ d. d.service_name) same ∙ named

module _ (e : WaitableEntity) (j i : ℕ) where
  -- A mapping of the listener at `j` has the index `i`.
  abbrev pub HasIndex : RmwMapping → Type 0
  HasIndex m = (same_entity m.waitable_type e && m.storage_index == j) ≡ true → m.rmw_index ≡ i

module _ {port : WaitSetPort} (e : WaitableEntity) (j i : ℕ) where
  map_stored_listener-HasIndex :
      (f : WaitableEntity) (n k : ℕ) (s : WaitSet port)
      → (is_mapped f n s.mapping ≡ false → (same_entity f e && n == j) ≡ true → k ≡ i)
      → All (HasIndex e j i) s.mapping
      → All (HasIndex e j i) (map_stored_listener f n k s).mapping
  unfolding map_stored_listener
  map_stored_listener-HasIndex f n k s new h = elim (Bool-cases (is_mapped f n s.mapping)) [
    | inl old ↦ rw old h
    | inr absent ↦
        rw absent (All-append (HasIndex e j i) s.mapping (_ ∷ []) h (λ hit. new absent hit, tt))
  ]

  -- A waitable of another service does not get the listener, and one of the same service gets the
  -- index `i` or shares the mapping that is there.
  pub map_waitable-HasIndex :
      (name : List ℕ) (f : WaitableEntity) (k : ℕ) (name' : List ℕ) (s : Session port)
      → find_listener name (listener_storage e s.self) ≡ some j
      → (f ≡ e → name' ≡ name → (k ≡ i) ⊎ (is_mapped e j s.mapping ≡ true))
      → All (HasIndex e j i) s.mapping
      → All (HasIndex e j i) (map_waitable f k name' s).1.mapping
  map_waitable-HasIndex name f k name' s found own h = elim (map_waitable-Maps f k name' s) [
    | inl (n, found', same) ↦
        subst (λ r. All (HasIndex e j i) r.1.mapping) (sym same)
          (map_stored_listener-HasIndex f n k s.self
            (λ absent hit.
              let kind : f ≡ e = same_entity-eq f e (ground (arith, hit)) in
              let at : n ≡ j = ground (arith, hit) in
              let found'' : find_listener name' (listener_storage e s.self) ≡ some j =
                subst (λ g. find_listener name' (listener_storage g s.self) ≡ some j) kind
                  (found' ∙ ap some at) in
              elim (own kind
                (find_listener_unique name name' (listener_storage e s.self) j found found'')) [
                  | inl index ↦ index
                  | inr mapped ↦ absurd (
                      ground (
                        arith,
                        mapped,
                        subst (λ g. is_mapped g j s.mapping ≡ false) kind
                            (subst (λ n. is_mapped f n s.mapping ≡ false) at absent),
                      ))
                ])
            h)
    | inr (inl (_, same)) ↦ subst (λ w. All (HasIndex e j i) w.mapping) (sym same) h
    | inr (inr (l, w, absent, same)) ↦
        let n : ℕ = length (listener_storage f s.self) in
        subst (λ r. All (HasIndex e j i) r.1.mapping) (sym same)
          (map_stored_listener-HasIndex f n k (emplaced f name' l s.self)
            (λ _ hit.
              let kind : f ≡ e = same_entity-eq f e (ground (arith, hit)) in
              let at : n ≡ j = ground (arith, hit) in
              let lt : j < length (listener_storage f s.self) =
                subst (λ g. j < length (listener_storage g s.self)) (sym kind)
                  (find_listener-lt name (listener_storage e s.self) j found) in
              absurd (omega (arith, at, lt)))
            (subst (All (HasIndex e j i)) (sym (emplaced-mapping f name' l s.self)) h))
  ]
