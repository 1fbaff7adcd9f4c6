-- ===== src/WaitSet/Mapping.antt =====
-- How the mapping of a wait set refers to the stored listeners.
use rmw_iceoryx.Common.{
  All, Bool-cases, Expected, List, [], ap, arith, continue, err, false, inl, inr, length, ok, refl,
  subst, sym, true, ℕ, ◌++◌, ◌<◌, ◌||◌, ◌∷◌, ◌≡◌, All-append, All-imp, some,
}
use rmw_iceoryx.WaitSet.{
  WaitableEntity, subscriber, guard_condition, same_entity, WaitSetPort, RmwMapping, WaitSet,
  Session, is_mapped, listener_storage, get_storage_index, map_stored_listener, map_waitable,
  unmap_all, WaitSetError, map_index, find_listener, or_create,
}
use rmw_iceoryx.WaitSet.Storage.{Grows, get_storage_index-Grows, get_storage_index-lt}

pub same_entity_refl : (e : WaitableEntity) → same_entity e e ≡ true
same_entity_refl subscriber = refl
same_entity_refl guard_condition = refl

-- No entity and storage index twice.
abbrev pub Distinct : List RmwMapping → Type 0
Distinct [] = Unit
Distinct (m ∷ ms) = (is_mapped m.waitable_type m.storage_index ms ≡ false) × Distinct ms

pub is_mapped-append :
    (e : WaitableEntity) (i : ℕ) (ms ns : List RmwMapping)
    → is_mapped e i (ms ++ ns) ≡ (is_mapped e i ms || is_mapped e i ns)
unfolding is_mapped
is_mapped-append e i [] ns = refl
is_mapped-append e i (m ∷ ms) ns = ground (arith, is_mapped-append e i ms ns)

pub same_entity-eq : (e f : WaitableEntity) → same_entity e f ≡ true → e ≡ f
same_entity-eq e f h = ground arith

Distinct-append :
    (m : RmwMapping) (ms : List RmwMapping)
    → is_mapped m.waitable_type m.storage_index ms ≡ false
    → Distinct ms
    → Distinct (ms ++ m ∷ [])
unfolding is_mapped
Distinct-append m [] h d = (refl, tt)
Distinct-append m (n ∷ ms) h d = (
  ground (
    arith,
    h,
    d.0,
    is_mapped-append n.waitable_type n.storage_index ms (m ∷ []),
    same_entity-eq m.waitable_type n.waitable_type,
  ),
  Distinct-append m ms (ground (arith, h)) d.1,
)

module _ {port : WaitSetPort} where
  abbrev pub IsStored : WaitSet port → RmwMapping → Type 0
  IsStored s m = m.storage_index < length (listener_storage m.waitable_type s)

  -- Every mapping refers to a stored listener, and none to the same as another.
  pub record IsValid (s : WaitSet port) : Type 0 where
    pub in_range : All (IsStored s) s.mapping
    pub distinct : Distinct s.mapping

  pub storage-with_mapping :
      (f : WaitableEntity) (ms : List RmwMapping) (s : WaitSet port)
      → listener_storage f (record s { mapping = ms }) ≡ listener_storage f s
  storage-with_mapping subscriber ms s = refl
  storage-with_mapping guard_condition ms s = refl

  Grows-IsValid : {s s' : WaitSet port} → Grows s s' → IsValid s → IsValid s'
  Grows-IsValid {s} {s'} g v = record {
    in_range = subst (All (IsStored s')) (sym g.same_mapping) (
        All-imp (IsStored s) (IsStored s') s.mapping
          (λ m lt. omega (arith, lt, g.longer m.waitable_type)) v.in_range);
    distinct = subst Distinct (sym g.same_mapping) v.distinct;
  }

  map_stored_listener-IsValid :
      (e : WaitableEntity) (i k : ℕ) (s : WaitSet port)
      → i < length (listener_storage e s)
      → IsValid s
      → IsValid (map_stored_listener e i k s)
  unfolding map_stored_listener
  map_stored_listener-IsValid e i k s lt v = elim (Bool-cases (is_mapped e i s.mapping)) [
    | inl old ↦ rw old v
    | inr new ↦ rw new (record {
      in_range =
          All-append (IsStored (record s { mapping = ms })) s.mapping (m ∷ [])
            (All-imp (IsStored s) (IsStored (record s { mapping = ms })) s.mapping
              (λ n h. omega (arith, h, ap length (storage-with_mapping n.waitable_type ms s)))
              v.in_range)
            (omega (arith, lt, ap length (storage-with_mapping e ms s)), tt);
      distinct = Distinct-append m s.mapping new v.distinct;
    })
  ]
    where
      m : RmwMapping
      m = record { waitable_type = e; storage_index = i; rmw_index = k }

      ms : List RmwMapping
      ms = s.mapping ++ m ∷ []

  module _ (e : WaitableEntity) (k : ℕ) where
    mapped-IsValid :
        (r : Expected WaitSetError ℕ × Session port)
        → IsValid r.1.self
        → ((i : ℕ) → r.0 ≡ ok i → i < length (listener_storage e r.1.self))
        → IsValid (continue r (map_index e k)).1.self
    mapped-IsValid (ok i, s) v lt = map_stored_listener-IsValid e i k s.self (lt i refl) v
    mapped-IsValid (err x, s) v lt = v

  -- To map a waitable keeps every mapping on a stored listener, and each listener mapped once.
  pub map_waitable-IsValid :
      (e : WaitableEntity) (k : ℕ) (name : List ℕ) (s : Session port)
      → IsValid s.self
      → IsValid (map_waitable e k name s).1.self
  unfolding map_waitable
  map_waitable-IsValid e k name s v =
      mapped-IsValid e k (get_storage_index e name s)
        (Grows-IsValid (get_storage_index-Grows e name s) v) (get_storage_index-lt e name s)

  pub unmap_all-IsValid : (s : Session port) → IsValid (unmap_all s).self
  unfolding unmap_all
  unmap_all-IsValid s = record { in_range = tt; distinct = tt }

  module _ (P : RmwMapping → Type 0) (e : WaitableEntity) (k : ℕ)
      (new_is : (i : ℕ) → P (record { waitable_type = e; storage_index = i; rmw_index = k })) where
    map_stored_listener-All :
        (i : ℕ) (s : WaitSet port) → All P s.mapping → All P (map_stored_listener e i k s).mapping
    unfolding map_stored_listener
    map_stored_listener-All i s h = elim (Bool-cases (is_mapped e i s.mapping)) [
      | inl old ↦ rw old h
      | inr new ↦ rw new (All-append P s.mapping (_ ∷ []) h (new_is i, tt))
    ]

    mapped-All :
        (r : Expected WaitSetError ℕ × Session port)
        → All P r.1.mapping
        → All P (continue r (map_index e k)).1.mapping
    mapped-All (ok i, s) h = map_stored_listener-All i s.self h
    mapped-All (err x, s) h = h

    pub map_waitable-All :
        (name : List ℕ) (s : Session port)
        → All P s.mapping
        → All P (map_waitable e k name s).1.mapping
    unfolding map_waitable
    map_waitable-All name s h =
        mapped-All (get_storage_index e name s)
          (subst (All P) (sym (get_storage_index-Grows e name s).same_mapping) h)

  -- A second waitable of a kind and a service that are mapped is not mapped: it shares the
  -- listener of the first, and a trigger will name only the index of the first.
  pub map_waitable_shared :
      (e : WaitableEntity) (k i : ℕ) (name : List ℕ) (s : Session port)
      → find_listener name (listener_storage e s.self) ≡ some i
      → is_mapped e i s.mapping ≡ true
      → map_waitable e k name s ≡ (ok tt, s)
  unfolding map_waitable get_storage_index or_create map_stored_listener
  map_waitable_shared e k i name s found mapped = rw found (rw mapped refl)
