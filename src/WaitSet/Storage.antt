-- ===== src/WaitSet/Storage.antt =====
-- The listeners that a wait set stores.
use rmw_iceoryx.Common.{
  Bool-cases, Expected, List, Option, Option-cases, [], arith, eq_refl, err, get_elem?,
  get_elem?-append_some, has_error, inr, length, length-append, none, ok, refl, some, true, ℕ, ◌++◌,
  ◌<◌, ◌∷◌, ◌≡◌, ◌≢◌, ◌≤◌, ◌⊎◌, inl,
}
use rmw_iceoryx.WaitSet.{
  WaitableEntity, subscriber, guard_condition, WaitSetPort, ListenerDetails, WaitSet, Session,
  name_eq, find_listener, listener_storage, with_storage, get_storage_index, or_create,
  create_listener, emplace_back, WaitSetError,
}

pub name_eq_refl : (name : List ℕ) → name_eq name name ≡ true
unfolding name_eq
name_eq_refl [] = refl
name_eq_refl (a ∷ as') = ground (arith, eq_refl a, name_eq_refl as')

pub find_listener-lt :
    {L : Type 0} (name : List ℕ) (ds : List (ListenerDetails L)) (i : ℕ)
    → find_listener name ds ≡ some i
    → i < length ds
unfolding find_listener
find_listener-lt name [] i e = absurd (cc)
find_listener-lt name (d ∷ ds) i e = elim (Option-cases (find_listener name ds)) [
  | inl f ↦ ground (arith, e, f)
  | inr (j, f) ↦ ground (arith, e, f, find_listener-lt name ds j f)
]

module _ {port : WaitSetPort} where
  -- The mapping of `s`, and a list at least as long as that of `s` for each entity, with the
  -- listeners of `s` at their indices.
  pub record Grows (s s' : WaitSet port) : Type 0 where
    pub same_mapping : s'.mapping ≡ s.mapping
    pub longer :
        (f : WaitableEntity) → length (listener_storage f s) ≤ length (listener_storage f s')
    pub keeps :
        (f : WaitableEntity) (i : ℕ) (d : ListenerDetails port.Listener)
        → get_elem? (listener_storage f s) i ≡ some d
        → get_elem? (listener_storage f s') i ≡ some d

  Grows-same : {s s' : WaitSet port} → s' ≡ s → Grows s s'
  Grows-same {s} {s'} e = record {
    same_mapping = ground arith;
    longer = λ f. ground arith;
    keeps = λ f i d h. ground arith;
  }

  emplace_back-Grows :
      (e : WaitableEntity) (name : List ℕ) (l : port.Listener) (s : Session port)
      → Grows s.self (emplace_back e name l s).1.self
  unfolding emplace_back
  emplace_back-Grows e name l s = record {
    same_mapping = ground arith;
    longer = longer e;
    keeps = keeps e;
  }
    where
      d : ListenerDetails port.Listener
      d = record { service_name = name; listener = l }

      longer :
          (e f : WaitableEntity)
          → length (listener_storage f s.self)
            ≤ length
                (listener_storage f (with_storage e (listener_storage e s.self ++ d ∷ []) s.self))
      longer subscriber subscriber = omega (arith, length-append s.subscriber_listeners (d ∷ []))
      longer guard_condition guard_condition =
          omega (arith, length-append s.guard_condition_listeners (d ∷ []))
      longer subscriber guard_condition = omega arith
      longer guard_condition subscriber = omega arith

      keeps :
          (e f : WaitableEntity) (i : ℕ) (x : ListenerDetails port.Listener)
          → get_elem? (listener_storage f s.self) i ≡ some x
          → get_elem?
              (listener_storage f (with_storage e (listener_storage e s.self ++ d ∷ []) s.self))
              i
            ≡ some x
      keeps subscriber subscriber i x h =
          get_elem?-append_some s.subscriber_listeners (d ∷ []) i x h
      keeps guard_condition guard_condition i x h =
          get_elem?-append_some s.guard_condition_listeners (d ∷ []) i x h
      keeps subscriber guard_condition i x h = h
      keeps guard_condition subscriber i x h = h

  emplace_back-lt :
      (e : WaitableEntity) (name : List ℕ) (l : port.Listener) (s : Session port) (i : ℕ)
      → (emplace_back e name l s).0 ≡ ok i
      → i < length (listener_storage e (emplace_back e name l s).1.self)
  unfolding emplace_back
  emplace_back-lt subscriber name l s i h = ground (
    arith,
    length-append s.subscriber_listeners (record { service_name = name; listener = l } ∷ []),
  )
  emplace_back-lt guard_condition name l s i h = ground (
    arith,
    length-append s.guard_condition_listeners (record { service_name = name; listener = l } ∷ []),
  )

  module _ (e : WaitableEntity) (name : List ℕ) (s : Session port) where
    abbrev pub opened : Session port
    opened = record s { world = (port.open_or_create_event e name s.world).1 }

    abbrev pub answered : Session port
    answered = record s { world = (port.create_listener e name opened.world).1 }

    -- Nothing is stored, or the new listener of the service.
    abbrev pub Creates : Expected WaitSetError ℕ × Session port → Type 0
    Creates r =
        ((r.1.self ≡ s.self)
          × (has_error r.0 ≡ true)
          × (r.0 ≢ err WaitSetError.invalid_storage_index))
        ⊎ ((l : port.Listener) × (r ≡ emplace_back e name l answered))

    pub create_listener-Creates : Creates (create_listener e name s)
    unfolding create_listener
    create_listener-Creates = elim (Bool-cases (port.open_or_create_event e name s.world).0) [
      | inr no_service ↦
          inl (ground (arith, no_service), ground (arith, no_service), ground (arith, no_service))
      | inl service ↦ elim (Option-cases (port.create_listener e name opened.world).0) [
        | inl refused ↦ inl (
          ground (arith, service, refused),
          ground (arith, service, refused),
          ground (arith, service, refused),
        )
        | inr (l, made) ↦ inr (l, ground (arith, service, made))
      ]
    ]

    create_listener-Grows : Grows s.self (create_listener e name s).1.self
    create_listener-Grows = elim create_listener-Creates [
      | inl (same, _, _) ↦ Grows-same same
      | inr (l, made) ↦ rw made (emplace_back-Grows e name l answered)
    ]

    create_listener-lt :
        (i : ℕ)
        → (create_listener e name s).0 ≡ ok i
        → i < length (listener_storage e (create_listener e name s).1.self)
    create_listener-lt i h = elim create_listener-Creates [
      | inl (_, failed, _) ↦ absurd (ground (arith, failed, h))
      | inr (l, made) ↦ rw made (emplace_back-lt e name l answered i (rw made at h))
    ]

    found-Grows : (o : Option ℕ) → Grows s.self (or_create e name o s).1.self
    unfolding or_create
    found-Grows none = create_listener-Grows
    found-Grows (some i) = Grows-same refl

    found-lt :
        (o : Option ℕ) (i : ℕ)
        → ((j : ℕ) → o ≡ some j → j < length (listener_storage e s.self))
        → (or_create e name o s).0 ≡ ok i
        → i < length (listener_storage e (or_create e name o s).1.self)
    unfolding or_create
    found-lt none i found h = create_listener-lt i h
    found-lt (some j) i found h = ground (arith, h, found j refl)

    -- A storage index that is handed out stays good: each stored listener keeps its index.
    pub get_storage_index-Grows : Grows s.self (get_storage_index e name s).1.self
    unfolding get_storage_index
    get_storage_index-Grows = found-Grows (find_listener name (listener_storage e s.self))

    pub get_storage_index-lt :
        (i : ℕ)
        → (get_storage_index e name s).0 ≡ ok i
        → i < length (listener_storage e (get_storage_index e name s).1.self)
    unfolding get_storage_index
    get_storage_index-lt i h =
        found-lt (find_listener name (listener_storage e s.self)) i
          (λ j f. find_listener-lt name (listener_storage e s.self) j f) h
