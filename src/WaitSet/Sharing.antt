-- ===== src/WaitSet/Sharing.antt =====
-- Waitables of one kind and one service: once one of them is mapped, the others are not.
use rmw_iceoryx.Common.{
  Expected, List, Option-cases, [], none, some, ok, ℕ, ◌++◌, ◌∷◌, ◌≡◌, refl, arith, true, ap, inl,
  inr, sym, subst, ◌∙◌, ◌≢◌, length, ◌⊎◌,
}
use rmw_iceoryx.WaitSet.{
  WaitSetPort, WaitSet, Session, ListenerDetails, listener_storage, WaitableEntity, subscriber,
  guard_condition, find_listener, is_mapped, map_stored_listener, map_waitable, get_storage_index,
  or_create, emplace_back, WaitSetError,
}
use rmw_iceoryx.WaitSet.Storage.{name_eq_refl, answered, create_listener-Creates}
use rmw_iceoryx.WaitSet.Mapping.{map_waitable_shared}
use rmw_iceoryx.WaitSet.Waiting.Mapped.{
  map_stored_listener-storage, map_stored_listener-keeps, map_stored_listener-maps, emplaced,
  emplaced-find, emplaced-mapping, map_waitable_found,
}

find_listener-append_new :
    {L : Type 0} (name : List ℕ) (l : L) (ds : List (ListenerDetails L))
    → find_listener name ds ≡ none
    → find_listener name (ds ++ record { service_name = name; listener = l } ∷ [])
      ≡ some (length ds)
unfolding find_listener
find_listener-append_new name l [] h = rw (name_eq_refl name) refl
find_listener-append_new name l (d ∷ ds) h = elim (Option-cases (find_listener name ds)) [
  | inl f ↦ ground (arith, h, f, find_listener-append_new name l ds f)
  | inr (j, f) ↦ absurd (ground (arith, h, f))
]

module _ {port : WaitSetPort} where
  emplaced-find_new :
      (e : WaitableEntity) (name : List ℕ) (l : port.Listener) (s : WaitSet port)
      → find_listener name (listener_storage e s) ≡ none
      → find_listener name (listener_storage e (emplaced e name l s))
        ≡ some (length (listener_storage e s))
  emplaced-find_new subscriber name l s h = find_listener-append_new name l s.subscriber_listeners h
  emplaced-find_new guard_condition name l s h =
      find_listener-append_new name l s.guard_condition_listeners h

  -- What map_waitable comes to.
  abbrev pub Maps :
      WaitableEntity
      → ℕ
      → List ℕ
      → Session port
      → Expected WaitSetError (Unit {0}) × Session port
      → Type 0
  Maps f k name' s r =
      ((i : ℕ) × (find_listener name' (listener_storage f s.self) ≡ some i)
        × (r ≡ (ok tt, record s { self = map_stored_listener f i k s.self })))
      ⊎ ((r.0 ≢ ok tt) × (r.1.self ≡ s.self))
      ⊎ ((l : port.Listener) × (w : port.World) × (find_listener name' (listener_storage f s.self)
            ≡ none)
          × (r ≡ (
            ok tt,
            record {
              self =
                  map_stored_listener f (length (listener_storage f s.self)) k
                    (emplaced f name' l s.self);
              world = w;
            },
          )))

  module _ (e : WaitableEntity) (name : List ℕ) where
    -- A waitable of the kind and the service is mapped.
    abbrev pub IsServed : Session port → Type 0
    IsServed s =
        (j : ℕ) × (find_listener name (listener_storage e s.self) ≡ some j)
        × (is_mapped e j s.mapping ≡ true)

    map_stored_listener-IsServed :
        (f : WaitableEntity) (i k : ℕ) (s : Session port)
        → IsServed s
        → IsServed (record s { self = map_stored_listener f i k s.self })
    map_stored_listener-IsServed f i k s (j, found, mapped) = (
      j,
      ap (find_listener name) (map_stored_listener-storage e f i k s.self) ∙ found,
      map_stored_listener-keeps f e i j k s.self mapped,
    )

  pub map_waitable-Maps :
      (f : WaitableEntity) (k : ℕ) (name' : List ℕ) (s : Session port)
      → Maps f k name' s (map_waitable f k name' s)
  unfolding map_waitable get_storage_index or_create emplace_back
  map_waitable-Maps f k name' s =
      elim (Option-cases (find_listener name' (listener_storage f s.self))) [
        | inr (i, found) ↦ inl (i, found, map_waitable_found f k name' s i found)
        | inl absent ↦ elim (create_listener-Creates f name' s) [
          | inl (same, failed, _) ↦
              inr (inl (ground (arith, absent, failed), ground (arith, absent, failed, same)))
          | inr (l, made) ↦
              inr (inr (l, (answered f name' s).world, absent, rw (absent, made) refl))
        ]
      ]

  module _ (e : WaitableEntity) (name : List ℕ) where
    -- Whatever is mapped, and whether it fails or not, the waitable stays mapped.
    pub map_waitable-IsServed :
        (f : WaitableEntity) (k : ℕ) (name' : List ℕ) (s : Session port)
        → IsServed e name s
        → IsServed e name (map_waitable f k name' s).1
    map_waitable-IsServed f k name' s (j, found, mapped) = elim (map_waitable-Maps f k name' s) [
      | inl (i, _, same) ↦
          subst (λ r. IsServed e name r.1) (sym same)
            (map_stored_listener-IsServed e name f i k s (j, found, mapped))
      | inr (inl (_, same)) ↦ (
        j,
        ap (λ w. find_listener name (listener_storage e w)) same ∙ found,
        ap (λ w. is_mapped e j w.mapping) same ∙ mapped,
      )
      | inr (inr (l, w, _, same)) ↦
          subst (λ r. IsServed e name r.1) (sym same)
            (map_stored_listener-IsServed e name f (length (listener_storage f s.self)) k
              (record { self = emplaced f name' l s.self; world = w })
              (
                j,
                emplaced-find e f name name' l s.self j found,
                ap (is_mapped e j) (emplaced-mapping f name' l s.self) ∙ mapped,
              ))
    ]

    -- If it succeeds, the waitable of the kind and the service is mapped.
    pub map_waitable-serves :
        (k : ℕ) (s : Session port)
        → (map_waitable e k name s).0 ≡ ok tt
        → IsServed e name (map_waitable e k name s).1
    map_waitable-serves k s done = elim (map_waitable-Maps e k name s) [
      | inl (i, found, same) ↦
          subst (λ r. IsServed e name r.1) (sym same)
            (
              i,
              ap (find_listener name) (map_stored_listener-storage e e i k s.self) ∙ found,
              map_stored_listener-maps e i k s.self,
            )
      | inr (inl (failed, _)) ↦ absurd (failed done)
      | inr (inr (l, w, absent, same)) ↦
          let n : ℕ = length (listener_storage e s.self) in
          let grown : WaitSet port = emplaced e name l s.self in
          subst (λ r. IsServed e name r.1) (sym same)
            (
              n,
              ap (find_listener name) (map_stored_listener-storage e e n k grown)
                  ∙ emplaced-find_new e name l s.self absent,
              map_stored_listener-maps e n k grown,
            )
    ]

    -- A further waitable of the kind and the service changes nothing.
    pub map_waitable_served :
        (k : ℕ) (s : Session port) → IsServed e name s → map_waitable e k name s ≡ (ok tt, s)
    map_waitable_served k s (j, found, mapped) = map_waitable_shared e k j name s found mapped
