-- ===== src/WaitSet/Waiting/Mapped.antt =====
-- `map` over a middleware whose services open and whose listeners are created: it succeeds, keeps
-- what is stored and mapped, and maps the listener of its service.
use rmw_iceoryx.Common.{
  List, Option-cases, [], none, some, ok, ℕ, ◌++◌, ◌∷◌, ◌≡◌, refl, arith, true, ap, inl, inr, sym,
  subst, ◌∙◌, ◌==◌, get_elem?, eq_refl, get_elem?-append_some, length, Bool-cases, ◌&&◌, Expected,
}
use rmw_iceoryx.WaitSet.{
  WaitSetPort, RmwMapping, WaitSet, Session, ListenerDetails, listener_storage, WaitableEntity,
  with_storage, subscriber, guard_condition, find_listener, is_mapped, map_stored_listener,
  map_waitable, get_storage_index, or_create, create_listener, emplace_back, same_entity,
  WaitSetError,
}
use rmw_iceoryx.WaitSet.Mapping.{
  same_entity_refl, is_mapped-append, storage-with_mapping, same_entity-eq,
}
use rmw_iceoryx.WaitSet.Waiting.Triggers.{Among}
use rmw_iceoryx.WaitSet.Waiting.Events.{Events}

pub find_listener-append_some :
    {L : Type 0} (name : List ℕ) (ds es : List (ListenerDetails L)) (i : ℕ)
    → find_listener name ds ≡ some i
    → find_listener name (ds ++ es) ≡ some i
unfolding find_listener
find_listener-append_some name [] es i h = absurd (cc)
find_listener-append_some name (d ∷ ds) es i h = elim (Option-cases (find_listener name ds)) [
  | inl f ↦ ground (arith, h, f)
  | inr (j, f) ↦ ground (arith, h, f, find_listener-append_some name ds es j f)
]

pub Among-is_mapped :
    (e : WaitableEntity) (i : ℕ) (ms : List RmwMapping)
    → is_mapped e i ms ≡ true
    → (m : RmwMapping) × Among m ms × (m.waitable_type ≡ e) × (m.storage_index ≡ i)
unfolding is_mapped
Among-is_mapped e i [] h = absurd (cc)
Among-is_mapped e i (m ∷ ms) h =
    elim (Bool-cases (same_entity m.waitable_type e && m.storage_index == i)) [
      | inl hit ↦
          (m, inl refl, same_entity-eq m.waitable_type e (ground (arith, hit)), ground (arith, hit))
      | inr miss ↦
          let (n, among, same, at) = Among-is_mapped e i ms (ground (arith, h, miss)) in
          (n, inr among, same, at)
    ]

module _ {port : WaitSetPort} where
  pub map_stored_listener-storage :
      (f e : WaitableEntity) (i k : ℕ) (s : WaitSet port)
      → listener_storage f (map_stored_listener e i k s) ≡ listener_storage f s
  unfolding map_stored_listener
  map_stored_listener-storage f e i k s = elim (Bool-cases (is_mapped e i s.mapping)) [
    | inl old ↦ rw old refl
    | inr new ↦ rw new (storage-with_mapping f _ s)
  ]

  pub map_stored_listener-keeps :
      (e f : WaitableEntity) (i j k : ℕ) (s : WaitSet port)
      → is_mapped f j s.mapping ≡ true
      → is_mapped f j (map_stored_listener e i k s).mapping ≡ true
  unfolding map_stored_listener
  map_stored_listener-keeps e f i j k s h = elim (Bool-cases (is_mapped e i s.mapping)) [
    | inl old ↦ rw old h
    | inr new ↦ rw new (is_mapped-append f j s.mapping _ ∙ rw h refl)
  ]

  pub map_stored_listener-maps :
      (e : WaitableEntity) (i k : ℕ) (s : WaitSet port)
      → is_mapped e i (map_stored_listener e i k s).mapping ≡ true
  unfolding map_stored_listener is_mapped
  map_stored_listener-maps e i k s = elim (Bool-cases (is_mapped e i s.mapping)) [
    | inl old ↦ rw old old
    | inr new ↦
        rw new (is_mapped-append e i s.mapping _ ∙ rw (new, same_entity_refl e, eq_refl i) refl)
  ]

  module _ (events : Events port) (name : List ℕ) (e : WaitableEntity) (j : ℕ)
      (d : ListenerDetails port.Listener) where
    -- The listener of the service is stored at the index, and an event is pending on it.
    pub record Listens (s : Session port) : Type 0 where
      pub is_found : find_listener name (listener_storage e s.self) ≡ some j
      pub stored : get_elem? (listener_storage e s.self) j ≡ some d
      pub pending : events.IsPending d.listener s.world

    map_stored_listener-Listens :
        (f : WaitableEntity) (i k : ℕ) (s : Session port)
        → Listens s
        → Listens (record s { self = map_stored_listener f i k s.self })
    map_stored_listener-Listens f i k s h = record {
      is_found = ap (find_listener name) (map_stored_listener-storage e f i k s.self) ∙ h.is_found;
      stored = ap (λ ds. get_elem? ds j) (map_stored_listener-storage e f i k s.self) ∙ h.stored;
      pending = h.pending;
    }

  -- A listener that is stored beside the others.
  abbrev pub emplaced : WaitableEntity → List ℕ → port.Listener → WaitSet port → WaitSet port
  emplaced f name' l s =
      with_storage f (listener_storage f s ++ record { service_name = name'; listener = l } ∷ []) s

  emplaced-get :
      (e f : WaitableEntity) (name' : List ℕ) (l : port.Listener) (s : WaitSet port) (j : ℕ)
      (d : ListenerDetails port.Listener)
      → get_elem? (listener_storage e s) j ≡ some d
      → get_elem? (listener_storage e (emplaced f name' l s)) j ≡ some d
  emplaced-get subscriber subscriber name' l s j d h =
      get_elem?-append_some s.subscriber_listeners _ j d h
  emplaced-get guard_condition guard_condition name' l s j d h =
      get_elem?-append_some s.guard_condition_listeners _ j d h
  emplaced-get subscriber guard_condition name' l s j d h = h
  emplaced-get guard_condition subscriber name' l s j d h = h

  pub emplaced-find :
      (e f : WaitableEntity) (name name' : List ℕ) (l : port.Listener) (s : WaitSet port) (j : ℕ)
      → find_listener name (listener_storage e s) ≡ some j
      → find_listener name (listener_storage e (emplaced f name' l s)) ≡ some j
  emplaced-find subscriber subscriber name name' l s j h =
      find_listener-append_some name s.subscriber_listeners _ j h
  emplaced-find guard_condition guard_condition name name' l s j h =
      find_listener-append_some name s.guard_condition_listeners _ j h
  emplaced-find subscriber guard_condition name name' l s j h = h
  emplaced-find guard_condition subscriber name name' l s j h = h

  pub emplaced-mapping :
      (f : WaitableEntity) (name' : List ℕ) (l : port.Listener) (s : WaitSet port)
      → (emplaced f name' l s).mapping ≡ s.mapping
  emplaced-mapping subscriber name' l s = refl
  emplaced-mapping guard_condition name' l s = refl

  module _ (f : WaitableEntity) (k : ℕ) (name' : List ℕ) (s : Session port) where
    pub map_waitable_found :
        (i : ℕ)
        → find_listener name' (listener_storage f s.self) ≡ some i
        → map_waitable f k name' s ≡ (ok tt, record s { self = map_stored_listener f i k s.self })
    unfolding map_waitable get_storage_index or_create
    map_waitable_found i found = rw found refl

    abbrev opened : port.World
    opened = (port.open_or_create_event f name' s.world).1

    map_waitable_created :
        (l : port.Listener)
        → find_listener name' (listener_storage f s.self) ≡ none
        → (port.open_or_create_event f name' s.world).0 ≡ true
        → (port.create_listener f name' opened).0 ≡ some l
        → map_waitable f k name' s ≡ (
          ok tt,
          record {
            self =
                map_stored_listener f
                  (length (listener_storage f s.self))
                  k
                  (emplaced f name' l s.self);
            world = (port.create_listener f name' opened).1;
          },
        )
    unfolding map_waitable get_storage_index or_create create_listener emplace_back
    map_waitable_created l absent opens creates = ground (arith, absent, opens, creates)

  module _ (events : Events port) (name : List ℕ) (e : WaitableEntity) (j : ℕ)
      (d : ListenerDetails port.Listener) where
    -- To map any waitable succeeds, and keeps the listener, its event and its mapping.
    pub record Keeps (s : Session port) (r : Expected WaitSetError (Unit {0}) × Session port)
        : Type 0 where
      pub succeeds : r.0 ≡ ok tt
      pub listens : Listens events name e j d r.1
      pub keeps :
          (f : WaitableEntity) (i : ℕ)
          → is_mapped f i s.mapping ≡ true
          → is_mapped f i r.1.mapping ≡ true

    pub map_waitable-Keeps :
        (f : WaitableEntity) (k : ℕ) (name' : List ℕ) (s : Session port)
        → Listens events name e j d s
        → Keeps s (map_waitable f k name' s)
    map_waitable-Keeps f k name' s h =
        elim (Option-cases (find_listener name' (listener_storage f s.self))) [
          | inr (i, found) ↦
              subst (Keeps s) (sym (map_waitable_found f k name' s i found)) (record {
                succeeds = refl;
                listens = map_stored_listener-Listens events name e j d f i k s h;
                keeps = λ g n m. map_stored_listener-keeps f g i n k s.self m;
              })
          | inl absent ↦
              let (opens, over_open) = events.opens f name' s.world in
              let (creates, over_create) = events.creates f name' (opened f k name' s) in
              elim (Option-cases (port.create_listener f name' (opened f k name' s)).0) [
                | inl refused ↦ absurd (creates refused)
                | inr (l, made) ↦
                    subst (Keeps s) (sym (map_waitable_created f k name' s l absent opens made))
                      (record {
                        succeeds = refl;
                        listens =
                            map_stored_listener-Listens events name e j d f
                              (length (listener_storage f s.self)) k
                              (record {
                                self = emplaced f name' l s.self;
                                world = (port.create_listener f name' (opened f k name' s)).1;
                              })
                              (record {
                                is_found = emplaced-find e f name name' l s.self j h.is_found;
                                stored = emplaced-get e f name' l s.self j d h.stored;
                                pending = over_create d.listener (over_open d.listener h.pending);
                              });
                        keeps = λ g n m.
                            map_stored_listener-keeps f g (length (listener_storage f s.self)) n k
                              (emplaced f name' l s.self)
                              (rw (emplaced-mapping f name' l s.self) m);
                      })
              ]
        ]

    -- To map a waitable of the listener's service maps the listener.
    pub map_waitable-maps :
        (k : ℕ) (s : Session port)
        → Listens events name e j d s
        → is_mapped e j (map_waitable e k name s).1.mapping ≡ true
    map_waitable-maps k s h =
        rw (map_waitable_found e k name s j h.is_found) (map_stored_listener-maps e j k s.self)
