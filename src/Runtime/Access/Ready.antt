-- ===== src/Runtime/Access/Ready.antt =====
-- Which iceoryx2 instances can be accessed, and for which names they give a service builder.
use rmw_iceoryx.Names
use rmw_iceoryx.Common.{
  Bool, true, false, List, ℕ, Option, none, some, ok, ◌≡◌, ◌↔◌, refl, arith, Bool-cases, inl, inr,
  Expected, ◌>>=◌, if◌then◌else◌, sym, ◌∙◌, ◌⊎◌, subst,
}
use rmw_iceoryx.Errors.{HandleError}
use rmw_iceoryx.Creation.{create, create_in_optional}
use rmw_iceoryx.Runtime.{RuntimePort, create_iceoryx2}
use rmw_iceoryx.Runtime.Access.{
  Iceoryx2, returned, no_value, panic, ServiceType, new_iceoryx2, node_of, service_builder,
  local_service, ipc_service,
}
use rmw_iceoryx.Message.{TypeSupport}
use rmw_iceoryx.Subscriber.{SubscriberPort, Subscriber, construct}

-- No access to a node panics.
abbrev pub IsReady : Iceoryx2 → Type 0
IsReady x = (t : ServiceType) → node_of t x ≡ returned t

-- An optional that has an instance, ready if the answer is a success, and not if it is not.
abbrev pub IsReadyIfMade :
    {W : Type 0} → Expected HandleError (Unit {0}) × (W × Option Iceoryx2) → Type 0
IsReadyIfMade r = (x : Iceoryx2) × (r.1.1 ≡ some x) × ((r.0 ≡ ok tt) ↔ IsReady x)

both-IsReady : (x : Iceoryx2) → x ≡ record { m_local = true; m_ipc = true } → IsReady x
unfolding node_of
both-IsReady x both local_service = rw both refl
both-IsReady x both ipc_service = rw both refl

no_ipc_panics : (x : Iceoryx2) → x.m_ipc ≡ false → node_of ipc_service x ≡ panic
unfolding node_of
no_ipc_panics x absent = rw absent refl

not-IsReady : (x : Iceoryx2) → x.m_ipc ≡ false → ¬ IsReady x
not-IsReady x absent ready =
    let clash : panic ≡ returned ipc_service = sym (no_ipc_panics x absent) ∙ ready ipc_service in
    cc

module _ (port : RuntimePort) where
  open port use {World}

  -- To create an instance as an object makes the calls of `create_iceoryx2` and fails with its
  -- errors.
  pub create-create_iceoryx2 :
      (instance_name : List ℕ) (w : World)
      → (create (new_iceoryx2 port instance_name) >>= λ x v. (ok tt, v)) w
        ≡ create_iceoryx2 port instance_name w
  unfolding create new_iceoryx2 create_iceoryx2
  create-create_iceoryx2 instance_name w = ground arith

  -- Both nodes and no error, or an error and no node for communication between processes.
  abbrev IsBuilt : Iceoryx2 × Option HandleError → Type 0
  IsBuilt r =
      ((r.1 ≡ none) × (r.0 ≡ record { m_local = true; m_ipc = true }))
      ⊎ ((e : HandleError) × (r.1 ≡ some e) × (r.0.m_ipc ≡ false))

  new_iceoryx2-IsBuilt :
      (instance_name : List ℕ) (w : World) → IsBuilt (new_iceoryx2 port instance_name w).0
  unfolding new_iceoryx2
  new_iceoryx2-IsBuilt instance_name w =
      elim (Bool-cases (port.create_instance_name instance_name)) [
        | inr refused ↦ inr (HandleError.invalid_instance_name, rw refused refl, rw refused refl)
        | inl valid ↦ elim (Bool-cases (port.create_local instance_name w).0) [
          | inr failed ↦ inr (
            HandleError.iceoryx_handle_creation_failure,
            ground (arith, valid, failed),
            ground (arith, valid, failed),
          )
          | inl made ↦
              elim (Bool-cases
                (port.create_ipc instance_name (port.create_local instance_name w).1).0) [
                  | inr failed ↦ inr (
                    HandleError.iceoryx_handle_creation_failure,
                    ground (arith, valid, made, failed),
                    ground (arith, valid, made, failed),
                  )
                  | inl both ↦
                      inl (ground (arith, valid, made, both), ground (arith, valid, made, both))
                ]
        ]
      ]

  -- However the creation of an iceoryx2 instance in an optional ends, and whatever the optional had
  -- before, it has an instance afterwards, and the creation returned no error if and only if no
  -- access to a node of that instance panics.
  pub create_in_optional-IsReadyIfMade :
      (instance_name : List ℕ) (w : World) (storage : Option Iceoryx2)
      → IsReadyIfMade (create_in_optional (new_iceoryx2 port instance_name) (w, storage))
  unfolding create_in_optional new_iceoryx2 node_of
  create_in_optional-IsReadyIfMade instance_name w storage =
      elim (new_iceoryx2-IsBuilt instance_name w) [
        | inl (no_error, both) ↦ (_, refl, (λ e. both-IsReady _ both, λ r. rw no_error refl))
        | inr (e, error, absent) ↦ (
          _,
          refl,
          (λ e'. absurd (ground (arith, error, e')), λ r. absurd (not-IsReady _ absent r)),
        )
      ]

-- A service builder.
pub service_builder-returned :
    (create_service_name : List ℕ → Bool) (t : ServiceType) (name : List ℕ) (x : Iceoryx2)
    → IsReady x
    → service_builder create_service_name t name x ≡ (
        if create_service_name name
        then returned (record { service_type = t; service_name = name })
        else no_value)
unfolding service_builder
service_builder-returned create_service_name t name x ready = rw (ready t) (ground arith)

module _ {q : SubscriberPort} where
  constructed-valid :
      (topic : List ℕ) (ts : TypeSupport q.Message) (w : q.World) (s : Subscriber q)
      → (construct q topic ts w).0 ≡ ok s
      → (q.create_service_name (Names.topic topic) ≡ true) × (s.service_name ≡ Names.topic topic)
  unfolding construct
  constructed-valid topic ts w s made =
      elim (Bool-cases (q.create_service_name (Names.topic topic))) [
        | inl valid ↦ (valid, ground (arith, made))
        | inr invalid ↦ absurd (ground (arith, made, invalid))
      ]

  -- If the iceoryx2 instance was created and the subscriber was constructed, service_builder for
  -- the name of the service of the subscriber returns a builder for it, for either type of service:
  -- the access to the node does not panic, and the name that is read is there.
  pub service_builder-construct :
      (port : RuntimePort) (instance_name : List ℕ) (w : port.World) (storage : Option Iceoryx2)
      (t : ServiceType) (topic : List ℕ) (ts : TypeSupport q.Message) (v : q.World) (x : Iceoryx2)
      (s : Subscriber q)
      → (create_in_optional (new_iceoryx2 port instance_name) (w, storage)).0 ≡ ok tt
      → (create_in_optional (new_iceoryx2 port instance_name) (w, storage)).1.1 ≡ some x
      → (construct q topic ts v).0 ≡ ok s
      → service_builder q.create_service_name t s.service_name x
        ≡ returned (record { service_type = t; service_name = Names.topic topic })
  service_builder-construct port instance_name w storage t topic ts v x s made is_x constructed =
      let (y, is_y, ready) = create_in_optional-IsReadyIfMade port instance_name w storage in
      let same : y ≡ x = ground (arith, is_y, is_x) in
      let (valid, named) = constructed-valid topic ts v s constructed in
      rw named (
        service_builder-returned q.create_service_name t (Names.topic topic) x
          (subst IsReady same (ready.0 made))
        ∙ rw valid refl)
