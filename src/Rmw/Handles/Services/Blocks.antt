-- ===== src/Rmw/Handles/Services/Blocks.antt =====
-- The blocks of services and clients, which are a handle and a text.
use rmw_iceoryx.Memory.Builds.{
  Builds, Leaves-ok, then-Builds, checked-Builds, guard-Builds, handle-Builds, allocate-Builds,
}
use rmw_iceoryx.Memory.Balance.{
  Allocator, is_at, Owns, Owns-nothing, nothing, Owns-same, freed, freed_option,
}
use rmw_iceoryx.Memory.{MemoryPort, Block, allocate, deallocate}
use rmw_iceoryx.Rmw.Ensure.{is_own, TypesupportIdentifier, is_valid_typesupport}
use rmw_iceoryx.Rmw.Handles.{Pointer, NodeHandle, QosProfile, has_unknown_policy}
use rmw_iceoryx.Rmw.Handles.Objects.{free_handle-Undoes}
use rmw_iceoryx.Rmw.Handles.Services.{
  ServiceHandle, rmw_create_service, rmw_destroy_service, rmw_create_client, rmw_destroy_client,
}
use rmw_iceoryx.Common.{Bool, List, Option, arith, eq_refl, not, ok, some, true, ℕ, ◌==◌, ◌||◌, ◌≡◌}

abbrev service_blocks : Pointer ServiceHandle → ℕ → Bool
service_blocks (address, h) q = is_at h.service_name q || address == q

module _ {port : MemoryPort} (a : Allocator port) where
  open port use {World}

  freed_service :
      {w0 : World} (h : Pointer ServiceHandle) (w : World)
      → Owns a w0 (service_blocks h) w
      → Owns a w0 nothing (deallocate port (some h.0) (deallocate port h.1.service_name w))
  freed_service (address, h) w o =
      Owns-same a (λ q. ground arith)
        (freed a address _ (o.new_to address (ground (arith, eq_refl address)))
          (freed_option a h.service_name _ (λ q e. o.new_to q (ground (arith, e))) o))

  module _ {Support : Type 0} (valid_topic : List ℕ → Bool)
      (get_typesupport_handle : TypesupportIdentifier → Support → Bool) (node : Option NodeHandle)
      (ts : Option Support) (name : Option (List ℕ)) (qos : Option QosProfile) where
    create_service-Builds :
        {w0 : World}
        → Builds a w0 nothing
            (rmw_create_service port Support valid_topic get_typesupport_handle node ts name qos)
            service_blocks
    unfolding rmw_create_service
    create_service-Builds = then-Builds a _ service_blocks _ _ (checked-Builds a node) λ n.
        then-Builds a _ service_blocks _ _ (guard-Builds a (is_own n.implementation_identifier))
          λ _. then-Builds a _ service_blocks _ _ (checked-Builds a ts) λ support.
            then-Builds a _ service_blocks _ _
              (guard-Builds a (is_valid_typesupport get_typesupport_handle support))
              λ _. then-Builds a _ service_blocks _ _ (checked-Builds a name) λ text.
                then-Builds a _ service_blocks _ _ (guard-Builds a (valid_topic text)) λ _.
                  then-Builds a _ service_blocks _ _ (checked-Builds a qos) λ profile.
                    then-Builds a _ service_blocks _ _
                      (guard-Builds a (not (has_unknown_policy profile)))
                      λ _.
                        then-Builds a _ service_blocks _ _ (handle-Builds a Block.handle) λ handle.
                          then-Builds a _ service_blocks _ _
                            (allocate-Builds a (Block.text text) (deallocate port (some handle))
                              (free_handle-Undoes a handle))
                            λ name_ptr. λ w o. o

    service-IsOwn :
        (w : World) (h : Pointer ServiceHandle)
        → (rmw_create_service port Support valid_topic get_typesupport_handle node ts name qos w).0
          ≡ ok h
        → is_own h.1.implementation_identifier ≡ true
    unfolding rmw_create_service allocate
    service-IsOwn w h e = ground (arith, e)

    -- A service that is created, and destroyed by a node of this implementation, leaves no block behind
    -- and frees no other.
    pub rmw_destroy-rmw_create_service :
        (w : World) (owner : NodeHandle) (h : Pointer ServiceHandle) (q : ℕ)
        → is_own owner.implementation_identifier ≡ true
        → (rmw_create_service port Support valid_topic get_typesupport_handle node ts name qos w).0
          ≡ ok h
        → a.live
            (rmw_destroy_service port Support
              (some owner)
              (some h)
              (rmw_create_service port Support valid_topic get_typesupport_handle node ts name qos
                w).1).1
            q
          ≡ a.live w q
    unfolding rmw_destroy_service
    rmw_destroy-rmw_create_service w owner h q own e = rw own (
        rw (service-IsOwn w h e) (
          (freed_service h _
              (Leaves-ok a service_blocks w _ h (create_service-Builds w (Owns-nothing a)) e)).held
            q))

    create_client-Builds :
        {w0 : World}
        → Builds a w0 nothing
            (rmw_create_client port Support valid_topic get_typesupport_handle node ts name qos)
            service_blocks
    unfolding rmw_create_client
    create_client-Builds = then-Builds a _ service_blocks _ _ (checked-Builds a node) λ n.
        then-Builds a _ service_blocks _ _ (guard-Builds a (is_own n.implementation_identifier))
          λ _. then-Builds a _ service_blocks _ _ (checked-Builds a ts) λ support.
            then-Builds a _ service_blocks _ _
              (guard-Builds a (is_valid_typesupport get_typesupport_handle support))
              λ _. then-Builds a _ service_blocks _ _ (checked-Builds a name) λ text.
                then-Builds a _ service_blocks _ _ (guard-Builds a (valid_topic text)) λ _.
                  then-Builds a _ service_blocks _ _ (checked-Builds a qos) λ profile.
                    then-Builds a _ service_blocks _ _
                      (guard-Builds a (not (has_unknown_policy profile)))
                      λ _.
                        then-Builds a _ service_blocks _ _ (handle-Builds a Block.handle) λ handle.
                          then-Builds a _ service_blocks _ _
                            (allocate-Builds a (Block.text text) (deallocate port (some handle))
                              (free_handle-Undoes a handle))
                            λ name_ptr. λ w o. o

    client-IsOwn :
        (w : World) (h : Pointer ServiceHandle)
        → (rmw_create_client port Support valid_topic get_typesupport_handle node ts name qos w).0
          ≡ ok h
        → is_own h.1.implementation_identifier ≡ true
    unfolding rmw_create_client allocate
    client-IsOwn w h e = ground (arith, e)

    -- A client that is created, and destroyed by a node of this implementation, leaves no block behind
    -- and frees no other.
    pub rmw_destroy-rmw_create_client :
        (w : World) (owner : NodeHandle) (h : Pointer ServiceHandle) (q : ℕ)
        → is_own owner.implementation_identifier ≡ true
        → (rmw_create_client port Support valid_topic get_typesupport_handle node ts name qos w).0
          ≡ ok h
        → a.live
            (rmw_destroy_client port Support
              (some owner)
              (some h)
              (rmw_create_client port Support valid_topic get_typesupport_handle node ts name qos
                w).1).1
            q
          ≡ a.live w q
    unfolding rmw_destroy_client
    rmw_destroy-rmw_create_client w owner h q own e = rw own (
        rw (client-IsOwn w h e) (
          (freed_service h _
              (Leaves-ok a service_blocks w _ h (create_client-Builds w (Owns-nothing a)) e)).held
            q))
