-- ===== src/Rmw/Handles/Services.antt =====
-- The handles of services and clients: the functions of src/rmw/service.cpp and client.cpp that
-- create and destroy them. The others are in Rmw/Requests.
pub mod Blocks
use rmw_iceoryx.Memory.{
  MemoryPort, Block, Null, nullptr, allocate, allocate_copy, deallocate, or_undo,
}
use rmw_iceoryx.Errors.{RetCode}
use rmw_iceoryx.Rmw.Ensure.{
  Identifier, is_own, rmw_get_implementation_identifier, TypesupportIdentifier,
  is_valid_typesupport,
}
use rmw_iceoryx.Rmw.Handles.{Pointer, NodeHandle, QosProfile, has_unknown_policy}
use rmw_iceoryx.Common.{
  Bool, Exec, List, Option, not, ok, or_raise, some, ℕ, ◌>>=◌, ◌>>◌, guard, pure,
}

-- `rmw_service_t` and `rmw_client_t`
pub record ServiceHandle : Type 0 where
  pub implementation_identifier : Identifier
  pub service_name : Option ℕ

module _ (port : MemoryPort) (ServiceSupport : Type 0) where
  open port use {World}

  unfoldable pub rmw_create_service :
      (List ℕ → Bool)
      → (TypesupportIdentifier → ServiceSupport → Bool)
      → Option NodeHandle
      → Option ServiceSupport
      → Option (List ℕ)
      → Option QosProfile
      → Exec World Null (Pointer ServiceHandle)
  rmw_create_service valid_topic get_typesupport_handle rmw_node type_support service_name qos = do
    node ← or_raise rmw_node nullptr
    guard (is_own node.implementation_identifier) nullptr
    ts ← or_raise type_support nullptr
    guard (is_valid_typesupport get_typesupport_handle ts) nullptr
    name ← or_raise service_name nullptr
    guard (valid_topic name) nullptr
    profile ← or_raise qos nullptr
    guard (not (has_unknown_policy profile)) nullptr
    handle ← allocate port Block.handle
    name_ptr ← or_undo (allocate_copy port name) (deallocate port (some handle))
    pure (
      handle,
      record {
        implementation_identifier = rmw_get_implementation_identifier;
        service_name = some name_ptr;
      },
    )

  unfoldable pub rmw_destroy_service :
      Option NodeHandle → Option (Pointer ServiceHandle) → Exec World RetCode (Unit {0})
  rmw_destroy_service rmw_node rmw_service = do
    node ← or_raise rmw_node RetCode.invalid_argument
    guard (is_own node.implementation_identifier) RetCode.incorrect_rmw_implementation
    (address, h) ← or_raise rmw_service RetCode.invalid_argument
    guard (is_own h.implementation_identifier) RetCode.incorrect_rmw_implementation
    λ w. (ok tt, deallocate port (some address) (deallocate port h.service_name w))

  unfoldable pub rmw_create_client :
      (List ℕ → Bool)
      → (TypesupportIdentifier → ServiceSupport → Bool)
      → Option NodeHandle
      → Option ServiceSupport
      → Option (List ℕ)
      → Option QosProfile
      → Exec World Null (Pointer ServiceHandle)
  rmw_create_client valid_topic get_typesupport_handle rmw_node type_support service_name qos = do
    node ← or_raise rmw_node nullptr
    guard (is_own node.implementation_identifier) nullptr
    ts ← or_raise type_support nullptr
    guard (is_valid_typesupport get_typesupport_handle ts) nullptr
    name ← or_raise service_name nullptr
    guard (valid_topic name) nullptr
    profile ← or_raise qos nullptr
    guard (not (has_unknown_policy profile)) nullptr
    handle ← allocate port Block.handle
    name_ptr ← or_undo (allocate_copy port name) (deallocate port (some handle))
    pure (
      handle,
      record {
        implementation_identifier = rmw_get_implementation_identifier;
        service_name = some name_ptr;
      },
    )

  unfoldable pub rmw_destroy_client :
      Option NodeHandle → Option (Pointer ServiceHandle) → Exec World RetCode (Unit {0})
  rmw_destroy_client rmw_node rmw_client = do
    node ← or_raise rmw_node RetCode.invalid_argument
    guard (is_own node.implementation_identifier) RetCode.incorrect_rmw_implementation
    (address, h) ← or_raise rmw_client RetCode.invalid_argument
    guard (is_own h.implementation_identifier) RetCode.incorrect_rmw_implementation
    λ w. (ok tt, deallocate port (some address) (deallocate port h.service_name w))
