-- ===== src/Rmw/Handles.antt =====
-- The functions that create and destroy handles: src/rmw/guard_condition.cpp, waitset.cpp and
-- node.cpp, with those of publisher.cpp and subscription.cpp in `Endpoints`. A handle is given as
-- its address and its fields.
pub mod Endpoints
pub mod Services
pub mod Objects
pub mod Nodes
pub mod Leaks
pub mod GraphGuard
use rmw_iceoryx.Errors.{RetCode}
use rmw_iceoryx.Memory.{
  MemoryPort, deallocate, Null, destruct, nullptr, allocate, Block, or_undo, allocate_copy,
  create_in_place, Instance,
}
use rmw_iceoryx.Rmw.Ensure.{Identifier, is_own, rmw_get_implementation_identifier}
use rmw_iceoryx.Common.{
  Bool, Exec, List, none, ok, or_raise, some, ℕ, ◌>>=◌, ◌>>◌, Option, guard, pure, false, true,
  ◌||◌,
}

abbrev pub Pointer : Type 0 → Type 0
Pointer H = ℕ × H

-- `rmw_context_t`, as these functions read it
pub record ContextHandle : Type 0 where
  pub implementation_identifier : Identifier
  pub impl : Option ℕ

-- `rmw_guard_condition_t` and `rmw_wait_set_t`
pub record ObjectHandle : Type 0 where
  pub implementation_identifier : Identifier
  pub impl : Option ℕ

pub record NodeHandle : Type 0 where
  pub implementation_identifier : Identifier
  pub context : Option ContextHandle
  pub name : Option ℕ
  pub namespace : Option ℕ
  pub impl : Option ℕ

-- A policy of a QoS profile: the UNKNOWN of its enumeration in rmw, or another value.
pub data QosPolicy : Type 0 where
  unknown : QosPolicy
  known : ℕ → QosPolicy

abbrev is_unknown : QosPolicy → Bool
is_unknown unknown = true
is_unknown (known value) = false

-- `rmw_qos_profile_t`, by the fields that are read.
pub record QosProfile : Type 0 where
  pub history : QosPolicy
  pub reliability : QosPolicy
  pub durability : QosPolicy
  pub liveliness : QosPolicy
  pub avoid_ros_namespace_conventions : Bool

-- RMW_IOX2_ENSURE_VALID_QOS refuses a profile of which this holds.
abbrev pub has_unknown_policy : QosProfile → Bool
has_unknown_policy qos =
    is_unknown qos.history
    || is_unknown qos.reliability
    || is_unknown qos.durability
    || is_unknown qos.liveliness

module _ (port : MemoryPort) where
  open port use {World, Message}

  -- A handle and its object, which are destroyed when the object cannot be created.
  abbrev pub drop_object : ℕ → ℕ → World → World
  drop_object handle object w =
      deallocate port (some handle) (deallocate port (some object) (destruct port (some object) w))

  unfoldable pub rmw_create_guard_condition :
      Option ContextHandle → Exec World Null (Pointer ObjectHandle)
  rmw_create_guard_condition rmw_context = do
    context ← or_raise rmw_context nullptr
    guard (is_own context.implementation_identifier) nullptr
    context_impl ← or_raise context.impl nullptr
    handle ← allocate port Block.handle
    object ← or_undo (allocate port Block.object) (deallocate port (some handle))
    or_undo (create_in_place port (Instance.guard_condition context_impl) object)
        (drop_object handle object)
    pure (
      handle,
      record { implementation_identifier = rmw_get_implementation_identifier; impl = some object },
    )

  unfoldable pub rmw_destroy_guard_condition :
      Option (Pointer ObjectHandle) → Exec World RetCode (Unit {0})
  rmw_destroy_guard_condition rmw_guard_condition = do
    (address, h) ← or_raise rmw_guard_condition RetCode.invalid_argument
    guard (is_own h.implementation_identifier) RetCode.incorrect_rmw_implementation
    λ w. (ok tt, deallocate port (some address) (deallocate port h.impl (destruct port h.impl w)))

  unfoldable pub rmw_create_wait_set :
      Option ContextHandle → ℕ → Exec World Null (Pointer ObjectHandle)
  rmw_create_wait_set rmw_context max_conditions = do
    context ← or_raise rmw_context nullptr
    context_impl ← or_raise context.impl nullptr
    guard (is_own context.implementation_identifier) nullptr
    handle ← allocate port Block.handle
    object ← or_undo (allocate port Block.object) (deallocate port (some handle))
    or_undo (create_in_place port (Instance.wait_set context_impl) object)
        (drop_object handle object)
    pure (
      handle,
      record { implementation_identifier = rmw_get_implementation_identifier; impl = some object },
    )

  -- The object is freed, the handle is not.
  unfoldable pub rmw_destroy_wait_set :
      Option (Pointer ObjectHandle) → Exec World RetCode (Unit {0})
  rmw_destroy_wait_set rmw_wait_set = do
    (address, h) ← or_raise rmw_wait_set RetCode.invalid_argument
    guard (is_own h.implementation_identifier) RetCode.incorrect_rmw_implementation
    λ w. (ok tt, deallocate port h.impl (destruct port h.impl w))

  unfoldable pub cleanup_node : Pointer NodeHandle → World → World
  cleanup_node (address, n) w = deallocate port (some address) (
      deallocate port n.impl
        (destruct port n.impl (deallocate port n.namespace (deallocate port n.name w))))

  -- `allocated` is what the memory from `rmw_node_allocate` holds, which sets no field.
  -- `valid_name` and `valid_namespace` are the validators of rmw.
  unfoldable pub rmw_create_node :
      NodeHandle
      → (List ℕ → Bool)
      → (List ℕ → Bool)
      → Option ContextHandle
      → Option (List ℕ)
      → Option (List ℕ)
      → Exec World Null (Pointer NodeHandle)
  rmw_create_node allocated valid_name valid_namespace rmw_context name namespace = do
    context ← or_raise rmw_context nullptr
    node_name ← or_raise name nullptr
    guard (valid_name node_name) nullptr
    node_namespace ← or_raise namespace nullptr
    guard (valid_namespace node_namespace) nullptr
    context_impl ← or_raise context.impl nullptr
    guard (is_own context.implementation_identifier) nullptr
    handle ← allocate port Block.handle
    let fresh : NodeHandle = record allocated {
      implementation_identifier = rmw_get_implementation_identifier;
      context = some context;
    }
    name_ptr ← or_undo (allocate_copy port node_name) (cleanup_node (handle, fresh))
    let named : NodeHandle = record fresh { name = some name_ptr }
    namespace_ptr ← or_undo (allocate_copy port node_namespace) (cleanup_node (handle, named))
    let placed : NodeHandle = record named { namespace = some namespace_ptr }
    object ← or_undo (allocate port Block.object) (cleanup_node (handle, placed))
    or_undo (create_in_place port (Instance.node context_impl node_name node_namespace) object)
        (λ w.
          cleanup_node (handle, placed)
            (deallocate port (some object) (destruct port (some object) w)))
    pure (handle, record placed { impl = some object })

  unfoldable pub rmw_destroy_node : Option (Pointer NodeHandle) → Exec World RetCode (Unit {0})
  rmw_destroy_node rmw_node = do
    (address, n) ← or_raise rmw_node RetCode.invalid_argument
    guard (is_own n.implementation_identifier) RetCode.incorrect_rmw_implementation
    λ w. (ok tt, cleanup_node (address, n) w)

  -- `graph_guard_condition` is the address of the member of the node's object. The handle stays
  -- allocated if there is no object.
  unfoldable pub rmw_node_get_graph_guard_condition :
      (ℕ → ℕ) → Option NodeHandle → Exec World Null (Pointer ObjectHandle)
  rmw_node_get_graph_guard_condition graph_guard_condition rmw_node = do
    node ← or_raise rmw_node nullptr
    context ← or_raise node.context nullptr
    or_raise context.impl nullptr
    guard (is_own node.implementation_identifier) nullptr
    handle ← allocate port Block.handle
    object ← or_raise node.impl nullptr
    pure (
      handle,
      record {
        implementation_identifier = rmw_get_implementation_identifier;
        impl = some (graph_guard_condition object);
      },
    )
