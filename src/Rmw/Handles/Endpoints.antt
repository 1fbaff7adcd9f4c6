-- ===== src/Rmw/Handles/Endpoints.antt =====
-- The functions that create and destroy publishers and subscriptions: src/rmw/publisher.cpp and
-- subscription.cpp. `valid_topic` is the validator of rmw, and `get_typesupport_handle` the look-up
-- of rosidl.
use rmw_iceoryx.Message.{FieldTypes, TypeSupport, is_pod}
use rmw_iceoryx.Memory.{
  MemoryPort, Block, Instance, Null, nullptr, allocate, allocate_copy, deallocate, destruct,
  create_in_place, or_undo,
}
use rmw_iceoryx.Errors.{RetCode}
use rmw_iceoryx.Rmw.Ensure.{
  is_own, rmw_get_implementation_identifier, TypesupportIdentifier, is_valid_typesupport,
}
use rmw_iceoryx.Rmw.Publish.{PublisherHandle}
use rmw_iceoryx.Rmw.Take.{SubscriptionHandle}
use rmw_iceoryx.Rmw.Handles.{Pointer, NodeHandle, QosProfile, drop_object, has_unknown_policy}
use rmw_iceoryx.Common.{
  Bool, Exec, List, Option, not, ok, or_raise, some, ℕ, ◌>>=◌, ◌>>◌, ◌||◌, guard, pure,
}

module _ (port : MemoryPort) where
  open port use {World, Message}

  unfoldable pub rmw_create_publisher :
      (List ℕ → Bool)
      → (TypesupportIdentifier → TypeSupport Message → Bool)
      → FieldTypes
      → Option NodeHandle
      → Option (TypeSupport Message)
      → Option (List ℕ)
      → Option QosProfile
      → Option (Unit {0})
      → Exec World Null (Pointer PublisherHandle)
  rmw_create_publisher valid_topic get_typesupport_handle types rmw_node type_support topic_name qos
        options =
      do
        node ← or_raise rmw_node nullptr
        context ← or_raise node.context nullptr
        or_raise context.impl nullptr
        guard (is_own node.implementation_identifier) nullptr
        ts ← or_raise type_support nullptr
        guard (is_valid_typesupport get_typesupport_handle ts) nullptr
        topic ← or_raise topic_name nullptr
        profile ← or_raise qos nullptr
        guard (not (has_unknown_policy profile)) nullptr
        guard (profile.avoid_ros_namespace_conventions || valid_topic topic) nullptr
        or_raise options nullptr
        handle ← allocate port Block.handle
        topic_ptr ← or_undo (allocate_copy port topic) (deallocate port (some handle))
        node_impl ← or_undo (or_raise node.impl nullptr) (deallocate port (some handle))
        object ← or_undo (allocate port Block.object) (deallocate port (some handle))
        or_undo (create_in_place port (Instance.publisher node_impl topic ts) object)
            (drop_object port handle object)
        pure (
          handle,
          record {
            implementation_identifier = rmw_get_implementation_identifier;
            impl = some object;
            topic_name = some topic_ptr;
            can_loan_messages = is_pod types ts;
          },
        )

  -- The object and the handle are freed, the topic name is not.
  unfoldable pub rmw_destroy_publisher :
      Option NodeHandle → Option (Pointer PublisherHandle) → Exec World RetCode (Unit {0})
  rmw_destroy_publisher rmw_node rmw_publisher = do
    node ← or_raise rmw_node RetCode.invalid_argument
    guard (is_own node.implementation_identifier) RetCode.incorrect_rmw_implementation
    (address, h) ← or_raise rmw_publisher RetCode.invalid_argument
    guard (is_own h.implementation_identifier) RetCode.incorrect_rmw_implementation
    λ w. (ok tt, deallocate port (some address) (deallocate port h.impl (destruct port h.impl w)))

  unfoldable pub rmw_create_subscription :
      (List ℕ → Bool)
      → (TypesupportIdentifier → TypeSupport Message → Bool)
      → FieldTypes
      → Option NodeHandle
      → Option (TypeSupport Message)
      → Option (List ℕ)
      → Option QosProfile
      → Option (Unit {0})
      → Exec World Null (Pointer SubscriptionHandle)
  rmw_create_subscription valid_topic get_typesupport_handle types rmw_node type_support topic_name
        qos options =
      do
        node ← or_raise rmw_node nullptr
        context ← or_raise node.context nullptr
        or_raise context.impl nullptr
        guard (is_own node.implementation_identifier) nullptr
        ts ← or_raise type_support nullptr
        guard (is_valid_typesupport get_typesupport_handle ts) nullptr
        topic ← or_raise topic_name nullptr
        profile ← or_raise qos nullptr
        guard (not (has_unknown_policy profile)) nullptr
        guard (profile.avoid_ros_namespace_conventions || valid_topic topic) nullptr
        or_raise options nullptr
        handle ← allocate port Block.handle
        topic_ptr ← or_undo (allocate_copy port topic) (deallocate port (some handle))
        node_impl ← or_undo (or_raise node.impl nullptr) (deallocate port (some handle))
        object ← or_undo (allocate port Block.object) (deallocate port (some handle))
        or_undo (create_in_place port (Instance.subscriber node_impl topic ts) object)
            (drop_object port handle object)
        pure (
          handle,
          record {
            implementation_identifier = rmw_get_implementation_identifier;
            impl = some object;
            topic_name = some topic_ptr;
            can_loan_messages = is_pod types ts;
          },
        )

  -- The object and the handle are freed, the topic name is not.
  unfoldable pub rmw_destroy_subscription :
      Option NodeHandle → Option (Pointer SubscriptionHandle) → Exec World RetCode (Unit {0})
  rmw_destroy_subscription rmw_node rmw_subscription = do
    node ← or_raise rmw_node RetCode.invalid_argument
    guard (is_own node.implementation_identifier) RetCode.incorrect_rmw_implementation
    (address, h) ← or_raise rmw_subscription RetCode.invalid_argument
    guard (is_own h.implementation_identifier) RetCode.incorrect_rmw_implementation
    λ w. (ok tt, deallocate port (some address) (deallocate port h.impl (destruct port h.impl w)))
