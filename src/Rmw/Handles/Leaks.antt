-- ===== src/Rmw/Handles/Leaks.antt =====
-- The functions that leave a block behind.
use rmw_iceoryx.Rmw.Ensure.{TypesupportIdentifier, is_valid_typesupport}
use rmw_iceoryx.Rmw.Handles.{
  rmw_create_wait_set, rmw_destroy_wait_set, ContextHandle, NodeHandle, QosProfile, is_own, Pointer,
  ObjectHandle, rmw_get_implementation_identifier, has_unknown_policy,
}
use rmw_iceoryx.Memory.{Block, Instance, MemoryPort, allocate, create_in_place}
use rmw_iceoryx.Memory.Balance.{Allocator}
use rmw_iceoryx.Message.{FieldTypes, TypeSupport, is_pod}
use rmw_iceoryx.Rmw.Publish.{PublisherHandle}
use rmw_iceoryx.Rmw.Take.{SubscriptionHandle}
use rmw_iceoryx.Rmw.Handles.Endpoints.{
  rmw_create_publisher, rmw_destroy_publisher, rmw_create_subscription, rmw_destroy_subscription,
}
use rmw_iceoryx.Common.{arith, eq_refl, ok, refl, some, true, ℕ, ◌≡◌, Bool, List, false, ◌==◌, ◌||◌}

module _ {port : MemoryPort} (a : Allocator port) where
  open port use {World, Message}

  -- A wait set that is created and destroyed leaves its handle allocated.
  pub rmw_destroy_wait_set_leaks :
      (c : ContextHandle) (n context_impl handle object : ℕ) (w w1 w2 w3 : World)
      → is_own c.implementation_identifier ≡ true
      → c.impl ≡ some context_impl
      → port.rmw_allocate Block.handle w ≡ (some handle, w1)
      → port.rmw_allocate Block.object w1 ≡ (some object, w2)
      → port.constructor (Instance.wait_set context_impl) object w2 ≡ (true, w3)
      → (h : Pointer ObjectHandle) × (rmw_create_wait_set port (some c) n w ≡ (ok h, w3))
        × ((rmw_destroy_wait_set port (some h) w3).0 ≡ ok tt)
        × (a.live (rmw_destroy_wait_set port (some h) w3).1 h.0 ≡ true)
  unfolding rmw_create_wait_set rmw_destroy_wait_set allocate create_in_place
  rmw_destroy_wait_set_leaks c n context_impl handle object w w1 w2 w3 own impl e1 e2 e3 = (
    (
      handle,
      record { implementation_identifier = rmw_get_implementation_identifier; impl = some object },
    ),
    ground (arith, own, impl, e1, e2, e3),
    refl,
    ground (
      arith,
      e3,
      eq_refl handle,
      a.allocated-live Block.handle w w1 handle handle e1,
      a.allocated-fresh Block.object w1 w2 object e2,
      a.allocated-live Block.object w1 w2 object handle e2,
      a.constructor-live (Instance.wait_set context_impl) object w2 handle,
      a.destructor-live object w3 handle,
      a.freed-live object (port.destructor object w3) handle,
    ),
  )

  -- An endpoint of a node, with arguments that pass the checks and an allocator that gives its
  -- blocks.
  module _ (valid_topic : List ℕ → Bool)
      (get_typesupport_handle : TypesupportIdentifier → TypeSupport Message → Bool)
      (types : FieldTypes) (node : NodeHandle) (c : ContextHandle) (ts : TypeSupport Message)
      (topic_name : List ℕ) (qos : QosProfile) (context_impl node_impl handle topic object : ℕ)
      (w w1 w2 w3 w4 : World) (has_context : node.context ≡ some c)
      (has_impl : c.impl ≡ some context_impl) (own : is_own node.implementation_identifier ≡ true)
      (supported : is_valid_typesupport get_typesupport_handle ts ≡ true)
      (known : has_unknown_policy qos ≡ false)
      (named : (qos.avoid_ros_namespace_conventions || valid_topic topic_name) ≡ true)
      (placed : node.impl ≡ some node_impl)
      (e1 : port.rmw_allocate Block.handle w ≡ (some handle, w1))
      (e2 : port.rmw_allocate (Block.text topic_name) w1 ≡ (some topic, w2))
      (e3 : port.rmw_allocate Block.object w2 ≡ (some object, w3)) where
    -- The topic name is in use, at an address of its own.
    stays : (a.live w3 topic ≡ true) × ((handle == topic) ≡ false) × ((object == topic) ≡ false)
    stays = ground (
      arith,
      eq_refl topic,
      eq_refl handle,
      a.allocated-live Block.handle w w1 handle handle e1,
      a.allocated-fresh (Block.text topic_name) w1 w2 topic e2,
      a.allocated-live (Block.text topic_name) w1 w2 topic topic e2,
      a.allocated-fresh Block.object w2 w3 object e3,
      a.allocated-live Block.object w2 w3 object topic e3,
    )

    -- A publisher that is created and destroyed leaves its topic name allocated.
    pub rmw_destroy_publisher_leaks :
        port.constructor (Instance.publisher node_impl topic_name ts) object w3 ≡ (true, w4)
        → (h : Pointer PublisherHandle) × (rmw_create_publisher port valid_topic
              get_typesupport_handle types
              (some node)
              (some ts)
              (some topic_name)
              (some qos)
              (some tt)
              w
            ≡ (ok h, w4))
          × ((rmw_destroy_publisher port (some node) (some h) w4).0 ≡ ok tt)
          × (a.live (rmw_destroy_publisher port (some node) (some h) w4).1 topic ≡ true)
    unfolding rmw_create_publisher rmw_destroy_publisher allocate create_in_place
    rmw_destroy_publisher_leaks e4 = (
      (
        handle,
        record {
          implementation_identifier = rmw_get_implementation_identifier;
          impl = some object;
          topic_name = some topic;
          can_loan_messages = is_pod types ts;
        },
      ),
      ground (arith, own, has_context, has_impl, supported, known, named, placed, e1, e2, e3, e4),
      ground (arith, own),
      ground (
        arith,
        own,
        e4,
        stays,
        a.constructor-live (Instance.publisher node_impl topic_name ts) object w3 topic,
        a.destructor-live object w4 topic,
        a.freed-live object (port.destructor object w4) topic,
        a.freed-live handle (port.rmw_free object (port.destructor object w4)) topic,
      ),
    )

    -- A subscription that is created and destroyed leaves its topic name allocated.
    pub rmw_destroy_subscription_leaks :
        port.constructor (Instance.subscriber node_impl topic_name ts) object w3 ≡ (true, w4)
        → (h : Pointer SubscriptionHandle) × (rmw_create_subscription port valid_topic
              get_typesupport_handle types
              (some node)
              (some ts)
              (some topic_name)
              (some qos)
              (some tt)
              w
            ≡ (ok h, w4))
          × ((rmw_destroy_subscription port (some node) (some h) w4).0 ≡ ok tt)
          × (a.live (rmw_destroy_subscription port (some node) (some h) w4).1 topic ≡ true)
    unfolding rmw_create_subscription rmw_destroy_subscription allocate create_in_place
    rmw_destroy_subscription_leaks e4 = (
      (
        handle,
        record {
          implementation_identifier = rmw_get_implementation_identifier;
          impl = some object;
          topic_name = some topic;
          can_loan_messages = is_pod types ts;
        },
      ),
      ground (arith, own, has_context, has_impl, supported, known, named, placed, e1, e2, e3, e4),
      ground (arith, own),
      ground (
        arith,
        own,
        e4,
        stays,
        a.constructor-live (Instance.subscriber node_impl topic_name ts) object w3 topic,
        a.destructor-live object w4 topic,
        a.freed-live object (port.destructor object w4) topic,
        a.freed-live handle (port.rmw_free object (port.destructor object w4)) topic,
      ),
    )
