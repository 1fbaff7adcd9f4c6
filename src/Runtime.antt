-- ===== src/Runtime.antt =====
-- The runtime context, guard condition and node: src/impl/runtime/context.cpp, guard_condition.cpp
-- and node.cpp, with the iceoryx2 instances of src/impl/middleware/iceoryx2.cpp that they own, and
-- `rmw_trigger_guard_condition`. iceoryx2 is a parameter, and an error of it has no content.
pub mod Identity
pub mod Access
use rmw_iceoryx.Errors.{HandleError, ContextError, NodeError, GuardConditionError, RetCode}
use rmw_iceoryx.Names
use rmw_iceoryx.Rmw.Ensure.{Identifier, is_own}
use rmw_iceoryx.Common.{
  Bool, List, none, or_raise, some, ℕ, ◌%◌, ◌+◌, ◌>>=◌, ◌>>◌, ◌^◌, Exec, Option, guard, ok, or_code,
  pure,
}

pub record RuntimePort : Type 1 where
  pub World : Type 0
  pub create_instance_name : List ℕ → Bool
  pub create_local : List ℕ → World → Bool × World
  pub create_ipc : List ℕ → World → Bool × World
  pub create_service_name : List ℕ → Bool
  pub open_or_create_event : List ℕ → World → Bool × World
  pub create_notifier : List ℕ → World → Bool × World
  -- by the service's name and the event's id
  pub notify_with_custom_event_id : List ℕ → ℕ → World → Bool × World

-- `rmw_context_impl_s`
pub record Context : Type 0 where
  pub id : ℕ
  pub guard_condition_counter : ℕ

pub record GuardCondition : Type 0 where
  pub trigger_id : ℕ
  pub service_name : List ℕ

pub record Node : Type 0 where
  pub name : List ℕ
  pub graph_guard_condition : GuardCondition

-- `m_guard_condition_counter++`, of 32 bits
unfoldable pub generate_guard_condition_id : Context → ℕ × Context
generate_guard_condition_id c = (
  c.guard_condition_counter,
  record c { guard_condition_counter = (c.guard_condition_counter + 1) % 2 ^ 32 },
)

module _ (port : RuntimePort) where
  open port use {World}

  abbrev on_world : {E A : Type 0} → (World → A × World) → Exec (Context × World) E A
  on_world f (c, w) = (ok (f w).0, (c, (f w).1))

  abbrev build : {E A : Type 0} → (World → A × World) → Exec World E A
  build f w = (ok (f w).0, (f w).1)

  -- `Iceoryx2::Iceoryx2`
  unfoldable pub create_iceoryx2 : List ℕ → Exec World HandleError (Unit {0})
  create_iceoryx2 instance_name = do
    guard (port.create_instance_name instance_name) HandleError.invalid_instance_name
    local_node ← build (port.create_local instance_name)
    guard local_node HandleError.iceoryx_handle_creation_failure
    ipc_node ← build (port.create_ipc instance_name)
    guard ipc_node HandleError.iceoryx_handle_creation_failure

  -- `rmw_context_impl_s::rmw_context_impl_s`
  unfoldable pub create_context : ℕ → Exec World ContextError Context
  create_context id = do
    or_code (create_iceoryx2 (Names.context id)) ContextError.handle_creation_failure
    pure (record { id = id; guard_condition_counter = 0 })

  abbrev next_id : Exec (Context × World) GuardConditionError ℕ
  next_id (c, w) = (ok (generate_guard_condition_id c).0, ((generate_guard_condition_id c).1, w))

  -- The id is used up even if the construction fails.
  unfoldable pub create_guard_condition : Exec (Context × World) GuardConditionError GuardCondition
  create_guard_condition (c, w) =
      (do
        trigger_id ← next_id
        let service_name = Names.guard_condition c.id trigger_id
        guard (port.create_service_name service_name)
            GuardConditionError.service_name_creation_failure
        service ← on_world (port.open_or_create_event service_name)
        guard service GuardConditionError.service_creation_failure
        notifier ← on_world (port.create_notifier service_name)
        guard notifier GuardConditionError.notifier_creation_failure
        pure (record { trigger_id = trigger_id; service_name = service_name }))
        (c, w)

  abbrev on_context : {E A : Type 0} → Exec World E A → Exec (Context × World) E A
  on_context m (c, w) = ((m w).0, (c, (m w).1))

  -- `Node::Node`
  unfoldable pub create_node : List ℕ → Option (List ℕ) → Exec (Context × World) NodeError Node
  create_node name ns (c, w) =
      (do
        or_code (on_context (create_iceoryx2 (Names.node c.id name ns)))
            NodeError.handle_creation_failure
        g ← or_code create_guard_condition NodeError.graph_guard_condition_creation_failure
        pure (record { name = name; graph_guard_condition = g }))
        (c, w)

  unfoldable pub trigger : GuardCondition → Exec World GuardConditionError (Unit {0})
  trigger g = do
    notified ← build (port.notify_with_custom_event_id g.service_name g.trigger_id)
    guard notified GuardConditionError.notification_failure

  abbrev trigger_at : Option GuardCondition → Exec World RetCode (Unit {0})
  trigger_at none = pure tt
  trigger_at (some g) = or_code (trigger g) RetCode.error

  -- The handle by its identifier and the object that its `data` points to. A null `data` is not an
  -- error.
  unfoldable pub rmw_trigger_guard_condition :
      Option (Identifier × Option GuardCondition) → Exec World RetCode (Unit {0})
  rmw_trigger_guard_condition rmw_guard_condition = do
    h ← or_raise rmw_guard_condition RetCode.invalid_argument
    guard (is_own h.0) RetCode.incorrect_rmw_implementation
    trigger_at h.1
