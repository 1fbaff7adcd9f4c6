-- ===== src/Runtime/Access.antt =====
-- The rest of src/impl/middleware/iceoryx2.cpp and include/rmw_iceoryx2_cxx/impl/middleware/
-- iceoryx2.hpp: the instance as an object, and the access to its two nodes. Whether a member has a
-- value is all that is known of it; the nodes and the builders are iceoryx2's.
pub mod Ready
use rmw_iceoryx.Common.{Bool, true, false, List, ℕ, Option, none, some, if◌then◌else◌}
use rmw_iceoryx.Errors.{HandleError}
use rmw_iceoryx.Creation.{Constructor}
use rmw_iceoryx.Runtime.{RuntimePort}

pub record Iceoryx2 : Type 0 where
  pub m_local : Bool
  pub m_ipc : Bool

abbrev pub nothing_built : Iceoryx2
nothing_built = record { m_local = false; m_ipc = false }

-- A call that ends the program, a read of the value of an `expected` that has an error, and a
-- return.
pub data Access (A : Type 0) : Type 0 where
  panic : Access A
  no_value : Access A
  returned : A → Access A

pub data ServiceType : Type 0 where
  local_service ipc_service : ServiceType

-- The service builder of a node, for a service name.
pub record ServiceBuilder : Type 0 where
  pub service_type : ServiceType
  pub service_name : List ℕ

module _ (port : RuntimePort) where
  open port use {World}

  with_ipc : Bool × World → (Iceoryx2 × Option HandleError) × World
  with_ipc (true, w) = ((record { m_local = true; m_ipc = true }, none), w)
  with_ipc (false, w) = (
    (record { m_local = true; m_ipc = false }, some HandleError.iceoryx_handle_creation_failure),
    w,
  )

  with_local : List ℕ → Bool × World → (Iceoryx2 × Option HandleError) × World
  unfolding with_ipc
  with_local instance_name (true, w) = with_ipc (port.create_ipc instance_name w)
  with_local instance_name (false, w) =
      ((nothing_built, some HandleError.iceoryx_handle_creation_failure), w)

  -- `Iceoryx2::Iceoryx2`
  unfoldable pub new_iceoryx2 : List ℕ → Constructor World HandleError Iceoryx2
  unfolding with_local with_ipc
  new_iceoryx2 instance_name w =
      if port.create_instance_name instance_name
      then with_local instance_name (port.create_local instance_name w)
      else ((nothing_built, some HandleError.invalid_instance_name), w)

-- `Iceoryx2::local` and `Iceoryx2::ipc`
unfoldable pub node_of : ServiceType → Iceoryx2 → Access ServiceType
node_of local_service x = if x.m_local then returned local_service else panic
node_of ipc_service x = if x.m_ipc then returned ipc_service else panic

-- The name is read whether it has an error or not. The node comes first.
abbrev named : Bool → List ℕ → Access ServiceType → Access ServiceBuilder
named valid name panic = panic
named valid name no_value = no_value
named true name (returned t) = returned (record { service_type = t; service_name = name })
named false name (returned t) = no_value

-- `ServiceName::create` is iceoryx2's, a parameter.
unfoldable pub service_builder :
    (List ℕ → Bool) → ServiceType → List ℕ → Iceoryx2 → Access ServiceBuilder
service_builder create_service_name service_type service_name x =
    named (create_service_name service_name) service_name (node_of service_type x)
