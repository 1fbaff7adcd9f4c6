-- ===== src/Examples/Accesses.antt =====
-- Runs of the access to iceoryx2.
use rmw_iceoryx.Names
use rmw_iceoryx.Common.{◌≡◌, refl, [], ◌∷◌, none, some, true, List, ℕ}
use rmw_iceoryx.Creation.{create_in_optional}
use rmw_iceoryx.Runtime.Access.{
  Iceoryx2, returned, new_iceoryx2, service_builder, local_service, nothing_built,
}
use rmw_iceoryx.Runtime.Access.Ready.{
  IsReadyIfMade, create_in_optional-IsReadyIfMade, service_builder-construct,
}
use rmw_iceoryx.Subscriber.{Subscriber, construct}
use rmw_iceoryx.Registry
use rmw_iceoryx.Examples.Identities.{runtime_port}
use rmw_iceoryx.Examples.Ports.{subscriber_port, byte_support}

create_in_optional-IsReadyIfMade_example :
    IsReadyIfMade (create_in_optional (new_iceoryx2 runtime_port (1 ∷ [])) (0, some nothing_built))
create_in_optional-IsReadyIfMade_example =
    create_in_optional-IsReadyIfMade runtime_port (1 ∷ []) 0 (some nothing_built)

abbrev both_nodes : Iceoryx2
both_nodes = record { m_local = true; m_ipc = true }

abbrev topic_name : List ℕ
topic_name = 4 ∷ []

abbrev subscription : Subscriber subscriber_port
subscription = record {
  topic = topic_name;
  typesupport = byte_support;
  service_name = Names.topic topic_name;
  registry = Registry.empty;
}

service_builder-construct_example :
    service_builder (λ name. true) local_service (Names.topic topic_name) both_nodes
    ≡ returned (record { service_type = local_service; service_name = Names.topic topic_name })
unfolding create_in_optional new_iceoryx2 construct
service_builder-construct_example =
    service_builder-construct runtime_port (1 ∷ []) 0 none local_service topic_name byte_support []
      both_nodes subscription refl refl refl
