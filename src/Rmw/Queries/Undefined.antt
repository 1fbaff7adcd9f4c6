-- ===== src/Rmw/Queries/Undefined.antt =====
-- Where the queries are undefined.
use rmw_iceoryx.Common.{List, err, none, refl, some, true, ℕ, ◌≡◌}
use rmw_iceoryx.Rmw.Graph.{
  NamesAndTypes, rcutils_get_zero_initialized_string_array, undefined_behaviour,
}
use rmw_iceoryx.Rmw.Queries.{
  Validators, rmw_get_publisher_names_and_types_by_node, rmw_get_subscriber_names_and_types_by_node,
  rmw_get_service_names_and_types_by_node, rmw_get_client_names_and_types_by_node,
  rmw_get_service_names_and_types, is_own, is_valid,
}
use rmw_iceoryx.Rmw.Handles.{NodeHandle}

-- `rmw_get_zero_initialized_names_and_types`, which rmw asks the caller to pass.
abbrev pub zero_names_and_types : NamesAndTypes
zero_names_and_types = record { names = rcutils_get_zero_initialized_string_array; types = none }

-- With a node of this implementation, a valid allocator, valid names and a result that is zero
-- initialized, the queries for names and types read through a null pointer.
pub names_and_types_queries_undefined :
    {S : Type 0} (v : Validators) (node : NodeHandle) (name namespace : List ℕ) (s : S)
    → is_own node.implementation_identifier ≡ true
    → is_valid (v.validate_node_name name) ≡ true
    → is_valid (v.validate_namespace namespace) ≡ true
    → is_valid (v.validate_node_name namespace) ≡ true
    → ((rmw_get_publisher_names_and_types_by_node v
          (some node)
          true
          (some name)
          (some namespace)
          (some zero_names_and_types)
          s).0
        ≡ err undefined_behaviour)
      × ((rmw_get_subscriber_names_and_types_by_node v
            (some node)
            true
            (some name)
            (some namespace)
            (some zero_names_and_types)
            s).0
          ≡ err undefined_behaviour)
      × ((rmw_get_service_names_and_types_by_node v
            (some node)
            true
            (some name)
            (some namespace)
            (some zero_names_and_types)
            s).0
          ≡ err undefined_behaviour)
      × ((rmw_get_client_names_and_types_by_node v
            (some node)
            true
            (some name)
            (some namespace)
            (some zero_names_and_types)
            s).0
          ≡ err undefined_behaviour)
      × ((rmw_get_service_names_and_types v (some node) true (some zero_names_and_types) s).0
          ≡ err undefined_behaviour)
unfolding rmw_get_publisher_names_and_types_by_node rmw_get_subscriber_names_and_types_by_node
    rmw_get_service_names_and_types_by_node rmw_get_client_names_and_types_by_node
    rmw_get_service_names_and_types
names_and_types_queries_undefined v node name namespace s own valid_name valid_namespace
      valid_second =
    rw (own, valid_name, valid_namespace, valid_second) (refl, refl, refl, refl, refl)
