-- ===== src/Rmw/Queries.antt =====
-- The other functions of src/rmw/graph.cpp, which check their arguments and answer that they are
-- unsupported. The validators of rmw are a parameter; a flag says whether a pointer that is only
-- compared with null is not null.
pub mod Undefined
pub mod Counting
use rmw_iceoryx.Common.{
  Option, guard, Bool, Exec, List, Option, [], false, none, ok, or_raise, pure, some, ℕ, ◌>>=◌,
  ◌>>◌, ◌∷◌, raise,
}
use mathlib.Core.Option
use rmw_iceoryx.Errors.{RetCode}
use rmw_iceoryx.Rmw.Ensure.{is_own}
use rmw_iceoryx.Rmw.Handles.{NodeHandle}
use rmw_iceoryx.Rmw.Graph.{
  Stop, code, undefined_behaviour, StringArray, NamesAndTypes, is_zero_array,
}

-- Whether a name is valid, or nothing if the validation itself fails.
pub record Validators : Type 0 where
  pub validate_node_name : List ℕ → Option Bool
  pub validate_namespace : List ℕ → Option Bool
  pub validate_full_topic_name : List ℕ → Option Bool

abbrev pub is_valid : Option Bool → Bool
is_valid answer = Option.get_or answer false

module _ {S : Type 0} where
  -- RMW_IOX2_ENSURE_NOT_NULL of a pointer that is not read
  abbrev pub ensure_given : Bool → Exec S Stop (Unit {0})
  ensure_given given = guard given (code RetCode.invalid_argument)

  abbrev pub ensure_node : Option NodeHandle → Exec S Stop NodeHandle
  ensure_node rmw_node = do
    node ← or_raise rmw_node (code RetCode.invalid_argument)
    guard (is_own node.implementation_identifier) (code RetCode.incorrect_rmw_implementation)
    pure node

  -- A text that is not null, and passes a validator.
  abbrev pub ensure_valid : (List ℕ → Option Bool) → Option (List ℕ) → Exec S Stop (List ℕ)
  ensure_valid validate text = do
    t ← or_raise text (code RetCode.invalid_argument)
    guard (is_valid (validate t)) (code RetCode.invalid_argument)
    pure t

  abbrev pub ensure_zero_string_array : StringArray → Exec S Stop (Unit {0})
  ensure_zero_string_array a = guard (is_zero_array a) (code RetCode.invalid_argument)

  abbrev pub ensure_string_array : Option StringArray → Exec S Stop (Unit {0})
  ensure_string_array a = do
    array ← or_raise a (code RetCode.invalid_argument)
    ensure_zero_string_array array

  -- `*types` of a null pointer, or of an array of none, is undefined.
  abbrev pub ensure_zero_types : Option (List StringArray) → Exec S Stop (Unit {0})
  ensure_zero_types none = raise undefined_behaviour
  ensure_zero_types (some []) = raise undefined_behaviour
  ensure_zero_types (some (a ∷ as')) = ensure_zero_string_array a

  abbrev pub ensure_names_and_types : Option NamesAndTypes → Exec S Stop (Unit {0})
  ensure_names_and_types names_and_types = do
    n ← or_raise names_and_types (code RetCode.invalid_argument)
    ensure_zero_string_array n.names
    ensure_zero_types n.types

  unfoldable pub rmw_get_node_names_with_enclaves :
      Option NodeHandle
      → Option StringArray
      → Option StringArray
      → Option StringArray
      → Exec S Stop (Unit {0})
  rmw_get_node_names_with_enclaves rmw_node node_names node_namespaces enclaves = do
    ensure_node rmw_node
    ensure_string_array node_names
    ensure_string_array node_namespaces
    ensure_string_array enclaves
    raise (code RetCode.unsupported)

  -- The array of results counts as zero or not.
  unfoldable pub rmw_get_publishers_info_by_topic :
      Option NodeHandle → Bool → Bool → Option Bool → Exec S Stop (Unit {0})
  rmw_get_publishers_info_by_topic rmw_node has_valid_allocator has_topic_name endpoints_info = do
    node ← or_raise rmw_node (code RetCode.invalid_argument)
    ensure_given has_topic_name
    is_zero ← or_raise endpoints_info (code RetCode.invalid_argument)
    guard (is_own node.implementation_identifier) (code RetCode.incorrect_rmw_implementation)
    ensure_given has_valid_allocator
    ensure_given is_zero
    raise (code RetCode.unsupported)

  unfoldable pub rmw_get_subscriptions_info_by_topic :
      Option NodeHandle → Bool → Bool → Option Bool → Exec S Stop (Unit {0})
  rmw_get_subscriptions_info_by_topic rmw_node has_valid_allocator has_topic_name endpoints_info =
      do
        node ← or_raise rmw_node (code RetCode.invalid_argument)
        ensure_given has_topic_name
        is_zero ← or_raise endpoints_info (code RetCode.invalid_argument)
        guard (is_own node.implementation_identifier) (code RetCode.incorrect_rmw_implementation)
        ensure_given has_valid_allocator
        ensure_given is_zero
        raise (code RetCode.unsupported)

  module _ (v : Validators) where
    -- The checks of the functions that report the endpoints of one node.
    abbrev pub ensure_query_by_node :
        (List ℕ → Option Bool)
        → Option NodeHandle
        → Bool
        → Option (List ℕ)
        → Option (List ℕ)
        → Option NamesAndTypes
        → Exec S Stop (Unit {0})
    ensure_query_by_node validate_second rmw_node has_valid_allocator node_name node_namespace
          names_and_types =
        do
          ensure_node rmw_node
          ensure_given has_valid_allocator
          ensure_valid v.validate_node_name node_name
          ensure_valid validate_second node_namespace
          ensure_names_and_types names_and_types

    unfoldable pub rmw_get_publisher_names_and_types_by_node :
        Option NodeHandle
        → Bool
        → Option (List ℕ)
        → Option (List ℕ)
        → Option NamesAndTypes
        → Exec S Stop (Unit {0})
    rmw_get_publisher_names_and_types_by_node rmw_node has_valid_allocator node_name node_namespace
          out =
        do
          ensure_query_by_node v.validate_namespace rmw_node has_valid_allocator node_name
              node_namespace out
          raise (code RetCode.unsupported)

    -- The namespace is checked as the name of a node.
    unfoldable pub rmw_get_subscriber_names_and_types_by_node :
        Option NodeHandle
        → Bool
        → Option (List ℕ)
        → Option (List ℕ)
        → Option NamesAndTypes
        → Exec S Stop (Unit {0})
    rmw_get_subscriber_names_and_types_by_node rmw_node has_valid_allocator node_name node_namespace
          out =
        do
          ensure_query_by_node v.validate_node_name rmw_node has_valid_allocator node_name
              node_namespace out
          raise (code RetCode.unsupported)

    unfoldable pub rmw_get_service_names_and_types :
        Option NodeHandle → Bool → Option NamesAndTypes → Exec S Stop (Unit {0})
    rmw_get_service_names_and_types rmw_node has_valid_allocator out = do
      ensure_node rmw_node
      ensure_given has_valid_allocator
      ensure_names_and_types out
      raise (code RetCode.unsupported)

    unfoldable pub rmw_get_service_names_and_types_by_node :
        Option NodeHandle
        → Bool
        → Option (List ℕ)
        → Option (List ℕ)
        → Option NamesAndTypes
        → Exec S Stop (Unit {0})
    rmw_get_service_names_and_types_by_node rmw_node has_valid_allocator node_name node_namespace
          out =
        do
          ensure_query_by_node v.validate_namespace rmw_node has_valid_allocator node_name
              node_namespace out
          raise (code RetCode.unsupported)

    unfoldable pub rmw_get_client_names_and_types_by_node :
        Option NodeHandle
        → Bool
        → Option (List ℕ)
        → Option (List ℕ)
        → Option NamesAndTypes
        → Exec S Stop (Unit {0})
    rmw_get_client_names_and_types_by_node rmw_node has_valid_allocator node_name node_namespace
          out =
        do
          ensure_query_by_node v.validate_namespace rmw_node has_valid_allocator node_name
              node_namespace out
          raise (code RetCode.unsupported)

    unfoldable pub rmw_count_services :
        Option NodeHandle → Option (List ℕ) → Bool → Exec S Stop (Unit {0})
    rmw_count_services rmw_node service_name has_count = do
      ensure_node rmw_node
      ensure_valid v.validate_full_topic_name service_name
      ensure_given has_count
      raise (code RetCode.unsupported)

    unfoldable pub rmw_count_clients :
        Option NodeHandle → Option (List ℕ) → Bool → Exec S Stop (Unit {0})
    rmw_count_clients rmw_node service_name has_count = do
      ensure_node rmw_node
      ensure_valid v.validate_full_topic_name service_name
      ensure_given has_count
      raise (code RetCode.unsupported)
