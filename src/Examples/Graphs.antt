-- ===== src/Examples/Graphs.antt =====
-- Runs of the graph queries, over an rcutils that refuses nothing.
use rmw_iceoryx.Common.{
  Bool, List, Option, [], arith, false, get_elem?, none, ok, refl, replicate, some, suc, true, zero,
  ℕ, ◌==◌, ◌↔◌, ◌∷◌, ◌≡◌, err, ◌≢◌,
}
use rmw_iceoryx.Names
use rmw_iceoryx.Names.{NodeName}
use rmw_iceoryx.Names.Order.{node_order, topic_order}
use rmw_iceoryx.OrderedSet.Laws.{IsAscending, IsIn}
use rmw_iceoryx.Rmw.Ensure.{rmw_iox2_identifier}
use rmw_iceoryx.Rmw.Handles.{NodeHandle}
use rmw_iceoryx.Rmw.Graph.{
  StringArray, RcutilsPort, Listing, NodeState, alive, not_alive, NodeNames,
  rcutils_get_zero_initialized_string_array, rmw_get_node_names, name_of, undefined_behaviour,
}
use rmw_iceoryx.Rmw.Graph.Arrays.{Documented, NeverRefuses, elements}
use rmw_iceoryx.Rmw.Graph.Nodes.{Reports}
use rmw_iceoryx.Rmw.Graph.NodeReports.{
  rmw_get_node_names-Reports, rmw_get_node_names_returns, rmw_get_node_names_order,
  rmw_get_node_names-node, rmw_get_node_names-defined,
}
use rmw_iceoryx.Rmw.Graph.Collections.{Lists}

abbrev pub nulls : ℕ → StringArray
nulls n = record { size = n; texts = some (replicate n none); has_zero_allocator = false }

abbrev pub same_size : Option StringArray → StringArray → Option Bool
same_size none b = none
same_size (some a) b = some (a.size == b.size)

abbrev pub rcutils : RcutilsPort
rcutils = record {
  World = Unit {0};
  string_array_init = λ a n w. (ok tt, nulls n, w);
  names_and_types_init = λ a n w. (
    ok tt,
    record {
      names = nulls n;
      types = some (replicate n rcutils_get_zero_initialized_string_array);
    },
    w,
  );
  strdup = λ t w. (some t, w);
  string_array_cmp = same_size;
}

pub documented : Documented rcutils
documented = record {
  initialized-elements = λ a n w e. refl;
  duplicate-eq = λ t t' w e. ground (arith, e);
  names-elements = λ a n w e. refl;
  types-zero = λ a n w e. refl;
}

pub granted : NeverRefuses rcutils
granted = record {
  of_duplicate = λ t w e. cc;
  of_array = λ a n w c e. absurd (cc);
  of_names = λ a n w c e. cc;
}

abbrev pub own_node : NodeHandle
own_node = record {
  implementation_identifier = rmw_iox2_identifier;
  context = none;
  name = none;
  namespace = none;
  impl = some 4;
}

abbrev talker : NodeState
talker = alive (some (Names.node 7 (116 ∷ []) (some (47 ∷ 97 ∷ []))))

-- One node that can be read, listed twice, one that cannot, and one that is not alive.
abbrev nodes : Listing NodeState
nodes = record { entries = alive none ∷ talker ∷ not_alive ∷ talker ∷ []; is_complete = true }

abbrev nodes' : Listing NodeState
nodes' = record { entries = talker ∷ alive none ∷ not_alive ∷ []; is_complete = true }

abbrev empty_names : NodeNames rcutils
empty_names = record {
  node_names = rcutils_get_zero_initialized_string_array;
  node_namespaces = rcutils_get_zero_initialized_string_array;
  world = tt;
}

rmw_get_node_names_returns_example :
    (rmw_get_node_names rcutils nodes (some own_node) true true empty_names).0 ≡ ok tt
rmw_get_node_names_returns_example =
    rmw_get_node_names_returns documented nodes own_node empty_names granted refl refl refl refl

rmw_get_node_names-Reports_example :
    (ns : List NodeName) × IsAscending ns
    × ((n : NodeName) → IsIn n ns ↔ Lists name_of nodes.entries n)
    × Reports ns (rmw_get_node_names rcutils nodes (some own_node) true true empty_names).1
rmw_get_node_names-Reports_example =
    rmw_get_node_names-Reports documented nodes (some own_node) true true empty_names
      rmw_get_node_names_returns_example

rmw_get_node_names-node_example :
    (i : ℕ) × (get_elem?
        (elements
          (rmw_get_node_names rcutils nodes (some own_node) true true empty_names).1.node_names)
        i
      ≡ some (some (116 ∷ [])))
    × (get_elem?
          (elements
            (rmw_get_node_names rcutils nodes
              (some own_node)
              true
              true
              empty_names).1.node_namespaces)
          i
        ≡ some (some (47 ∷ 97 ∷ [])))
rmw_get_node_names-node_example =
    rmw_get_node_names-node documented nodes (some own_node) true true empty_names 7 116 1 []
      (some (47 ∷ 97 ∷ [])) (refl, tt) refl rmw_get_node_names_returns_example

rmw_get_node_names-defined_example :
    (rmw_get_node_names rcutils nodes (some own_node) true true empty_names).0
    ≢ err undefined_behaviour
rmw_get_node_names-defined_example =
    rmw_get_node_names-defined documented nodes (some own_node) true true empty_names

same_nodes : (t : NodeState) → IsIn t nodes.entries ↔ IsIn t nodes'.entries
same_nodes t = (there, back)
  where
    there : IsIn t nodes.entries → IsIn t nodes'.entries
    there (zero, e) = (1, e)
    there (suc zero, e) = (0, e)
    there (suc (suc zero), e) = (2, e)
    there (suc (suc (suc zero)), e) = (0, e)
    there (suc (suc (suc (suc i))), e) = absurd (cc)

    back : IsIn t nodes'.entries → IsIn t nodes.entries
    back (zero, e) = (1, e)
    back (suc zero, e) = (0, e)
    back (suc (suc zero), e) = (2, e)
    back (suc (suc (suc i)), e) = absurd (cc)

rmw_get_node_names_order_example :
    rmw_get_node_names rcutils nodes (some own_node) true true empty_names
    ≡ rmw_get_node_names rcutils nodes' (some own_node) true true empty_names
rmw_get_node_names_order_example =
    rmw_get_node_names_order nodes nodes' (some own_node) true true empty_names refl same_nodes
