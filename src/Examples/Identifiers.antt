-- ===== src/Examples/Identifiers.antt =====
-- Runs of the identifiers of publishers, and of the handle of a node's graph guard condition.

use rmw_iceoryx.Rmw.Ensure.{rmw_iox2_identifier}
use rmw_iceoryx.Rmw.Handles.{rmw_node_get_graph_guard_condition}
use rmw_iceoryx.Examples.Handles.{node_handle}
use rmw_iceoryx.Rmw.Gid.{
  Gid, rmw_compare_gids_equal, rmw_compare_gids_equal-rmw_get_gid, rmw_get_gid_for_publisher,
}
use rmw_iceoryx.Rmw.Publish.{PublisherHandle}
use rmw_iceoryx.Common.{some, true, refl, ok, none, [], false, suc, take, ◌↔◌, ◌∷◌, ◌≡◌, List, ℕ}
use rmw_iceoryx.Examples.Heaps.{Heap, memory_port}
use rmw_iceoryx.Rmw.Handles.Nodes.{node_blocks}

abbrev publisher : PublisherHandle
publisher = record {
  implementation_identifier = rmw_iox2_identifier;
  topic_name = none;
  impl = some 4;
  can_loan_messages = true;
}

abbrev no_gid : Gid
no_gid = record { implementation_identifier = rmw_iox2_identifier; bytes = [] }

abbrev left_id : List ℕ
left_id = 7 ∷ 8 ∷ 9 ∷ []

abbrev right_id : List ℕ
right_id = 7 ∷ 8 ∷ 5 ∷ []

abbrev left_gid : Gid
left_gid = (rmw_get_gid_for_publisher 2 (some publisher) (some left_id) true no_gid).1

abbrev right_gid : Gid
right_gid = (rmw_get_gid_for_publisher 2 (some publisher) (some right_id) true no_gid).1

-- The identifiers differ behind the two bytes that are stored.
rmw_compare_gids_equal-rmw_get_gid_example :
    ((rmw_compare_gids_equal 2 (some left_gid) (some right_gid) true false).0 ≡ ok tt)
    × (((rmw_compare_gids_equal 2 (some left_gid) (some right_gid) true false).1 ≡ true)
        ↔ (take 2 left_id ≡ take 2 right_id))
rmw_compare_gids_equal-rmw_get_gid_example =
    rmw_compare_gids_equal-rmw_get_gid 2 publisher publisher 4 4 left_id right_id no_gid no_gid
      false refl refl refl refl refl refl

-- A heap in which the blocks of a node are in use.
abbrev with_node : Heap
with_node = record { next = 5; limit = 9; used = node_blocks node_handle }

abbrev gave : Heap
gave = (rmw_node_get_graph_guard_condition memory_port suc (some node_handle.1) with_node).1
