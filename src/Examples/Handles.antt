-- ===== src/Examples/Handles.antt =====
-- Runs of the functions that create and destroy handles.

use rmw_iceoryx.Rmw.Handles.Nodes.{rmw_destroy-rmw_create_node}
use rmw_iceoryx.Memory.{allocate, create_in_place}
use rmw_iceoryx.Rmw.Ensure.{rmw_iox2_identifier}
use rmw_iceoryx.Rmw.Handles.{NodeHandle, Pointer, rmw_create_node, rmw_destroy_node}
use rmw_iceoryx.Examples.Heaps.{Heap, memory_port, allocator, heap, own_context}
use rmw_iceoryx.Common.{Bool, List, [], refl, some, true, ℕ, ◌≡◌}

abbrev any_name : List ℕ → Bool
any_name name = true

abbrev pub node_handle : Pointer NodeHandle
node_handle = (
  1,
  record {
    implementation_identifier = rmw_iox2_identifier;
    context = some own_context;
    name = some 2;
    namespace = some 3;
    impl = some 4;
  },
)

-- What the memory of the handle held before.
abbrev garbage : NodeHandle
garbage = record (node_handle.1) { name = some 7; impl = some 8 }

abbrev created_node : Heap
created_node =
    (rmw_create_node memory_port garbage any_name any_name (some own_context) (some []) (some [])
      (heap 9)).1

rmw_destroy-rmw_create_node_example :
    (rmw_destroy_node memory_port (some node_handle) created_node).1.used 3 ≡ (heap 9).used 3
unfolding rmw_create_node allocate create_in_place
rmw_destroy-rmw_create_node_example =
    rmw_destroy-rmw_create_node allocator any_name any_name (some own_context) (some []) (some [])
      (heap 9) garbage node_handle 3 refl

abbrev own_node : NodeHandle
own_node = node_handle.1
