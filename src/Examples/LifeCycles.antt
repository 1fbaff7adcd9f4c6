-- ===== src/Examples/LifeCycles.antt =====
-- Runs of the initialization and the shutdown of a context.
use rmw_iceoryx.Errors.{RetCode}
use rmw_iceoryx.Memory.{allocate, create_in_place}
use rmw_iceoryx.Rmw.Ensure.{rmw_iox2_identifier}
use rmw_iceoryx.Rmw.Init.{
  InitOptions, Process, create_context, rmw_init, rmw_context_fini,
  rmw_get_zero_initialized_context,
}
use rmw_iceoryx.Rmw.Init.LifeCycle.{end_of, rmw_context_fini-rmw_init, rmw_init_refuses_retry}
use rmw_iceoryx.Examples.Heaps.{Heap, memory_port, heap}
use rmw_iceoryx.Common.{List, Option, [], err, ok, refl, some, true, ℕ, ◌≡◌}

abbrev copy : List ℕ → Heap → Option (List ℕ) × Heap
copy text w = (some text, w)

abbrev options : InitOptions
options = record {
  implementation_identifier = rmw_iox2_identifier;
  has_valid_allocator = true;
  instance_id = 0;
  enclave = some [];
  impl = some 1;
}

abbrev fresh : ℕ → Process memory_port
fresh limit = record { context = rmw_get_zero_initialized_context; world = heap limit }

rmw_context_fini-rmw_init_example :
    ((end_of copy (rmw_init copy (some options) true (fresh 9)).1).0 ≡ ok tt)
    × ((end_of copy (rmw_init copy (some options) true (fresh 9)).1).1.context
        ≡ rmw_get_zero_initialized_context)
unfolding rmw_init create_context allocate create_in_place
rmw_context_fini-rmw_init_example =
    rmw_context_fini-rmw_init copy (some options) true (fresh 9) refl

rmw_init_refuses_retry_example :
    (rmw_init copy (some options) true (rmw_init copy (some options) true (fresh 1)).1
      ≡ (err RetCode.invalid_argument, (rmw_init copy (some options) true (fresh 1)).1))
    × ((rmw_context_fini true (rmw_init copy (some options) true (fresh 1)).1).0 ≡ ok tt)
    × ((rmw_context_fini true (rmw_init copy (some options) true (fresh 1)).1).1.context
        ≡ rmw_get_zero_initialized_context)
unfolding rmw_init create_context allocate create_in_place
rmw_init_refuses_retry_example =
    rmw_init_refuses_retry copy (some options) (some options) true true (fresh 1) refl
