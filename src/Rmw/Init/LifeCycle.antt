-- ===== src/Rmw/Init/LifeCycle.antt =====
-- A context from its initialization to its end.

use rmw_iceoryx.Memory.{MemoryPort, allocate, create_in_place}
use rmw_iceoryx.Rmw.Init.{
  InitOptions, Process, create_context, rmw_init, rmw_shutdown, rmw_context_fini, RetCode,
  rmw_get_zero_initialized_context,
}
use rmw_iceoryx.Common.{Bool, List, Option, arith, ok, true, ℕ, ◌>>◌, ◌≡◌, Expected, err}

module _ {port : MemoryPort} (strdup : List ℕ → port.World → Option (List ℕ) × port.World) where
  abbrev pub end_of : Process port → Expected RetCode (Unit {0}) × Process port
  end_of s = (rmw_shutdown true >> rmw_context_fini true) s

  -- After a successful rmw_init, rmw_shutdown and rmw_context_fini succeed and lead back to the
  -- zero-initialized context.
  pub rmw_context_fini-rmw_init :
      (o : Option InitOptions) (given : Bool) (s : Process port)
      → (rmw_init strdup o given s).0 ≡ ok tt
      → ((end_of (rmw_init strdup o given s).1).0 ≡ ok tt)
        × ((end_of (rmw_init strdup o given s).1).1.context ≡ rmw_get_zero_initialized_context)
  unfolding rmw_init create_context allocate create_in_place rmw_shutdown rmw_context_fini
  rmw_context_fini-rmw_init o given s e = ground (arith, e)

  -- After an rmw_init that returned RMW_RET_ERROR, every further rmw_init of the context is refused
  -- as an invalid argument, until rmw_context_fini makes the context zero-initialized again.
  pub rmw_init_refuses_retry :
      (o o' : Option InitOptions) (given given' : Bool) (s : Process port)
      → (rmw_init strdup o given s).0 ≡ err RetCode.error
      → (rmw_init strdup o' given' (rmw_init strdup o given s).1
          ≡ (err RetCode.invalid_argument, (rmw_init strdup o given s).1))
        × ((rmw_context_fini true (rmw_init strdup o given s).1).0 ≡ ok tt)
        × ((rmw_context_fini true (rmw_init strdup o given s).1).1.context
            ≡ rmw_get_zero_initialized_context)
  unfolding rmw_init create_context allocate create_in_place rmw_context_fini
  rmw_init_refuses_retry o o' given given' s e = ground (arith, e)

  -- A context that was shut down is refused by another initialization, and stays as it is under
  -- another shutdown.
  pub rmw_shutdown_twice :
      (o : Option InitOptions) (given : Bool) (s : Process port)
      → (rmw_shutdown true s).0 ≡ ok tt
      → (rmw_shutdown true (rmw_shutdown true s).1 ≡ rmw_shutdown true s)
        × (rmw_init strdup o given (rmw_shutdown true s).1
            ≡ (err RetCode.invalid_argument, (rmw_shutdown true s).1))
  unfolding rmw_init rmw_shutdown
  rmw_shutdown_twice o given s e = ground (arith, e)
