-- ===== src/Rmw/Wait.antt =====
-- src/rmw/waitset.cpp: `rmw_wait`. An array of handles is a list of the implementations' addresses,
-- in which `none` is null; an absent array is a null pointer to it. The implementation at an
-- address is known by the name of its service. A wait has its answer, the arrays as it leaves them.
pub mod Entries
pub mod Reports
pub mod Serving
pub mod Mappings
pub mod Listening
pub mod Wakes
pub mod Sharing
pub mod Shared
use rmw_iceoryx.WaitSet.Waiting.{TriggeredWaitable, wait}
use rmw_iceoryx.WaitSet.{
  WaitSetPort, WaitableEntity, Session, same_entity, unmap_all, guard_condition, map_waitable,
  subscriber,
}
use rmw_iceoryx.Rmw.Ensure.{Identifier, ensure_not_null, ensure_implementation, unsafe_cast}
use rmw_iceoryx.Common.{
  Bool, Exec, Expected, List, Option, [], err, false, if◌then◌else◌, length, lift, map, none, ok,
  pure, replicate, some, suc, true, ℕ, ◌&&◌, ◌*◌, ◌+◌, ◌==◌, ◌>>=◌, ◌>>◌, ◌||◌, ◌∷◌, or_code, guard,
}
use mathlib.Core.Option
use rmw_iceoryx.Errors.{RetCode}

-- `rmw_time_t`
pub record Time : Type 0 where
  pub sec : ℕ
  pub nsec : ℕ

abbrev pub to_nanoseconds : Time → ℕ
to_nanoseconds t = t.sec * 1000000000 + t.nsec

pub record WaitSetHandle : Type 0 where
  pub implementation_identifier : Identifier
  pub impl : Option ℕ

abbrev pub Handles : Type 0
Handles = Option (List (Option ℕ))

-- The arrays, which a caller passes with its pointers and finds changed afterwards.
pub record Arrays : Type 0 where
  pub subscribers : Handles
  pub guard_conditions : Handles
  pub services : Handles
  pub clients : Handles
  pub events : Handles

-- One wait set, and the arrays of the call.
pub record Waiter (port : WaitSetPort) : Type 0 where
  pub session : Session port
  pub arrays : Arrays

-- No entry of the array is null.
unfoldable pub has_no_null : List (Option ℕ) → Bool
has_no_null [] = true
has_no_null (none ∷ hs) = false
has_no_null (some p ∷ hs) = has_no_null hs

abbrev pub all_given : Handles → Bool
all_given none = true
all_given (some hs) = has_no_null hs

unfoldable pub is_triggered : WaitableEntity → ℕ → List TriggeredWaitable → Bool
is_triggered e i [] = false
is_triggered e i (t ∷ ts) =
    (same_entity t.waitable_type e && t.rmw_index == i) || is_triggered e i ts

-- The entries from `index` on, with those that were not triggered set to null.
unfoldable pub null_others :
    WaitableEntity → List TriggeredWaitable → ℕ → List (Option ℕ) → List (Option ℕ)
null_others e ts index [] = []
null_others e ts index (h ∷ hs) =
    (if is_triggered e index ts then h else none) ∷ null_others e ts (suc index) hs

abbrev pub null_all : List (Option ℕ) → List (Option ℕ)
null_all hs = replicate (length hs) none

-- Only a wait with some trigger changes the subscribers and the guard conditions.
unfoldable pub after_wait : List TriggeredWaitable → Arrays → Arrays
after_wait [] a = record a {
  services = Option.map null_all a.services;
  clients = Option.map null_all a.clients;
  events = Option.map null_all a.events;
}
after_wait (t ∷ ts) a = record {
  subscribers = Option.map (null_others subscriber (t ∷ ts) 0) a.subscribers;
  guard_conditions = Option.map (null_others guard_condition (t ∷ ts) 0) a.guard_conditions;
  services = Option.map null_all a.services;
  clients = Option.map null_all a.clients;
  events = Option.map null_all a.events;
}

abbrev pub code_of : List TriggeredWaitable → Expected RetCode (Unit {0})
code_of [] = err RetCode.timeout
code_of (t ∷ ts) = ok tt

module _ {port : WaitSetPort} where
  abbrev on_session :
      {E A : Type 0} → (Session port → Expected E A × Session port) → Exec (Waiter port) E A
  on_session f v = ((f v.session).0, record v { session = (f v.session).1 })

  -- The entries from `index` on are mapped to their indices.
  unfoldable pub map_handles :
      (ℕ → List ℕ) → WaitableEntity → ℕ → List (Option ℕ) → Exec (Session port) RetCode (Unit {0})
  map_handles service_name e index [] s = (ok tt, s)
  map_handles service_name e index (h ∷ hs) s =
      (do
        impl ← or_code (lift (unsafe_cast h)) RetCode.error
        or_code (map_waitable e index (service_name impl)) RetCode.error
        map_handles service_name e (suc index) hs)
        s

  abbrev pub map_array :
      (ℕ → List ℕ) → WaitableEntity → Handles → Exec (Session port) RetCode (Unit {0})
  map_array service_name e none = pure tt
  map_array service_name e (some hs) = map_handles service_name e 0 hs

  abbrev pub finish : List TriggeredWaitable → Exec (Waiter port) RetCode (Unit {0})
  finish ts v =
      (code_of ts, record { session = unmap_all v.session; arrays = after_wait ts v.arrays })

  unfoldable pub map_guard_conditions : (ℕ → List ℕ) → Exec (Waiter port) RetCode (Unit {0})
  map_guard_conditions service_name v =
      on_session (map_array service_name guard_condition v.arrays.guard_conditions) v

  unfoldable pub map_subscriptions : (ℕ → List ℕ) → Exec (Waiter port) RetCode (Unit {0})
  map_subscriptions service_name v =
      on_session (map_array service_name subscriber v.arrays.subscribers) v

  unfoldable pub wait_and_finish : Option Time → Exec (Waiter port) RetCode (Unit {0})
  wait_and_finish wait_timeout = do
    triggers ← or_code (on_session (wait (Option.map to_nanoseconds wait_timeout))) RetCode.error
    finish triggers

  -- What follows the checks.
  unfoldable pub wait_on : (ℕ → List ℕ) → Option Time → Exec (Waiter port) RetCode (Unit {0})
  wait_on service_name wait_timeout = do
    map_guard_conditions service_name
    map_subscriptions service_name
    wait_and_finish wait_timeout

  unfoldable pub rmw_wait :
      (ℕ → List ℕ) → Option WaitSetHandle → Option Time → Exec (Waiter port) RetCode (Unit {0})
  rmw_wait service_name rmw_wait_set wait_timeout v =
      (do
        handle ← ensure_not_null rmw_wait_set RetCode.invalid_argument
        ensure_implementation handle.implementation_identifier RetCode.incorrect_rmw_implementation
        guard (all_given v.arrays.guard_conditions) RetCode.invalid_argument
        guard (all_given v.arrays.subscribers) RetCode.invalid_argument
        impl ← or_code (lift (unsafe_cast handle.impl)) RetCode.error
        wait_on service_name wait_timeout)
        v
