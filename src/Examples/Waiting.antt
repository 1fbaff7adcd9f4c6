-- ===== src/Examples/Waiting.antt =====
-- Runs of the wait set.

use rmw_iceoryx.Rmw.Wait.Shared.{rmw_wait_nulls_second}
use rmw_iceoryx.Rmw.Wait.Entries.{entry}
use rmw_iceoryx.Rmw.Wait.Reports.{HasReady, rmw_wait-HasReady, rmw_wait_timeout, IsTimedOut}
use rmw_iceoryx.Errors.{WaitSetError, RetCode}
use rmw_iceoryx.WaitSet.{
  Session, RmwMapping, map_waitable, subscriber, find_listener, name_eq, is_mapped,
  get_storage_index, or_create, create_listener, emplace_back, map_stored_listener,
}
use rmw_iceoryx.WaitSet.Mapping.{IsValid}
use rmw_iceoryx.WaitSet.Waiting.{
  wait, wait_mapped, wait_attached, attach_timeout, attach_mapped_listeners, attach_mapped_listener,
  wait_and_process, process_events, on_event, handle_attachment, find_attachment, process_trigger,
  leave,
}
use rmw_iceoryx.Rmw.Ensure.{rmw_iox2_identifier}
use rmw_iceoryx.Rmw.Wait.{
  Arrays, Waiter, WaitSetHandle, rmw_wait, wait_on, wait_and_finish, map_guard_conditions,
  map_subscriptions, map_handles, has_no_null,
}
use rmw_iceoryx.Rmw.Wait.Mappings.{rmw_wait-IsValid, rmw_wait_keeps_mapping}
use rmw_iceoryx.Examples.Ports.{wait_set_port}
use rmw_iceoryx.Common.{List, Option, [], arith, none, refl, some, ℕ, ◌∷◌, ◌≡◌, err, true}

abbrev topic_one : List ℕ
topic_one = 1 ∷ []

abbrev first_mapping : RmwMapping
first_mapping = record { waitable_type = subscriber; storage_index = 0; rmw_index = 4 }

-- One subscription is stored and mapped.
abbrev mapped : (reported : Option (List ℕ)) → Session (wait_set_port reported)
mapped reported = record {
  self = record {
    guard_condition_listeners = [];
    subscriber_listeners = record { service_name = topic_one; listener = topic_one } ∷ [];
    mapping = first_mapping ∷ [];
  };
  world = 0;
}

abbrev unmapped : (reported : Option (List ℕ)) → Session (wait_set_port reported)
unmapped reported = record (mapped reported) {
  self = record ((mapped reported).self) { mapping = [] };
}

abbrev reported_first : Option (List ℕ)
reported_first = some (9 ∷ 0 ∷ [])

mapped-drains : (l : List ℕ) (w : ℕ) → ((wait_set_port reported_first).try_wait_all l w).0 ≡ true
mapped-drains l w = refl

abbrev own_wait_set : WaitSetHandle
own_wait_set = record { implementation_identifier = rmw_iox2_identifier; impl = some 1 }

-- Two subscriptions and a guard condition, of three services.
abbrev given : Arrays
given = record {
  subscribers = some (some 21 ∷ some 22 ∷ []);
  guard_conditions = some (some 23 ∷ []);
  services = some (some 24 ∷ []);
  clients = none;
  events = none;
}

abbrev service_name : ℕ → List ℕ
service_name p = p ∷ []

abbrev waiter : (reported : Option (List ℕ)) → Waiter (wait_set_port reported)
waiter reported = record { session = unmapped reported; arrays = given }

unmapped-IsValid : (reported : Option (List ℕ)) → IsValid (unmapped reported).self
unmapped-IsValid reported = record { in_range = tt; distinct = tt }

rmw_wait-IsValid_example :
    IsValid (rmw_wait service_name (some own_wait_set) none (waiter reported_first)).1.session.self
rmw_wait-IsValid_example =
    rmw_wait-IsValid service_name (some own_wait_set) none (waiter reported_first)
      (unmapped-IsValid reported_first)

rmw_wait-HasReady_example :
    HasReady (rmw_wait service_name (some own_wait_set) none (waiter reported_first)).1.arrays
unfolding rmw_wait wait_on wait_and_finish map_guard_conditions map_subscriptions map_handles
    has_no_null map_waitable get_storage_index or_create create_listener emplace_back find_listener
    name_eq is_mapped map_stored_listener wait wait_mapped wait_attached attach_timeout
    attach_mapped_listeners attach_mapped_listener wait_and_process process_events on_event
    handle_attachment find_attachment process_trigger leave
rmw_wait-HasReady_example =
    rmw_wait-HasReady service_name (some own_wait_set) none (waiter reported_first) refl refl

rmw_wait_timeout_example :
    IsTimedOut given (rmw_wait service_name (some own_wait_set) none (waiter (some []))).1.arrays
    × ((rmw_wait service_name (some own_wait_set) none (waiter (some []))).1.session.mapping ≡ [])
unfolding rmw_wait wait_on wait_and_finish map_guard_conditions map_subscriptions map_handles
    has_no_null map_waitable get_storage_index or_create create_listener emplace_back find_listener
    name_eq is_mapped map_stored_listener wait wait_mapped wait_attached attach_timeout
    attach_mapped_listeners attach_mapped_listener wait_and_process process_events leave
rmw_wait_timeout_example =
    rmw_wait_timeout service_name (some own_wait_set) none (waiter (some [])) refl

abbrev guards_mapped : Waiter (wait_set_port none)
guards_mapped = (map_guard_conditions service_name (waiter none)).1

abbrev all_mapped : Waiter (wait_set_port none)
all_mapped = (map_subscriptions service_name guards_mapped).1

rmw_wait_keeps_mapping_example :
    ((rmw_wait service_name (some own_wait_set) none (waiter none)).0 ≡ err RetCode.error)
    × ((rmw_wait service_name (some own_wait_set) none (waiter none)).1.session.mapping
        ≡ all_mapped.session.mapping)
unfolding map_guard_conditions map_subscriptions map_handles has_no_null map_waitable
    get_storage_index or_create create_listener emplace_back find_listener name_eq is_mapped
    map_stored_listener wait wait_mapped wait_attached attach_timeout attach_mapped_listeners
    attach_mapped_listener wait_and_process leave
rmw_wait_keeps_mapping_example =
    rmw_wait_keeps_mapping service_name own_wait_set 1 none (waiter none) guards_mapped all_mapped
      WaitSetError.wait_failure refl refl refl refl refl refl refl

-- The two subscriptions, on one topic.
abbrev one_topic : ℕ → List ℕ
one_topic p = topic_one

rmw_wait_nulls_second_example :
    entry subscriber
      (rmw_wait one_topic (some own_wait_set) none (waiter reported_first)).1.arrays
      1
    ≡ some (some none)
unfolding rmw_wait wait_on wait_and_finish map_guard_conditions map_subscriptions map_handles
    has_no_null map_waitable get_storage_index or_create create_listener emplace_back find_listener
    name_eq is_mapped map_stored_listener wait wait_mapped wait_attached attach_timeout
    attach_mapped_listeners attach_mapped_listener wait_and_process process_events on_event
    handle_attachment find_attachment process_trigger leave
rmw_wait_nulls_second_example =
    rmw_wait_nulls_second one_topic subscriber 0 1 21 22 (omega arith) refl (waiter reported_first)
      refl refl mapped-drains (some own_wait_set) none refl refl
