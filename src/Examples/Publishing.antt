-- ===== src/Examples/Publishing.antt =====
-- Runs of the publisher and of what it stands on.
use rmw_iceoryx.Rmw.Publish.Outcomes.{rmw_publish-Publishes, Publishes, at_world}
use rmw_iceoryx.Registry
use rmw_iceoryx.Rmw.Publish.Checks.{publisher_functions_clean}
use rmw_iceoryx.Message.SelfContained.{IsSelfContained, is_pod_iff}
use rmw_iceoryx.Subscriber.{memcpy}
use rmw_iceoryx.Message.{
  FieldTypes, is_pod, serialized_message_size, TypeSupport, members, cons, null_support, nested,
  nil,
}
use rmw_iceoryx.Rmw.Publish.Messages.{rmw_publish-self, rmw_publish_keeps_loan}
use rmw_iceoryx.Publisher.Loans.{
  HasValidLoans, is_loaned, run, step, loans, held, publishes, is_loaned-step, returns, copies,
  LendsFresh, run-HasValidLoans,
}
use rmw_iceoryx.Registry.{SampleRegistry}
use rmw_iceoryx.Registry.Laws.{empty-IsValid}
use rmw_iceoryx.Publisher.{Session, publish_copy, loan, publish_loan}
use rmw_iceoryx.Errors.{RetCode}
use rmw_iceoryx.Rmw.Ensure.{rmw_iox2_identifier, IsCleanAt}
use rmw_iceoryx.Rmw.Serialize.{SerializedMessage, rmw_serialize}
use rmw_iceoryx.Rmw.Publish.{
  PublisherHandle, rmw_borrow_loaned_message, rmw_publish, publish_unserialized,
  rmw_publish_loaned_message, rmw_return_loaned_message_from_publisher,
  rmw_publish_serialized_message, publish_serialized,
}
use rmw_iceoryx.Examples.Ports.{publisher_port, byte_support}
use rmw_iceoryx.Common.{Bool, [], err, false, none, ok, refl, some, true, ◌↔◌, ◌∷◌, ◌≡◌, ℕ}

abbrev pub own_handle : Bool → PublisherHandle
own_handle can_loan = record {
  implementation_identifier = rmw_iox2_identifier;
  impl = some 1;
  topic_name = some 2;
  can_loan_messages = can_loan;
}

abbrev start : Session publisher_port
start = record {
  self = record {
    topic = [];
    typesupport = byte_support;
    unserialized_size = 1;
    service_name = [];
    registry = Registry.empty;
  };
  world = (7, []);
}

start-HasValidLoans : HasValidLoans start
start-HasValidLoans = empty-IsValid (λ s. s)

start-LendsFresh : LendsFresh start
unfolding Registry.retrieve
start-LendsFresh n sample e = refl

abbrev types : FieldTypes
types = record { ros_type_message = 18; ros_type_string = 16 }

-- A wide string, a nested message with an array of three, and a sequence of at most four.
abbrev mixed_support : TypeSupport ℕ
mixed_support = record (byte_support) {
  introspection_cpp = some (
      members 40 (
        cons (record { type_id = 17; is_array = false; array_size = 0; is_upper_bound = false })
          null_support
          (cons (record { type_id = 18; is_array = false; array_size = 0; is_upper_bound = false })
            (nested (
              members 3 (
                cons
                  (record { type_id = 8; is_array = true; array_size = 3; is_upper_bound = false })
                  null_support nil)))
            (cons (record { type_id = 8; is_array = true; array_size = 4; is_upper_bound = true })
              null_support nil))));
}

is_pod_iff_example :
    (is_pod types mixed_support ≡ true) ↔ IsSelfContained types mixed_support.introspection_cpp
is_pod_iff_example = is_pod_iff types mixed_support

run-HasValidLoans_example :
    HasValidLoans (run (loans 1 ∷ publishes 7 ∷ returns 7 ∷ copies [] ∷ []) start)
run-HasValidLoans_example =
    run-HasValidLoans (loans 1 ∷ publishes 7 ∷ returns 7 ∷ copies [] ∷ []) start start-HasValidLoans

is_loaned-step_example : is_loaned (step (loans 1) start) 7 ≡ held (loans 1) start 7
is_loaned-step_example = is_loaned-step (loans 1) start 7 start-HasValidLoans

abbrev empty_buffer : SerializedMessage
empty_buffer = record { buffer = 0 ∷ 0 ∷ []; buffer_length = 0 }

abbrev written_buffer : SerializedMessage
written_buffer = record { buffer = 5 ∷ 0 ∷ []; buffer_length = 1 }

serialized-five : rmw_serialize (some 5) (some byte_support) (some empty_buffer) ≡ ok written_buffer
unfolding rmw_serialize memcpy
serialized-five = refl

publisher_functions_clean_example :
    IsCleanAt start (rmw_publish none (some 5) start)
    × IsCleanAt start (rmw_borrow_loaned_message none none none start)
    × IsCleanAt start (rmw_return_loaned_message_from_publisher none (some 3) start)
    × IsCleanAt start (rmw_publish_loaned_message none (some 3) start)
    × IsCleanAt start (rmw_publish_serialized_message none none start)
publisher_functions_clean_example =
    publisher_functions_clean none (some 5) (some 3) none none none start

rmw_publish-self_example : (rmw_publish (some (own_handle true)) (some 5) start).1.self ≡ start.self
unfolding rmw_publish publish_unserialized publish_copy
rmw_publish-self_example =
    rmw_publish-self (some (own_handle true)) (some 5) start start-LendsFresh refl

-- A message that is not self-contained goes out from address 7.
rmw_publish-Publishes_example :
    (rmw_publish (some (own_handle false)) (some 5) start ≡ (ok tt, at_world start (8, 7 ∷ [])))
    ↔ Publishes start (at_world start (8, 7 ∷ [])) (some (own_handle false)) (some 5)
rmw_publish-Publishes_example =
    rmw_publish-Publishes (some (own_handle false)) (some 5) start (at_world start (8, 7 ∷ []))
      start-LendsFresh

-- And the publication has this outcome.
publishes_from_seven :
    rmw_publish (some (own_handle false)) (some 5) start ≡ (ok tt, at_world start (8, 7 ∷ []))
unfolding rmw_publish publish_serialized loan publish_loan Registry.retrieve Registry.find
    Registry.erase Registry.emplace Registry.store Registry.release rmw_serialize
    serialized_message_size memcpy
publishes_from_seven = refl

abbrev no_callbacks : Session publisher_port
no_callbacks = record start {
  self = record (start.self) { typesupport = record byte_support { fastrtps = none } };
}

rmw_publish_keeps_loan_example :
    ((rmw_publish (some (own_handle false)) (some 5) no_callbacks).0 ≡ err RetCode.error)
    × (is_loaned (rmw_publish (some (own_handle false)) (some 5) no_callbacks).1 7 ≡ true)
unfolding rmw_serialize
rmw_publish_keeps_loan_example =
    rmw_publish_keeps_loan (own_handle false) 5 no_callbacks 7 (8, []) RetCode.error (refl, refl)
      refl refl refl
