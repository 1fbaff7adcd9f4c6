-- ===== src/Examples/Taking.antt =====
-- Runs of the subscriber.
use rmw_iceoryx.Rmw.Take.Outcomes.{rmw_take-Takes, Takes}
use rmw_iceoryx.Registry
use rmw_iceoryx.Rmw.Take.Messages.{DeliversFresh, at_world}
use rmw_iceoryx.Subscriber.{Session, take_loan, return_loan}
use rmw_iceoryx.Rmw.Ensure.{rmw_iox2_identifier, IsCleanAt}
use rmw_iceoryx.Rmw.Serialize.{SerializedMessage, rmw_deserialize}
use rmw_iceoryx.Rmw.Take.{
  SubscriptionHandle, Caller, rmw_take, rmw_take_with_info, rmw_take_loaned_message,
  rmw_return_loaned_message_from_subscription, rmw_take_serialized_message, rmw_take_sequence,
  rmw_take_loaned_message_with_info, rmw_take_serialized_message_with_info, take_serialized,
}
use rmw_iceoryx.Rmw.Take.Checks.{subscription_functions_clean}
use rmw_iceoryx.Examples.Ports.{subscriber_port, byte_support}
use rmw_iceoryx.Common.{
  Bool, Option, [], false, none, ok, refl, replicate, some, true, ℕ, ◌∷◌, ◌≡◌, ◌↔◌,
}

abbrev pub own_subscription : Bool → SubscriptionHandle
own_subscription can_loan = record {
  implementation_identifier = rmw_iox2_identifier;
  impl = some 1;
  topic_name = some 2;
  can_loan_messages = can_loan;
}

-- One sample of two bytes is waiting.
abbrev waiting : Session subscriber_port
waiting = record {
  self = record {
    topic = [];
    typesupport = byte_support;
    service_name = [];
    registry = Registry.empty;
  };
  world = (7, 5 ∷ 6 ∷ []) ∷ [];
}

abbrev pub caller : Caller subscriber_port
caller = record {
  session = waiting;
  ros_message = 0;
  taken = false;
  loaned_message = none;
  serialized_message = record { buffer = 0 ∷ []; buffer_length = 0 };
}

caller-DeliversFresh : DeliversFresh caller.session
unfolding Registry.retrieve Registry.find
caller-DeliversFresh sample e = refl

abbrev loaning : Option SubscriptionHandle
loaning = some (own_subscription true)

subscription_functions_clean_example :
    IsCleanAt caller (rmw_take loaning false true caller)
    × IsCleanAt caller (rmw_take_with_info loaning false true true caller)
    × IsCleanAt caller (rmw_take_sequence loaning 1 (some 1) (some 0) true caller)
    × IsCleanAt caller (rmw_take_loaned_message loaning false true caller)
    × IsCleanAt caller (rmw_take_loaned_message_with_info loaning false true caller)
    × IsCleanAt caller (rmw_return_loaned_message_from_subscription loaning (some 7) caller)
    × IsCleanAt caller (rmw_take_serialized_message (λ m n. none) loaning false true caller)
    × IsCleanAt caller (rmw_take_serialized_message_with_info loaning false true true caller)
subscription_functions_clean_example =
    subscription_functions_clean loaning false true true false (some 7) (λ m n. none) 1 (some 1)
      (some 0) caller

-- The message is deserialized from the sample that is waiting.
abbrev five_taken : Caller subscriber_port
five_taken = record (at_world caller []) { ros_message = 5; taken = true }

rmw_take-Takes_example :
    (rmw_take (some (own_subscription false)) true true caller ≡ (ok tt, five_taken))
    ↔ Takes caller five_taken (some (own_subscription false)) true true
rmw_take-Takes_example =
    rmw_take-Takes (some (own_subscription false)) true true caller five_taken caller-DeliversFresh

-- And the take has this outcome.
takes_five : rmw_take (some (own_subscription false)) true true caller ≡ (ok tt, five_taken)
unfolding rmw_take take_serialized take_loan return_loan Registry.retrieve Registry.find
    Registry.erase Registry.emplace Registry.store Registry.release rmw_deserialize
takes_five = refl

-- The resize of rcutils: it keeps the bytes that fit, and the length in use if it still fits.
abbrev resized : SerializedMessage → ℕ → Option SerializedMessage
resized m n = some (record { buffer = replicate n 0; buffer_length = m.buffer_length })
