-- ===== src/Rmw/Take.antt =====
-- src/rmw/subscription.cpp: the functions on an existing subscription. The handle's `data` is the
-- address of the `Subscriber` of the session.
pub mod Checks
pub mod Messages
pub mod Outcomes
use rmw_iceoryx.Common.{
  Bool, Exec, Option, false, if◌then◌else◌, is_some, length, lift, ltb, none, not, ok, or_raise,
  pure, raise, some, true, ℕ, ◌==◌, ◌>>=◌, ◌>>◌, ◌||◌, guard, or_code,
}
use rmw_iceoryx.Errors.{RetCode, SubscriberError}
use rmw_iceoryx.Message.{TypeSupport}
use rmw_iceoryx.Subscriber.{
  SubscriberPort, SubscriberLoan, Session, take_copy, take_loan, return_loan, memcpy,
}
use rmw_iceoryx.Rmw.Ensure.{
  Identifier, ensure_not_null, ensure_null, ensure_implementation, ensure_can_loan, unsafe_cast,
}
use rmw_iceoryx.Rmw.Serialize.{SerializedMessage, rmw_deserialize}

-- `rmw_subscription_t`
pub record SubscriptionHandle : Type 0 where
  pub implementation_identifier : Identifier
  pub impl : Option ℕ
  pub topic_name : Option ℕ
  pub can_loan_messages : Bool

-- The subscriber, and the caller's memory that the functions write to: `*ros_message`, `*taken`,
-- `*loaned_message` and `*serialized_message`.
pub record Caller (port : SubscriberPort) : Type 0 where
  pub session : Session port
  pub ros_message : port.Message
  pub taken : Bool
  pub loaned_message : Option ℕ
  pub serialized_message : SerializedMessage

abbrev pub received_buffer : SubscriberLoan → SerializedMessage
received_buffer loan = record { buffer = loan.content; buffer_length = length loan.content }

module _ {port : SubscriberPort} where
  open port use {Message}

  abbrev pub on_session : {E A : Type 0} → Exec (Session port) E A → Exec (Caller port) E A
  on_session m c = ((m c.session).0, record c { session = (m c.session).1 })

  abbrev set_taken : Bool → Exec (Caller port) RetCode (Unit {0})
  set_taken b c = (ok tt, record c { taken = b })

  abbrev set_ros_message : Message → Exec (Caller port) RetCode (Unit {0})
  set_ros_message m c = (ok tt, record c { ros_message = m })

  abbrev set_loaned_message : ℕ → Exec (Caller port) RetCode (Unit {0})
  set_loaned_message p c = (ok tt, record c { loaned_message = some p })

  abbrev set_serialized_message : SerializedMessage → Exec (Caller port) RetCode (Unit {0})
  set_serialized_message m c = (ok tt, record c { serialized_message = m })

  abbrev subscription_of : Option SubscriptionHandle → Exec (Caller port) RetCode SubscriptionHandle
  subscription_of rmw_subscription = do
    p ← ensure_not_null rmw_subscription RetCode.invalid_argument
    ensure_implementation p.implementation_identifier RetCode.incorrect_rmw_implementation
    pure p

  abbrev impl_of : SubscriptionHandle → Exec (Caller port) RetCode ℕ
  impl_of p = or_code (lift (unsafe_cast p.impl)) RetCode.error

  -- Self-contained: the payload's bytes are the message.
  unfoldable pub take_unserialized : Exec (Caller port) RetCode (Unit {0})
  take_unserialized c =
      (do
        r ← or_code (on_session (take_copy (port.memory c.ros_message))) RetCode.error
        set_ros_message (port.from_memory r.1)
        set_taken r.0)
        c

  abbrev deserialized : Option SubscriberLoan → Exec (Caller port) RetCode (Unit {0})
  deserialized none c = (ok tt, c)
  deserialized (some loan) c =
      (do
        m ←
            or_code
              (lift (
                rmw_deserialize (some (received_buffer loan)) (some c.session.typesupport)
                  (some c.ros_message)))
              RetCode.error
        set_ros_message m
        or_code (on_session (return_loan loan.address)) RetCode.error)
        c

  -- Not self-contained: the payload is deserialized into the message.
  unfoldable pub take_serialized : Exec (Caller port) RetCode (Unit {0})
  take_serialized = do
    sample ← or_code (on_session take_loan) RetCode.error
    set_taken (is_some sample)
    deserialized sample

  -- The flags say whether `ros_message` and `taken` are not null.
  unfoldable pub rmw_take :
      Option SubscriptionHandle → Bool → Bool → Exec (Caller port) RetCode (Unit {0})
  rmw_take rmw_subscription has_message has_taken = do
    p ← subscription_of rmw_subscription
    guard has_message RetCode.invalid_argument
    guard has_taken RetCode.invalid_argument
    impl_of p
    if p.can_loan_messages then take_unserialized else take_serialized

  unfoldable pub rmw_take_with_info :
      Option SubscriptionHandle → Bool → Bool → Bool → Exec (Caller port) RetCode (Unit {0})
  rmw_take_with_info rmw_subscription has_message has_taken has_info = do
    p ← ensure_not_null rmw_subscription RetCode.invalid_argument
    guard has_message RetCode.invalid_argument
    guard has_taken RetCode.invalid_argument
    guard has_info RetCode.invalid_argument
    ensure_implementation p.implementation_identifier RetCode.incorrect_rmw_implementation
    rmw_take rmw_subscription has_message has_taken

  abbrev lent_to_caller : Option SubscriberLoan → Exec (Caller port) RetCode (Unit {0})
  lent_to_caller none = set_taken false
  lent_to_caller (some loan) = do set_loaned_message loan.address; set_taken true

  abbrev target_is_null : Exec (Caller port) RetCode (Unit {0})
  target_is_null c = ensure_null c.loaned_message RetCode.invalid_argument c

  unfoldable pub rmw_take_loaned_message :
      Option SubscriptionHandle → Bool → Bool → Exec (Caller port) RetCode (Unit {0})
  rmw_take_loaned_message rmw_subscription has_loaned has_taken = do
    p ← subscription_of rmw_subscription
    ensure_can_loan p.can_loan_messages RetCode.unsupported
    guard has_taken RetCode.invalid_argument
    guard has_loaned RetCode.invalid_argument
    target_is_null
    guard p.can_loan_messages RetCode.invalid_argument
    guard p.can_loan_messages RetCode.unsupported
    impl_of p
    payload ← or_code (on_session take_loan) RetCode.error
    lent_to_caller payload

  unfoldable pub rmw_take_loaned_message_with_info :
      Option SubscriptionHandle → Bool → Bool → Exec (Caller port) RetCode (Unit {0})
  rmw_take_loaned_message_with_info rmw_subscription has_loaned has_taken = do
    p ← subscription_of rmw_subscription
    ensure_can_loan p.can_loan_messages RetCode.unsupported
    guard has_taken RetCode.invalid_argument
    rmw_take_loaned_message rmw_subscription has_loaned has_taken

  unfoldable pub rmw_return_loaned_message_from_subscription :
      Option SubscriptionHandle → Option ℕ → Exec (Caller port) RetCode (Unit {0})
  rmw_return_loaned_message_from_subscription rmw_subscription loaned_message = do
    p ← subscription_of rmw_subscription
    ensure_can_loan p.can_loan_messages RetCode.unsupported
    address ← ensure_not_null loaned_message RetCode.invalid_argument
    guard p.can_loan_messages RetCode.invalid_argument
    impl_of p
    or_code (on_session (return_loan address)) RetCode.error

  -- `rmw_serialized_message_resize` is the rmw library's, a parameter.
  abbrev stored_serialized :
      (SerializedMessage → ℕ → Option SerializedMessage)
      → Option SubscriberLoan
      → Exec (Caller port) RetCode (Unit {0})
  stored_serialized resize none c = (ok tt, c)
  stored_serialized resize (some loan) c =
      (do
        m ← or_raise (resize c.serialized_message (length loan.content)) RetCode.error
        set_serialized_message
            (record { buffer = memcpy m.buffer loan.content; buffer_length = m.buffer_length })
        or_code (on_session (return_loan loan.address)) RetCode.error)
        c

  unfoldable pub rmw_take_serialized_message :
      (SerializedMessage → ℕ → Option SerializedMessage)
      → Option SubscriptionHandle
      → Bool
      → Bool
      → Exec (Caller port) RetCode (Unit {0})
  rmw_take_serialized_message resize rmw_subscription has_serialized has_taken = do
    p ← subscription_of rmw_subscription
    guard has_serialized RetCode.invalid_argument
    guard has_taken RetCode.invalid_argument
    impl_of p
    sample ← or_code (on_session take_loan) RetCode.error
    set_taken (is_some sample)
    stored_serialized resize sample

  -- The capacities of the two sequences, which may be null.
  unfoldable pub rmw_take_sequence :
      Option SubscriptionHandle
      → ℕ
      → Option ℕ
      → Option ℕ
      → Bool
      → Exec (Caller port) RetCode (Unit {0})
  rmw_take_sequence rmw_subscription count messages infos has_taken = do
    p ← subscription_of rmw_subscription
    message_capacity ← ensure_not_null messages RetCode.invalid_argument
    info_capacity ← ensure_not_null infos RetCode.invalid_argument
    guard has_taken RetCode.invalid_argument
    guard (not (count == 0 || ltb message_capacity count || ltb info_capacity count))
        RetCode.invalid_argument
    raise RetCode.unsupported

  unfoldable pub rmw_take_serialized_message_with_info :
      Option SubscriptionHandle → Bool → Bool → Bool → Exec (Caller port) RetCode (Unit {0})
  rmw_take_serialized_message_with_info rmw_subscription has_serialized has_taken has_info = do
    p ← subscription_of rmw_subscription
    guard has_serialized RetCode.invalid_argument
    guard has_taken RetCode.invalid_argument
    guard has_info RetCode.invalid_argument
    raise RetCode.unsupported

  unfoldable pub rmw_subscription_count_matched_publishers :
      Option SubscriptionHandle → Bool → Exec (Caller port) RetCode (Unit {0})
  rmw_subscription_count_matched_publishers rmw_subscription has_count = do
    p ← subscription_of rmw_subscription
    guard has_count RetCode.invalid_argument
    raise RetCode.unsupported

  -- `*qos` becomes the default profile, a constant of the rmw library, which is returned here.
  unfoldable pub rmw_subscription_get_actual_qos :
      {Qos : Type 0} → Qos → Option SubscriptionHandle → Option Qos → Exec (Caller port) RetCode Qos
  rmw_subscription_get_actual_qos rmw_qos_profile_default rmw_subscription qos = do
    subscription_of rmw_subscription
    ensure_not_null qos RetCode.invalid_argument
    pure rmw_qos_profile_default

  -- The functions that do nothing else, from `rmw_take_dynamic_message` to
  -- `rmw_subscription_get_network_flow_endpoints`.
  unfoldable pub unsupported_subscription_function : Exec (Caller port) RetCode (Unit {0})
  unsupported_subscription_function = raise RetCode.unsupported
