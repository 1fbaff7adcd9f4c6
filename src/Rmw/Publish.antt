-- ===== src/Rmw/Publish.antt =====
-- src/rmw/publisher.cpp: the functions on an existing publisher. The handle's `data` is the address
-- of the `Publisher` of the session.
pub mod Checks
pub mod Messages
pub mod Outcomes
use rmw_iceoryx.Common.{
  ℕ, Bool, Option, none, some, List, Exec, Expected, ok, err, pure, raise, or_raise, or_code, lift,
  guard, ◌>>=◌, ◌>>◌, if◌then◌else◌, replicate, take,
}
use rmw_iceoryx.Errors.{RetCode, PublisherError}
use rmw_iceoryx.Message.{TypeSupport, message_size, serialized_message_size}
use rmw_iceoryx.Publisher.{PublisherPort, Session, loan, return_loan, publish_loan, publish_copy}
use rmw_iceoryx.Rmw.Ensure.{
  Identifier, ensure_not_null, ensure_null, ensure_implementation, ensure_can_loan, unsafe_cast,
}
use rmw_iceoryx.Rmw.Serialize.{SerializedMessage, rmw_serialize}

-- `rmw_publisher_t`
pub record PublisherHandle : Type 0 where
  pub implementation_identifier : Identifier
  pub impl : Option ℕ
  pub topic_name : Option ℕ
  pub can_loan_messages : Bool

-- The loaned memory as a buffer. Its content is not initialised: zeros here.
abbrev pub loaned_buffer : ℕ → SerializedMessage
loaned_buffer size = record { buffer = replicate size 0; buffer_length = size }

module _ {port : PublisherPort} where
  open port use {Message}

  -- The checks that begin with the publisher, and the `Publisher` that its `data` points to.
  abbrev publisher_of : Option PublisherHandle → Exec (Session port) RetCode PublisherHandle
  publisher_of rmw_publisher = do
    p ← ensure_not_null rmw_publisher RetCode.invalid_argument
    ensure_implementation p.implementation_identifier RetCode.incorrect_rmw_implementation
    pure p

  abbrev impl_of : PublisherHandle → Exec (Session port) RetCode ℕ
  impl_of p = or_code (lift (unsafe_cast p.impl)) RetCode.error

  -- Self-contained: the message's bytes are the payload.
  unfoldable pub publish_unserialized : Message → Exec (Session port) RetCode (Unit {0})
  publish_unserialized m s =
      or_code (publish_copy (port.image m s.unserialized_size)) RetCode.error s

  abbrev write_loan : ℕ → SerializedMessage → Exec (Session port) RetCode (Unit {0})
  write_loan address m s =
      (ok tt, record s { world = port.write address (take m.buffer_length m.buffer) s.world })

  -- Not self-contained: the message is serialized into a loan.
  unfoldable pub publish_serialized : Message → Exec (Session port) RetCode (Unit {0})
  publish_serialized m s =
      (do
        let size = serialized_message_size m (some s.typesupport)
        address ← or_code (loan size) RetCode.error
        serialized ←
            or_code (lift (rmw_serialize (some m) (some s.typesupport) (some (loaned_buffer size))))
              RetCode.error
        write_loan address serialized
        or_code (publish_loan address) RetCode.error)
        s

  unfoldable pub rmw_publish :
      Option PublisherHandle → Option Message → Exec (Session port) RetCode (Unit {0})
  rmw_publish rmw_publisher ros_message = do
    p ← publisher_of rmw_publisher
    m ← ensure_not_null ros_message RetCode.invalid_argument
    impl_of p
    if p.can_loan_messages then publish_unserialized m else publish_serialized m

  -- `*ros_message`, which has to be null, becomes the address that is returned here.
  unfoldable pub rmw_borrow_loaned_message :
      Option PublisherHandle
      → Option (TypeSupport Message)
      → Option (Option ℕ)
      → Exec (Session port) RetCode ℕ
  rmw_borrow_loaned_message rmw_publisher type_support ros_message s =
      (do
        p ← ensure_not_null rmw_publisher RetCode.invalid_argument
        ensure_not_null p.impl RetCode.invalid_argument
        ensure_implementation p.implementation_identifier RetCode.incorrect_rmw_implementation
        ensure_not_null type_support RetCode.invalid_argument
        target ← ensure_not_null ros_message RetCode.invalid_argument
        ensure_null target RetCode.invalid_argument
        guard p.can_loan_messages RetCode.invalid_argument
        impl_of p
        or_code (loan (message_size s.typesupport)) RetCode.error)
        s

  unfoldable pub rmw_return_loaned_message_from_publisher :
      Option PublisherHandle → Option ℕ → Exec (Session port) RetCode (Unit {0})
  rmw_return_loaned_message_from_publisher rmw_publisher loaned_message = do
    p ← ensure_not_null rmw_publisher RetCode.invalid_argument
    address ← ensure_not_null loaned_message RetCode.invalid_argument
    ensure_implementation p.implementation_identifier RetCode.incorrect_rmw_implementation
    guard p.can_loan_messages RetCode.invalid_argument
    impl_of p
    or_code (return_loan address) RetCode.error

  unfoldable pub rmw_publish_loaned_message :
      Option PublisherHandle → Option ℕ → Exec (Session port) RetCode (Unit {0})
  rmw_publish_loaned_message rmw_publisher ros_message = do
    p ← publisher_of rmw_publisher
    address ← ensure_not_null ros_message RetCode.invalid_argument
    impl_of p
    or_code (publish_loan address) RetCode.error

  unfoldable pub rmw_publish_serialized_message :
      Option PublisherHandle → Option SerializedMessage → Exec (Session port) RetCode (Unit {0})
  rmw_publish_serialized_message rmw_publisher serialized_message = do
    p ← publisher_of rmw_publisher
    m ← ensure_not_null serialized_message RetCode.invalid_argument
    impl_of p
    or_code (publish_copy (take m.buffer_length m.buffer)) RetCode.error

  -- `*qos` becomes the default profile, a constant of the rmw library, which is returned here.
  unfoldable pub rmw_publisher_get_actual_qos :
      {Qos : Type 0} → Qos → Option PublisherHandle → Option Qos → Exec (Session port) RetCode Qos
  rmw_publisher_get_actual_qos rmw_qos_profile_default rmw_publisher qos = do
    publisher_of rmw_publisher
    ensure_not_null qos RetCode.invalid_argument
    pure rmw_qos_profile_default

  unfoldable pub rmw_publisher_count_matched_subscriptions :
      Option PublisherHandle → Option ℕ → Exec (Session port) RetCode (Unit {0})
  rmw_publisher_count_matched_subscriptions rmw_publisher subscription_count = do
    p ← ensure_not_null rmw_publisher RetCode.invalid_argument
    ensure_not_null subscription_count RetCode.invalid_argument
    ensure_implementation p.implementation_identifier RetCode.incorrect_rmw_implementation
    raise RetCode.unsupported

  -- The functions that do nothing else, from `rmw_get_serialized_message_size` to
  -- `rmw_publisher_get_network_flow_endpoints`.
  unfoldable pub unsupported_publisher_function : Exec (Session port) RetCode (Unit {0})
  unsupported_publisher_function = raise RetCode.unsupported
