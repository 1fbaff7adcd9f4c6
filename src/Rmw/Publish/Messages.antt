-- ===== src/Rmw/Publish/Messages.antt =====
-- What the publisher functions send, and what they leave of their loans.
use rmw_iceoryx.Registry.Laws.{retrieve-store}
use rmw_iceoryx.Rmw.Ensure.{is_own}
use rmw_iceoryx.Rmw.Publish.{
  PublisherHandle, rmw_publish, publish_serialized, SerializedMessage, rmw_serialize, loaned_buffer,
  publish_unserialized, rmw_borrow_loaned_message, rmw_publish_loaned_message,
  rmw_return_loaned_message_from_publisher,
}
use rmw_iceoryx.Common.{
  ◌>>=◌, ◌≡◌, ok, err, ℕ, some, true, false, is_some, arith, report, eq_refl, take, Option,
  Option-cases, inl, inr, none,
}
use rmw_iceoryx.Errors.{RetCode}
use rmw_iceoryx.Message.{serialized_message_size, TypeSupport, message_size}
use rmw_iceoryx.Publisher.{PublisherPort, Session, loan, publish_loan, publish_copy, return_loan}
use rmw_iceoryx.Publisher.Loans.{is_loaned, deliver, LendsFresh}
use rmw_iceoryx.Registry

-- A handle that this implementation made, with its `Publisher` in place.
abbrev pub IsOwnHandle : PublisherHandle → Type 0
IsOwnHandle h = (is_own h.implementation_identifier ≡ true) × (is_some h.impl ≡ true)

module _ {port : PublisherPort} where
  open port use {World, Message, Sample, payload}

  -- What `publish_serialized` asks for.
  abbrev pub wanted : Message → Session port → ℕ
  wanted m s = serialized_message_size m (some s.typesupport)

  -- A message that is not self-contained is serialized into a loan made for it, that loan is sent,
  -- the subscribers are notified, and the registry is as before.
  pub rmw_publish-serialized :
      (h : PublisherHandle) (m : Message) (s : Session port) (sample : Sample) (w : World)
      (serialized : SerializedMessage)
      → IsOwnHandle h
      → h.can_loan_messages ≡ false
      → port.loan_slice_uninit (wanted m s) s.world ≡ (some sample, w)
      → is_loaned s (payload sample) ≡ false
      → rmw_serialize (some m) (some s.typesupport) (some (loaned_buffer (wanted m s)))
        ≡ ok serialized
      → rmw_publish (some h) (some m) s
        ≡ report RetCode.error (
            deliver sample (record s {
              world =
                  port.write (payload sample) (take serialized.buffer_length serialized.buffer) w;
            }))
  unfolding rmw_publish publish_serialized loan publish_loan Registry.retrieve Registry.store
      Registry.release
  rmw_publish-serialized h m s sample w serialized own plain e f g =
      ground (arith, eq_refl (payload sample))

  -- If the serialization of a message fails, rmw_publish returns RMW_RET_ERROR and the loan made
  -- for it stays in the registry.
  pub rmw_publish_keeps_loan :
      (h : PublisherHandle) (m : Message) (s : Session port) (sample : Sample) (w : World)
      (c : RetCode)
      → IsOwnHandle h
      → h.can_loan_messages ≡ false
      → port.loan_slice_uninit (wanted m s) s.world ≡ (some sample, w)
      → rmw_serialize (some m) (some s.typesupport) (some (loaned_buffer (wanted m s))) ≡ err c
      → ((rmw_publish (some h) (some m) s).0 ≡ err RetCode.error)
        × (is_loaned (rmw_publish (some h) (some m) s).1 (payload sample) ≡ true)
  unfolding rmw_publish publish_serialized loan
  rmw_publish_keeps_loan h m s sample w c own plain e g =
      ground
        (arith, eq_refl (payload sample), retrieve-store payload sample s.registry (payload sample))

  publish_unserialized-self :
      (m : Message) (s : Session port) → (publish_unserialized m s).1.self ≡ s.self
  unfolding publish_unserialized publish_copy
  publish_unserialized-self m s = ground arith

  publish_serialized-self :
      (m : Message) (s : Session port)
      → LendsFresh s
      → (publish_serialized m s).0 ≡ ok tt
      → (publish_serialized m s).1.self ≡ s.self
  unfolding publish_serialized loan publish_loan Registry.retrieve Registry.store Registry.release
  publish_serialized-self m s fresh e =
      elim (Option-cases (port.loan_slice_uninit (wanted m s) s.world).0) [
        | inl f ↦ absurd (ground (arith, e, f))
        | inr (sample, f) ↦
            ground (arith, e, f, fresh (wanted m s) sample f, eq_refl (payload sample))
      ]

  -- A publication that succeeds leaves the publisher and its registry as before, whichever way the
  -- message went and whatever the arguments, if iceoryx2 lends no address that is held.
  pub rmw_publish-self :
      (h : Option PublisherHandle) (msg : Option Message) (s : Session port)
      → LendsFresh s
      → (rmw_publish h msg s).0 ≡ ok tt
      → (rmw_publish h msg s).1.self ≡ s.self
  unfolding rmw_publish
  rmw_publish-self none msg s fresh e = absurd (cc)
  rmw_publish-self (some h) none s fresh e = ground arith
  rmw_publish-self (some h) (some m) s fresh e =
      ground (arith, publish_unserialized-self m s, publish_serialized-self m s fresh)

  module _ (h : PublisherHandle) (ts : TypeSupport Message) (s : Session port) (sample : Sample)
      (w : World) (own : IsOwnHandle h) (can_loan : h.can_loan_messages ≡ true)
      (lent : port.loan_slice_uninit (message_size s.typesupport) s.world ≡ (some sample, w))
      (fresh : is_loaned s (payload sample) ≡ false) where
    -- A borrowed message that is published: the borrowed sample is sent and the subscribers are
    -- notified, with the registry as before.
    pub rmw_borrow-rmw_publish_loaned :
        (rmw_borrow_loaned_message (some h) (some ts) (some none) >>= λ p.
        rmw_publish_loaned_message (some h) (some p))
          s
        ≡ report RetCode.error (deliver sample (record s { world = w }))
    unfolding rmw_borrow_loaned_message rmw_publish_loaned_message loan publish_loan
        Registry.retrieve Registry.store Registry.release
    rmw_borrow-rmw_publish_loaned = ground (arith, eq_refl (payload sample))

    -- A borrowed message that is returned goes back to iceoryx2, with the registry as before.
    pub rmw_borrow-rmw_return :
        (rmw_borrow_loaned_message (some h) (some ts) (some none) >>= λ p.
        rmw_return_loaned_message_from_publisher (some h) (some p))
          s
        ≡ (ok tt, record s { world = port.drop sample w })
    unfolding rmw_borrow_loaned_message rmw_return_loaned_message_from_publisher loan return_loan
        Registry.retrieve Registry.store Registry.release
    rmw_borrow-rmw_return = ground (arith, eq_refl (payload sample))
