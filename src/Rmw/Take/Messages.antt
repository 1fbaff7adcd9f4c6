-- ===== src/Rmw/Take/Messages.antt =====
-- What the subscription functions give to the caller, and what they leave of their loans.
use rmw_iceoryx.Common.{
  Bool, Expected, Option, Option-cases, arith, err, false, inl, inr, is_some, length, none, ok,
  some, true, ℕ, ◌>>=◌, ◌≡◌, eq_refl,
}
use rmw_iceoryx.Errors.{RetCode}
use rmw_iceoryx.Registry
use rmw_iceoryx.Registry.Laws.{retrieve-store}
use rmw_iceoryx.Subscriber.{SubscriberPort, Session, take_loan, take_copy, return_loan, memcpy}
use rmw_iceoryx.Subscriber.Loans.{is_loaned}
use rmw_iceoryx.Rmw.Ensure.{is_own}
use rmw_iceoryx.Rmw.Serialize.{SerializedMessage, rmw_deserialize}
use rmw_iceoryx.Rmw.Take.{
  SubscriptionHandle, Caller, received_buffer, take_unserialized, take_serialized, rmw_take,
  rmw_take_loaned_message, rmw_return_loaned_message_from_subscription, rmw_take_serialized_message,
}

-- A handle that this implementation made, with its `Subscriber` in place.
abbrev pub IsOwnHandle : SubscriptionHandle → Type 0
IsOwnHandle h = (is_own h.implementation_identifier ≡ true) × (is_some h.impl ≡ true)

module _ {port : SubscriberPort} where
  open port use {World, Message, Sample, payload}

  -- The caller after the middleware has gone on to `w`.
  abbrev pub at_world : Caller port → World → Caller port
  at_world c w = record c { session = record (c.session) { world = w } }

  abbrev pub parse : Caller port → Sample → Expected RetCode Message
  parse c sample =
      rmw_deserialize
        (some (received_buffer (record { address = payload sample; content = port.bytes sample })))
        (some c.session.typesupport) (some c.ros_message)

  -- iceoryx2 delivers at no address that the application holds.
  abbrev pub DeliversFresh : Session port → Type 0
  DeliversFresh s =
      (sample : Sample)
      → (port.receive s.world).0 ≡ some (some sample)
      → is_loaned s (payload sample) ≡ false

  -- With nothing to receive, `*taken` is false and nothing else of the caller's changes.
  pub rmw_take_nothing :
      (h : SubscriptionHandle) (c : Caller port) (w : World)
      → IsOwnHandle h
      → h.can_loan_messages ≡ false
      → port.receive c.session.world ≡ (some none, w)
      → rmw_take (some h) true true c ≡ (ok tt, record (at_world c w) { taken = false })
  unfolding rmw_take take_serialized take_loan
  rmw_take_nothing h c w own plain e = ground arith

  -- A received sample of a message that is not self-contained is deserialized into the message,
  -- *taken is true, and the sample goes back to iceoryx2 with the registry as before.
  pub rmw_take-deserialized :
      (h : SubscriptionHandle) (c : Caller port) (sample : Sample) (w : World) (m : Message)
      → IsOwnHandle h
      → h.can_loan_messages ≡ false
      → port.receive c.session.world ≡ (some (some sample), w)
      → is_loaned c.session (payload sample) ≡ false
      → parse c sample ≡ ok m
      → rmw_take (some h) true true c
        ≡ (ok tt, record (at_world c (port.discard sample w)) { ros_message = m; taken = true })
  unfolding rmw_take take_serialized take_loan return_loan Registry.retrieve Registry.store
      Registry.release
  rmw_take-deserialized h c sample w m own plain e f g = ground (arith, eq_refl (payload sample))

  -- If the deserialization fails, the sample stays in the registry, although `*taken` is true.
  pub rmw_take_keeps_loan :
      (h : SubscriptionHandle) (c : Caller port) (sample : Sample) (w : World) (code : RetCode)
      → IsOwnHandle h
      → h.can_loan_messages ≡ false
      → port.receive c.session.world ≡ (some (some sample), w)
      → parse c sample ≡ err code
      → ((rmw_take (some h) true true c).0 ≡ err RetCode.error)
        × ((rmw_take (some h) true true c).1.taken ≡ true)
        × (is_loaned (rmw_take (some h) true true c).1.session (payload sample) ≡ true)
  unfolding rmw_take take_serialized take_loan
  rmw_take_keeps_loan h c sample w code own plain e g = ground (
    arith,
    eq_refl (payload sample),
    retrieve-store payload sample c.session.registry (payload sample),
  )

  take_unserialized-self : (c : Caller port) → (take_unserialized c).1.session.self ≡ c.session.self
  unfolding take_unserialized take_copy
  take_unserialized-self c = ground arith

  take_serialized-self :
      (c : Caller port)
      → DeliversFresh c.session
      → (take_serialized c).0 ≡ ok tt
      → (take_serialized c).1.session.self ≡ c.session.self
  unfolding take_serialized take_loan return_loan Registry.retrieve Registry.store Registry.release
  take_serialized-self c fresh e = elim (Option-cases (port.receive c.session.world).0) [
    | inl f ↦ absurd (ground (arith, e, f))
    | inr (none, f) ↦ ground (arith, e, f)
    | inr (some sample, f) ↦ ground (arith, e, f, fresh sample f, eq_refl (payload sample))
  ]

  -- A take that succeeds leaves no loan behind and takes none away, whichever way the message came
  -- and whatever its arguments.
  pub rmw_take-self :
      (h : Option SubscriptionHandle) (m t : Bool) (c : Caller port)
      → DeliversFresh c.session
      → (rmw_take h m t c).0 ≡ ok tt
      → (rmw_take h m t c).1.session.self ≡ c.session.self
  unfolding rmw_take
  rmw_take-self none m t c fresh e = absurd (cc)
  rmw_take-self (some h) m t c fresh e =
      ground (arith, take_unserialized-self c, take_serialized-self c fresh)

  -- A loaned message that is taken and returned: the caller gets the payload's address, and the
  -- sample goes back to iceoryx2, with the registry as before.
  pub rmw_take_loaned-rmw_return :
      (h : SubscriptionHandle) (c : Caller port) (sample : Sample) (w : World)
      → IsOwnHandle h
      → h.can_loan_messages ≡ true
      → c.loaned_message ≡ none
      → port.receive c.session.world ≡ (some (some sample), w)
      → is_loaned c.session (payload sample) ≡ false
      → (rmw_take_loaned_message (some h) true true >>= λ _.
            rmw_return_loaned_message_from_subscription (some h) (some (payload sample)))
          c
        ≡ (
          ok tt,
          record (at_world c (port.discard sample w)) {
            taken = true;
            loaned_message = some (payload sample);
          },
        )
  unfolding rmw_take_loaned_message rmw_return_loaned_message_from_subscription take_loan
      return_loan Registry.retrieve Registry.store Registry.release
  rmw_take_loaned-rmw_return h c sample w own can_loan empty e f =
      ground (arith, eq_refl (payload sample))

  -- A serialized message that is taken keeps the length in use that the resize left, however many
  -- bytes were received.
  pub rmw_take_serialized_length :
      (resize : SerializedMessage → ℕ → Option SerializedMessage) (h : SubscriptionHandle)
      (c : Caller port) (sample : Sample) (w : World) (m : SerializedMessage)
      → IsOwnHandle h
      → port.receive c.session.world ≡ (some (some sample), w)
      → resize c.serialized_message (length (port.bytes sample)) ≡ some m
      → (rmw_take_serialized_message resize (some h) true true c).1.serialized_message
        ≡ record { buffer = memcpy m.buffer (port.bytes sample); buffer_length = m.buffer_length }
  unfolding rmw_take_serialized_message take_loan
  rmw_take_serialized_length resize h c sample w m own e f = ground arith
