-- ===== src/Rmw/Take/Outcomes.antt =====
-- What a take that succeeds gives to the caller, and that it succeeds whenever iceoryx2 and rosidl
-- grant it: rmw_take of src/rmw/subscription.cpp.
use rmw_iceoryx.Common.{
  Bool, ◌≡◌, ◌↔◌, ok, none, some, true, false, arith, eq_refl, Option, Option-cases, Expected-cases,
  Bool-cases, inl, inr, ap,
}
use rmw_iceoryx.Registry
use rmw_iceoryx.Subscriber.{SubscriberPort, take_loan, take_copy, return_loan, memcpy}
use rmw_iceoryx.Rmw.Take.{SubscriptionHandle, Caller, take_unserialized, take_serialized, rmw_take}
use rmw_iceoryx.Rmw.Take.Messages.{IsOwnHandle, at_world, parse, DeliversFresh}

module _ {port : SubscriberPort} where
  open port use {World, Message, Sample}

  -- The sample that was received gives the message, which is in its first bytes.
  pub data TakesCopy (c d : Caller port) : Type 0 where
    no_copy :
        (w : World)
        → port.receive c.session.world ≡ (some none, w)
        → d ≡ record (at_world c w) {
          ros_message = port.from_memory (port.memory c.ros_message);
          taken = false;
        }
        → TakesCopy c d
    copy :
        (sample : Sample) (w : World)
        → port.receive c.session.world ≡ (some (some sample), w)
        → d ≡ record (at_world c (port.discard sample w)) {
          ros_message = port.from_memory (memcpy (port.memory c.ros_message) (port.bytes sample));
          taken = true;
        }
        → TakesCopy c d

  -- The sample that was received gives the message that is serialized in it.
  pub data TakesSerialized (c d : Caller port) : Type 0 where
    no_sample :
        (w : World)
        → port.receive c.session.world ≡ (some none, w)
        → d ≡ record (at_world c w) { taken = false }
        → TakesSerialized c d
    sample :
        (a : Sample) (w : World) (m : Message)
        → port.receive c.session.world ≡ (some (some a), w)
        → parse c a ≡ ok m
        → d ≡ record (at_world c (port.discard a w)) { ros_message = m; taken = true }
        → TakesSerialized c d

  pub data Takes (c d : Caller port) : Option SubscriptionHandle → Bool → Bool → Type 0 where
    as_bytes :
        (h : SubscriptionHandle)
        → IsOwnHandle h
        → h.can_loan_messages ≡ true
        → TakesCopy c d
        → Takes c d (some h) true true
    as_message :
        (h : SubscriptionHandle)
        → IsOwnHandle h
        → h.can_loan_messages ≡ false
        → TakesSerialized c d
        → Takes c d (some h) true true

  take_unserialized-TakesCopy :
      (c d : Caller port) → take_unserialized c ≡ (ok tt, d) → TakesCopy c d
  unfolding take_unserialized take_copy
  take_unserialized-TakesCopy c d e = elim (Option-cases (port.receive c.session.world).0) [
    | inl fails ↦ absurd (ground (arith, e, fails))
    | inr (none, f) ↦
        no_copy (port.receive c.session.world).1 (ground (arith, f)) (ground (arith, e, f))
    | inr (some a, f) ↦
        copy a (port.receive c.session.world).1 (ground (arith, f)) (ground (arith, e, f))
  ]

  TakesCopy-take_unserialized :
      (c d : Caller port) → TakesCopy c d → take_unserialized c ≡ (ok tt, d)
  unfolding take_unserialized take_copy
  TakesCopy-take_unserialized c d (no_copy w f e) = ground (arith, f, e)
  TakesCopy-take_unserialized c d (copy a w f e) = ground (arith, f, e)

  take_serialized-TakesSerialized :
      (c d : Caller port)
      → DeliversFresh c.session
      → take_serialized c ≡ (ok tt, d)
      → TakesSerialized c d
  unfolding take_serialized take_loan return_loan Registry.retrieve Registry.store Registry.release
  take_serialized-TakesSerialized c d fresh e =
      elim (Option-cases (port.receive c.session.world).0) [
        | inl fails ↦ absurd (ground (arith, e, fails))
        | inr (none, f) ↦
            no_sample (port.receive c.session.world).1 (ground (arith, f)) (ground (arith, e, f))
        | inr (some a, f) ↦ elim (Expected-cases (parse c a)) [
          | inr (code, fails) ↦ absurd (ground (arith, e, f, fails))
          | inl (m, parsed) ↦
              sample a (port.receive c.session.world).1 m (ground (arith, f)) parsed
                (ground (arith, e, f, parsed, fresh a f, eq_refl (port.payload a)))
        ]
      ]

  TakesSerialized-take_serialized :
      (c d : Caller port)
      → DeliversFresh c.session
      → TakesSerialized c d
      → take_serialized c ≡ (ok tt, d)
  unfolding take_serialized take_loan return_loan Registry.retrieve Registry.store Registry.release
  TakesSerialized-take_serialized c d fresh (no_sample w f e) = ground (arith, f, e)
  TakesSerialized-take_serialized c d fresh (sample a w m f parsed e) =
      ground (arith, f, parsed, e, fresh a (ap (λ r. r.0) f), eq_refl (port.payload a))

  rmw_take-IsOwnHandle :
      (h : SubscriptionHandle) (c d : Caller port)
      → rmw_take (some h) true true c ≡ (ok tt, d)
      → IsOwnHandle h
  unfolding rmw_take
  rmw_take-IsOwnHandle h c d e = (ground (arith, e), ground (arith, e))

  own_handle-Takes :
      (h : SubscriptionHandle) (c d : Caller port)
      → DeliversFresh c.session
      → IsOwnHandle h
      → rmw_take (some h) true true c ≡ (ok tt, d)
      → Takes c d (some h) true true
  unfolding rmw_take
  own_handle-Takes h c d fresh own e = elim (Bool-cases h.can_loan_messages) [
    | inl loans ↦
        as_bytes h own loans (take_unserialized-TakesCopy c d (ground (arith, e, own, loans)))
    | inr plain ↦
        as_message h own plain
          (take_serialized-TakesSerialized c d fresh (ground (arith, e, own, plain)))
  ]

  rmw_take-to :
      (h : Option SubscriptionHandle) (has_message has_taken : Bool) (c d : Caller port)
      → DeliversFresh c.session
      → rmw_take h has_message has_taken c ≡ (ok tt, d)
      → Takes c d h has_message has_taken
  unfolding rmw_take
  rmw_take-to none has_message has_taken c d fresh e = absurd (cc)
  rmw_take-to (some h) false has_taken c d fresh e = absurd (ground (arith, e))
  rmw_take-to (some h) true false c d fresh e = absurd (ground (arith, e))
  rmw_take-to (some h) true true c d fresh e =
      own_handle-Takes h c d fresh (rmw_take-IsOwnHandle h c d e) e

  rmw_take-from :
      (h : Option SubscriptionHandle) (has_message has_taken : Bool) (c d : Caller port)
      → DeliversFresh c.session
      → Takes c d h has_message has_taken
      → rmw_take h has_message has_taken c ≡ (ok tt, d)
  unfolding rmw_take
  rmw_take-from _ _ _ c d fresh (as_bytes h own loans p) =
      ground (arith, own, loans, TakesCopy-take_unserialized c d p)
  rmw_take-from _ _ _ c d fresh (as_message h own plain p) =
      ground (arith, own, plain, TakesSerialized-take_serialized c d fresh p)

  -- rmw_take returns RMW_RET_OK exactly if the handle is of this implementation and in place, the
  -- pointers of the caller are given, iceoryx2 receives, and a sample of a message that is not
  -- self-contained can be deserialized. The caller then has the message of the sample and *taken is
  -- true, or *taken is false if there is none; the sample is given back, and of the subscriber
  -- nothing has changed, if iceoryx2 delivers at no address that is held.
  pub rmw_take-Takes :
      (h : Option SubscriptionHandle) (has_message has_taken : Bool) (c d : Caller port)
      → DeliversFresh c.session
      → (rmw_take h has_message has_taken c ≡ (ok tt, d)) ↔ Takes c d h has_message has_taken
  rmw_take-Takes h has_message has_taken c d fresh = (
    rmw_take-to h has_message has_taken c d fresh,
    rmw_take-from h has_message has_taken c d fresh,
  )
