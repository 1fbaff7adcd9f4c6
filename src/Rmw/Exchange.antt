-- ===== src/Rmw/Exchange.antt =====
-- A publisher and a subscription over one middleware: src/rmw/publisher.cpp with
-- src/rmw/subscription.cpp. What iceoryx2 carries from one to the other is the record `Channel`,
-- and what rosidl reads of what it wrote is the record `Carries`.
pub mod Delivery
pub mod Loaned
use rmw_iceoryx.Common.{◌≡◌, ok, Expected, List, false, length, ltb, none, some, true, ℕ, ◌++◌}
use rmw_iceoryx.Errors.{RetCode}
use rmw_iceoryx.Message.{Callbacks, TypeSupport}
use rmw_iceoryx.Publisher.{PublisherPort}
use rmw_iceoryx.Subscriber.{SubscriberPort, memcpy}
use rmw_iceoryx.Rmw.Take.{Caller}

-- A sample with the payload is the next to be received.
abbrev pub IsWaiting : (q : SubscriberPort) → List ℕ → q.World → Type 0
IsWaiting q bytes v =
    (sample : q.Sample) × ((q.receive v).0 ≡ some (some sample)) × (q.bytes sample ≡ bytes)

-- What iceoryx2 documents of a publisher and a subscriber of one service: a sample that is sent
-- while none waits is received, with the bytes that were written and what follows them in the loan.
pub record Channel (p : PublisherPort) (q : SubscriberPort) : Type 0 where
  -- the middleware as the subscriber finds it
  pub view : p.World → q.World
  pub carries_loan :
      (n : ℕ) (bytes : List ℕ) (sample : p.Sample) (w w' : p.World)
      → p.loan_slice_uninit n w ≡ (some sample, w')
      → ltb n (length bytes) ≡ false
      → (q.receive (view w)).0 ≡ some none
      → (p.send sample (p.write (p.payload sample) bytes w')).0 ≡ true
      → (rest : List ℕ) × IsWaiting q
          (bytes ++ rest)
          (view (p.notify (p.send sample (p.write (p.payload sample) bytes w')).1).1)
  pub carries_copy :
      (bytes : List ℕ) (w : p.World)
      → (q.receive (view w)).0 ≡ some none
      → (p.send_slice_copy bytes w).0 ≡ true
      → IsWaiting q bytes (view (p.notify (p.send_slice_copy bytes w).1).1)

-- `m` is `m'` for the subscriber: their type supports, the serialization of `m`, which fits its
-- buffer and is read back as `m'` whatever follows it, and the bytes of `m` in memory.
pub record Carries (p : PublisherPort) (q : SubscriberPort) (ts : TypeSupport p.Message)
    (us : TypeSupport q.Message) (size : ℕ) (m : p.Message) (m' : q.Message) : Type 0 where
  pub writer : Callbacks p.Message
  pub reader : Callbacks q.Message
  pub of_writer : ts.fastrtps ≡ some (some writer)
  pub of_reader : us.fastrtps ≡ some (some reader)
  pub fits :
      (n : ℕ) (bytes : List ℕ)
      → writer.cdr_serialize m n ≡ some bytes
      → ltb n (length bytes) ≡ false
  pub reads :
      (n : ℕ) (bytes rest : List ℕ)
      → writer.cdr_serialize m n ≡ some bytes
      → reader.cdr_deserialize (bytes ++ rest) ≡ some m'
  pub copies : (old : q.Message) → q.from_memory (memcpy (q.memory old) (p.image m size)) ≡ m'

-- What the caller of rmw_take finds.
abbrev pub IsTaken :
    {q : SubscriberPort} → q.Message → Caller q → Expected RetCode (Unit {0}) × Caller q → Type 0
IsTaken m c r =
    (r.0 ≡ ok tt) × (r.1.ros_message ≡ m) × (r.1.taken ≡ true) × (r.1.session.self ≡ c.session.self)
