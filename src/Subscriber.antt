-- ===== src/Subscriber.antt =====
-- include/rmw_iceoryx2_cxx/impl/runtime/subscriber.hpp and src/impl/runtime/subscriber.cpp. As for
-- the publisher, iceoryx2 is a parameter and an error of it has no content.
pub mod Loans
use rmw_iceoryx.Common.{
  ℕ, Bool, true, false, Option, none, some, List, ◌++◌, length, drop, Exec, ok, err, pure, or_raise,
  or_code, guard, ◌>>=◌, ◌>>◌,
}
use rmw_iceoryx.Errors.{SubscriberError, SampleRegistryError}
use rmw_iceoryx.Message.{TypeSupport}
use rmw_iceoryx.Names
use rmw_iceoryx.Registry
use rmw_iceoryx.Registry.{SampleRegistry}

pub record SubscriberPort : Type 1 where
  pub World : Type 0
  -- a ROS message in memory, and the bytes of that memory
  pub Message : Type 0
  pub memory : Message → List ℕ
  pub from_memory : List ℕ → Message
  pub Sample : Type 0
  -- the payload's address and content
  pub payload : Sample → ℕ
  pub bytes : Sample → List ℕ
  pub create_service_name : List ℕ → Bool
  pub open_or_create_pubsub : List ℕ → World → Bool × World
  pub create_subscriber : List ℕ → World → Bool × World
  -- `none` is an error, `some none` that there is no sample to receive
  pub receive : World → Option (Option Sample) × World
  pub discard : Sample → World → World

-- Writes `src` over the front of the memory at the destination. The source checks no size: more
-- bytes than the destination holds are undefined behaviour there, and lengthen the list here.
unfoldable pub memcpy : List ℕ → List ℕ → List ℕ
memcpy dest src = src ++ drop (length src) dest

pub record SubscriberLoan : Type 0 where
  pub address : ℕ
  pub content : List ℕ

module _ (port : SubscriberPort) where
  open port use {World, Message, Sample, payload}

  pub record Subscriber : Type 0 where
    pub topic : List ℕ
    pub typesupport : TypeSupport Message
    pub service_name : List ℕ
    pub registry : SampleRegistry Sample

  -- One subscriber and the middleware that it talks to.
  pub record Session : Type 0 where
    pub self : Subscriber
    pub open self use *
    pub world : World

  abbrev pub with_registry : Session → SampleRegistry Sample → Session
  with_registry s r = record s { self = record (s.self) { registry = r } }

  abbrev build : {A : Type 0} → (World → A × World) → Exec World SubscriberError A
  build f w = (ok (f w).0, (f w).1)

  -- The constructor, whose `error` is the failure here.
  unfoldable pub construct : List ℕ → TypeSupport Message → Exec World SubscriberError Subscriber
  construct topic type_support = do
    let service_name = Names.topic topic
    guard (port.create_service_name service_name) SubscriberError.service_name_creation_failure
    service ← build (port.open_or_create_pubsub service_name)
    guard service SubscriberError.service_creation_failure
    subscriber ← build (port.create_subscriber service_name)
    guard subscriber SubscriberError.subscriber_creation_failure
    pure (record {
      topic = topic;
      typesupport = type_support;
      service_name = service_name;
      registry = Registry.empty;
    })

module _ {port : SubscriberPort} where
  open port use {World, Sample, payload}

  abbrev receive : Exec (Session port) SubscriberError (Option Sample)
  receive s =
      or_raise (port.receive s.world).0 SubscriberError.recv_failure
        (record s { world = (port.receive s.world).1 })

  abbrev discard_sample : Sample → Exec (Session port) SubscriberError (Unit {0})
  discard_sample sample s = (ok tt, record s { world = port.discard sample s.world })

  abbrev store_sample : Sample → Exec (Session port) SubscriberError ℕ
  store_sample sample s = (
    ok (Registry.store payload sample s.registry).0,
    with_registry port s (Registry.store payload sample s.registry).1,
  )

  abbrev release_sample : ℕ → Exec (Session port) SampleRegistryError Sample
  release_sample p s =
      ((Registry.release p s.registry).0, with_registry port s (Registry.release p s.registry).1)

  -- The memory at `dest` and whether there was a sample, which ends with the scope.
  abbrev copied : List ℕ → Option Sample → Exec (Session port) SubscriberError (Bool × List ℕ)
  copied dest none = pure (false, dest)
  copied dest (some sample) = do discard_sample sample; pure (true, memcpy dest (port.bytes sample))

  unfoldable pub take_copy : List ℕ → Exec (Session port) SubscriberError (Bool × List ℕ)
  take_copy dest = do sample ← receive; copied dest sample

  abbrev lent : Option Sample → Exec (Session port) SubscriberError (Option SubscriberLoan)
  lent none = pure none
  lent (some sample) = do
    store_sample sample
    pure (some (record { address = payload sample; content = port.bytes sample }))

  unfoldable pub take_loan : Exec (Session port) SubscriberError (Option SubscriberLoan)
  take_loan = do sample ← receive; lent sample

  unfoldable pub return_loan : ℕ → Exec (Session port) SubscriberError (Unit {0})
  return_loan loaned_memory = do
    sample ← or_code (release_sample loaned_memory) SubscriberError.invalid_payload
    discard_sample sample
