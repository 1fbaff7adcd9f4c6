-- ===== src/Publisher.antt =====
-- include/rmw_iceoryx2_cxx/impl/runtime/publisher.hpp and src/impl/runtime/publisher.cpp. iceoryx2
-- is a parameter: `PublisherPort` has the calls that the class makes of it, each from the state of
-- the middleware to its answer and the next state. An answer `false` or `none` is an error, whose
-- kind goes only into a log text. Destructors of samples are explicit (`drop`).
pub mod Loans
pub mod Ledger
use rmw_iceoryx.Common.{
  ℕ, Bool, Option, List, Exec, ok, pure, or_raise, or_code, guard, ◌>>=◌, ◌>>◌,
}
use rmw_iceoryx.Errors.{PublisherError, SampleRegistryError}
use rmw_iceoryx.Message.{TypeSupport, message_size}
use rmw_iceoryx.Names
use rmw_iceoryx.Registry
use rmw_iceoryx.Registry.{SampleRegistry}

pub record PublisherPort : Type 1 where
  pub World : Type 0
  -- a ROS message in memory, and its first bytes
  pub Message : Type 0
  pub image : Message → ℕ → List ℕ
  -- `SampleMutUninit`
  pub Sample : Type 0
  pub payload : Sample → ℕ
  -- `ServiceName::create` and the builders, by the service's name
  pub create_service_name : List ℕ → Bool
  pub open_or_create_pubsub : List ℕ → World → Bool × World
  pub create_publisher : List ℕ → ℕ → World → Bool × World
  pub open_or_create_event : List ℕ → World → Bool × World
  pub create_notifier : List ℕ → World → Bool × World
  -- the ports `m_iox2_publisher` and `m_iox2_notifier`
  pub loan_slice_uninit : ℕ → World → Option Sample × World
  pub send : Sample → World → Bool × World
  pub send_slice_copy : List ℕ → World → Bool × World
  pub notify : World → Bool × World
  pub drop : Sample → World → World
  -- a write of bytes to the loaned memory at an address
  pub write : ℕ → List ℕ → World → World

module _ (port : PublisherPort) where
  open port use {World, Message, Sample}

  pub record Publisher : Type 0 where
    pub topic : List ℕ
    pub typesupport : TypeSupport Message
    pub unserialized_size : ℕ
    pub service_name : List ℕ
    pub registry : SampleRegistry Sample

  -- One publisher and the middleware that it talks to.
  pub record Session : Type 0 where
    pub self : Publisher
    pub open self use *
    pub world : World

  abbrev pub with_registry : Session → SampleRegistry Sample → Session
  with_registry s r = record s { self = record (s.self) { registry = r } }

module _ {port : PublisherPort} where
  open port use {World, Sample, payload}

  abbrev call : {E A : Type 0} → (World → A × World) → Exec (Session port) E A
  call f s = (ok (f s.world).0, record s { world = (f s.world).1 })

  abbrev store_sample : Sample → Exec (Session port) PublisherError ℕ
  store_sample sample s = (
    ok (Registry.store payload sample s.registry).0,
    with_registry port s (Registry.store payload sample s.registry).1,
  )

  abbrev release_sample : ℕ → Exec (Session port) SampleRegistryError Sample
  release_sample p s =
      ((Registry.release p s.registry).0, with_registry port s (Registry.release p s.registry).1)

  abbrev drop_sample : Sample → Exec (Session port) PublisherError (Unit {0})
  drop_sample sample s = (ok tt, record s { world = port.drop sample s.world })

  unfoldable pub loan : ℕ → Exec (Session port) PublisherError ℕ
  loan number_of_bytes = do
    answer ← call (port.loan_slice_uninit number_of_bytes)
    sample ← or_raise answer PublisherError.loan_failure
    store_sample sample

  -- The released sample goes out of scope, which gives it back to iceoryx2.
  unfoldable pub return_loan : ℕ → Exec (Session port) PublisherError (Unit {0})
  return_loan loaned_memory = do
    sample ← or_code (release_sample loaned_memory) PublisherError.invalid_payload
    drop_sample sample

  unfoldable pub publish_loan : ℕ → Exec (Session port) PublisherError (Unit {0})
  publish_loan loaned_memory = do
    sample ← or_code (release_sample loaned_memory) PublisherError.invalid_payload
    sent ← call (port.send sample)
    guard sent PublisherError.send_failure
    notified ← call port.notify
    guard notified PublisherError.notification_failure

  unfoldable pub publish_copy : List ℕ → Exec (Session port) PublisherError (Unit {0})
  publish_copy payload_bytes = do
    sent ← call (port.send_slice_copy payload_bytes)
    guard sent PublisherError.send_failure
    notified ← call port.notify
    guard notified PublisherError.notification_failure

module _ (port : PublisherPort) where
  open port use {World, Message}

  abbrev build : {A : Type 0} → (World → A × World) → Exec World PublisherError A
  build f w = (ok (f w).0, (f w).1)

  -- The constructor, whose `error` is the failure here.
  unfoldable pub construct :
      List ℕ → TypeSupport Message → Exec World PublisherError (Publisher port)
  construct topic type_support = do
    let service_name = Names.topic topic
    guard (port.create_service_name service_name) PublisherError.service_name_creation_failure
    service ← build (port.open_or_create_pubsub service_name)
    guard service PublisherError.service_creation_failure
    publisher ← build (port.create_publisher service_name (message_size type_support))
    guard publisher PublisherError.publisher_creation_failure
    event ← build (port.open_or_create_event service_name)
    guard event PublisherError.service_creation_failure
    notifier ← build (port.create_notifier service_name)
    guard notifier PublisherError.notifier_creation_failure
    pure (record {
      topic = topic;
      typesupport = type_support;
      unserialized_size = message_size type_support;
      service_name = service_name;
      registry = Registry.empty;
    })
