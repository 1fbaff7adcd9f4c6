-- ===== src/Examples/Exchanges.antt =====
-- A run of a publisher and a subscription over one middleware.
use rmw_iceoryx.Rmw.Exchange.Loaned.{IsLentTo, rmw_take_loaned-rmw_publish_loaned, written}
use rmw_iceoryx.Message.{serialized_message_size, message_size}
use rmw_iceoryx.Subscriber.{memcpy}
use rmw_iceoryx.Rmw.Serialize.{rmw_serialize}
use rmw_iceoryx.Common.{
  List, some, true, false, ℕ, refl, [], ap, arith, length, ltb, none, replicate, subst, suc, sym,
  zero, ◌++◌, ◌∷◌, ◌≡◌, drop,
}
use rmw_iceoryx.Registry
use rmw_iceoryx.Publisher
use rmw_iceoryx.Publisher.{PublisherPort, loan, publish_loan}
use rmw_iceoryx.Rmw.Publish.{
  rmw_publish, publish_serialized, rmw_borrow_loaned_message, rmw_publish_loaned_message,
}
use rmw_iceoryx.Publisher.Loans.{LendsFresh}
use rmw_iceoryx.Rmw.Take.{rmw_take, Caller, rmw_take_loaned_message}
use rmw_iceoryx.Rmw.Take.Messages.{DeliversFresh}
use rmw_iceoryx.Rmw.Exchange.{Channel, Carries, IsTaken, IsWaiting}
use rmw_iceoryx.Rmw.Exchange.Delivery.{rmw_take-rmw_publish}
use rmw_iceoryx.Examples.Taking.{caller, own_subscription}
use rmw_iceoryx.Examples.Publishing.{own_handle}
use rmw_iceoryx.Examples.Ports.{subscriber_port, byte_support, byte_callbacks, receive_next}

-- The next address, the content of the loan that is being written, and the samples that wait.
record Medium : Type 0 where
  next : ℕ
  content : List ℕ
  queue : List (ℕ × List ℕ)

abbrev writer_port : PublisherPort
writer_port = record {
  World = Medium;
  Message = ℕ;
  image = λ m n. m ∷ [];
  Sample = ℕ;
  payload = λ s. s;
  create_service_name = λ name. true;
  open_or_create_pubsub = λ name w. (true, w);
  create_publisher = λ name size w. (true, w);
  open_or_create_event = λ name w. (true, w);
  create_notifier = λ name w. (true, w);
  loan_slice_uninit = λ n w. (some w.next, record w { next = suc w.next; content = replicate n 0 });
  send = λ s w. (true, record w { queue = w.queue ++ (s, w.content) ∷ [] });
  send_slice_copy = λ bytes w. (true, record w { queue = w.queue ++ (w.next, bytes) ∷ [] });
  notify = λ w. (true, w);
  drop = λ s w. w;
  write = λ address bytes w. record w { content = bytes ++ drop (length bytes) w.content };
}

IsWaiting-first :
    (queue : List (ℕ × List ℕ)) (address : ℕ) (bytes : List ℕ)
    → (receive_next queue).0 ≡ some none
    → IsWaiting subscriber_port bytes (queue ++ (address, bytes) ∷ [])
IsWaiting-first [] address bytes idle = ((address, bytes), refl, refl)
IsWaiting-first (x ∷ xs) address bytes idle = absurd (cc)

lent_queue :
    (n : ℕ) (w w' : Medium) (sample : ℕ)
    → writer_port.loan_slice_uninit n w ≡ (some sample, w')
    → w'.queue ≡ w.queue
lent_queue n w w' sample e = sym (ap (λ r. r.1.queue) e)

abbrev channel : Channel writer_port subscriber_port
channel = record {
  view = λ w. w.queue;
  carries_loan = λ n bytes sample w w' e fits idle sent. (
    drop (length bytes) w'.content,
    IsWaiting-first w'.queue sample (bytes ++ drop (length bytes) w'.content) (
        subst (λ queue. (receive_next queue).0 ≡ some none) (sym (lent_queue n w w' sample e))
          idle),
  );
  carries_copy = λ bytes w idle sent. IsWaiting-first w.queue w.next bytes idle;
}

fits_lem :
    (n m : ℕ) (bytes : List ℕ)
    → byte_callbacks.cdr_serialize m n ≡ some bytes
    → ltb n (length bytes) ≡ false
fits_lem zero m bytes e = absurd (cc)
fits_lem (suc n) m bytes e =
    let same : m ∷ [] ≡ bytes = ground (arith, e) in ground (arith, ap length same)

reads_lem :
    (n m : ℕ) (bytes rest : List ℕ)
    → byte_callbacks.cdr_serialize m n ≡ some bytes
    → byte_callbacks.cdr_deserialize (bytes ++ rest) ≡ some m
reads_lem zero m bytes rest e = absurd (cc)
reads_lem (suc n) m bytes rest e =
    let same : m ∷ [] ≡ bytes = ground (arith, e) in
    subst (λ bytes. byte_callbacks.cdr_deserialize (bytes ++ rest) ≡ some m) same refl

abbrev publisher : Publisher.Session writer_port
publisher = record {
  self = record {
    topic = [];
    typesupport = byte_support;
    unserialized_size = 1;
    service_name = [];
    registry = Registry.empty;
  };
  world = record { next = 1; content = []; queue = [] };
}

abbrev reader : Caller subscriber_port
reader = record caller {
  session = record (caller.session) { world = (1, 42 ∷ 0 ∷ 0 ∷ 0 ∷ 0 ∷ 0 ∷ 0 ∷ 0 ∷ []) ∷ [] };
}

carried : Carries writer_port subscriber_port byte_support byte_support 1 42 42
unfolding memcpy
carried = record {
  writer = byte_callbacks;
  reader = byte_callbacks;
  of_writer = refl;
  of_reader = refl;
  fits = λ n bytes e. fits_lem n 42 bytes e;
  reads = λ n bytes rest e. reads_lem n 42 bytes rest e;
  copies = λ old. refl;
}

publisher-LendsFresh : LendsFresh publisher
unfolding Registry.retrieve Registry.find
publisher-LendsFresh n sample e = refl

reader-DeliversFresh : DeliversFresh reader.session
unfolding Registry.retrieve Registry.find
reader-DeliversFresh sample e = refl

rmw_take-rmw_publish_example :
    IsTaken 42 reader (rmw_take (some (own_subscription false)) true true reader)
unfolding rmw_publish publish_serialized loan publish_loan rmw_serialize Registry.store
    Registry.retrieve Registry.release serialized_message_size memcpy
rmw_take-rmw_publish_example =
    rmw_take-rmw_publish channel (own_handle false) (own_subscription false) 42 42 publisher reader
      carried (refl, refl) (refl, refl) publisher-LendsFresh reader-DeliversFresh refl refl refl
      refl

-- The byte 42, written in place at address 1.
abbrev lent_byte : List ℕ
lent_byte = 42 ∷ []

abbrev loan_reader : Caller subscriber_port
loan_reader = record caller { session = record (caller.session) { world = (1, 42 ∷ []) ∷ [] } }

loan_reader-DeliversFresh : DeliversFresh loan_reader.session
unfolding Registry.retrieve Registry.find
loan_reader-DeliversFresh sample e = refl

rmw_take_loaned-rmw_publish_loaned_example :
    IsLentTo
      (own_subscription true)
      lent_byte
      loan_reader
      (rmw_take_loaned_message (some (own_subscription true)) true true loan_reader)
    × ((rmw_publish_loaned_message
          (some (own_handle true))
          (some 1)
          (written (own_handle true) byte_support 1 lent_byte publisher)).1.self
        ≡ publisher.self)
unfolding rmw_borrow_loaned_message rmw_publish_loaned_message loan publish_loan Registry.store
    Registry.retrieve Registry.release message_size
rmw_take_loaned-rmw_publish_loaned_example =
    rmw_take_loaned-rmw_publish_loaned channel (own_handle true) byte_support 1 lent_byte publisher
      (refl, refl) refl publisher-LendsFresh refl (own_subscription true) loan_reader (refl, refl)
      refl refl loan_reader-DeliversFresh refl refl refl refl
