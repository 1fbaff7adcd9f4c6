-- ===== src/Examples/Ports.antt =====
-- Small stand-ins for what the program calls, each by a concrete function.
use rmw_iceoryx.Message.{Callbacks, TypeSupport, members, nil}
use rmw_iceoryx.Publisher.{PublisherPort}
use rmw_iceoryx.Subscriber.{SubscriberPort}
use rmw_iceoryx.WaitSet.{WaitSetPort}
use rmw_iceoryx.Common.{
  Bool, List, Option, [], false, ltb, none, some, suc, true, zero, ℕ, ◌++◌, ◌∷◌,
}

abbrev first_byte : List ℕ → Option ℕ
first_byte [] = none
first_byte (x ∷ xs) = some x

-- A message is one number, and one byte on the wire.
abbrev serialized_byte : ℕ → ℕ → Option (List ℕ)
serialized_byte m zero = none
serialized_byte m (suc capacity) = some (m ∷ [])

abbrev pub byte_callbacks : Callbacks ℕ
byte_callbacks = record {
  get_serialized_size = λ m. 4;
  cdr_serialize = serialized_byte;
  cdr_deserialize = first_byte;
}

abbrev pub byte_support : TypeSupport ℕ
byte_support = record {
  has_data = true;
  introspection_cpp = some (members 1 nil);
  introspection_c = none;
  fastrtps = some (some byte_callbacks);
}

-- A middleware for publishers lends the addresses in order, and logs what it is given to send. It
-- lends `none` from address 10 on.
abbrev lend_below_ten : Bool → ℕ × List ℕ → Option ℕ × (ℕ × List ℕ)
lend_below_ten true w = (some w.0, (suc w.0, w.1))
lend_below_ten false w = (none, w)

abbrev pub publisher_port : PublisherPort
publisher_port = record {
  World = ℕ × List ℕ;
  Message = ℕ;
  image = λ m n. m ∷ [];
  Sample = ℕ;
  payload = λ s. s;
  create_service_name = λ name. true;
  open_or_create_pubsub = λ name w. (true, w);
  create_publisher = λ name size w. (true, w);
  open_or_create_event = λ name w. (true, w);
  create_notifier = λ name w. (true, w);
  loan_slice_uninit = λ n w. lend_below_ten (ltb w.0 10) w;
  send = λ s w. (true, (w.0, s ∷ w.1));
  send_slice_copy = λ bytes w. (true, (w.0, bytes ++ w.1));
  notify = λ w. (true, w);
  drop = λ s w. w;
  write = λ address bytes w. w;
}

-- A middleware for subscribers delivers what is in its queue.
abbrev pub receive_next : List (ℕ × List ℕ) → Option (Option (ℕ × List ℕ)) × List (ℕ × List ℕ)
receive_next [] = (some none, [])
receive_next (x ∷ xs) = (some (some x), xs)

abbrev pub head_or_zero : List ℕ → ℕ
head_or_zero [] = 0
head_or_zero (x ∷ xs) = x

abbrev pub subscriber_port : SubscriberPort
subscriber_port = record {
  World = List (ℕ × List ℕ);
  Message = ℕ;
  memory = λ m. m ∷ [];
  from_memory = head_or_zero;
  Sample = ℕ × List ℕ;
  payload = λ s. s.0;
  bytes = λ s. s.1;
  create_service_name = λ name. true;
  open_or_create_pubsub = λ name w. (true, w);
  create_subscriber = λ name w. (true, w);
  receive = receive_next;
  discard = λ s w. w;
}

-- A middleware for wait sets hands out guards in order, and reports the given ids.
abbrev pub wait_set_port : Option (List ℕ) → WaitSetPort
wait_set_port reported = record {
  World = ℕ;
  Listener = List ℕ;
  Guard = ℕ;
  create = λ w. (true, w);
  open_or_create_event = λ e name w. (true, w);
  create_listener = λ e name w. (some name, w);
  attach_notification = λ l w. (some w, suc w);
  attach_interval = λ t w. (some w, suc w);
  detach = λ g w. w;
  from_guard = λ g. g;
  wait_and_process_once = λ t w. (reported, w);
  try_wait_all = λ l w. (true, w);
}
