-- ===== src/Examples/Signals.antt =====
-- Runs of a guard condition that wakes a wait set.
use rmw_iceoryx.Rmw.Wait.Entries.{entry}
use rmw_iceoryx.WaitSet.Mapping.{IsValid}
use rmw_iceoryx.WaitSet.Waiting.Wakes.{wait-IsWoken}
use rmw_iceoryx.WaitSet.Waiting.{TriggeredWaitable, wait, triggered}
use rmw_iceoryx.Rmw.Wait.Wakes.{rmw_wait_leaves}
use rmw_iceoryx.Common.{
  ℕ, zero, suc, List, [], ◌∷◌, ◌++◌, Option, none, some, Bool, true, false, ok, ◌≡◌, ◌<◌, ◌==◌,
  refl, arith, ap, inl, inr, if◌then◌else◌, Bool-cases, ◌≢◌,
}
use rmw_iceoryx.Runtime.{RuntimePort, GuardCondition, rmw_trigger_guard_condition, trigger}
use rmw_iceoryx.WaitSet.{
  WaitSetPort, ListenerDetails, find_listener, name_eq, RmwMapping, Session, is_mapped,
  guard_condition,
}
use rmw_iceoryx.WaitSet.Waiting.Events.{Events, IsOneOf}
use rmw_iceoryx.Rmw.Ensure.{rmw_iox2_identifier}
use rmw_iceoryx.Rmw.Wait.{Waiter, WaitSetHandle, has_no_null, rmw_wait}
use rmw_iceoryx.Rmw.Signal.{Signals, rmw_wait-rmw_trigger_guard_condition}

-- The next attachment's id, and whether an event was sent.
record Bus : Type 0 where
  next : ℕ
  sent : Bool

-- The ids below the next one, which are reported if an event was sent.
abbrev ids_below : ℕ → List ℕ
ids_below zero = []
ids_below (suc n) = n ∷ ids_below n

abbrev reported_of : Bus → Option (List ℕ)
reported_of b = if b.sent then some (ids_below b.next) else none

ids_below-split : (n g : ℕ) → g < n → (before after : List ℕ) × (ids_below n ≡ before ++ g ∷ after)
ids_below-split zero g lt = absurd (omega arith)
ids_below-split (suc n) g lt = elim (Bool-cases (g == n)) [
  | inl last ↦
      let same : n ≡ g = ground (arith, last) in ([], ids_below n, ap (λ m. m ∷ ids_below n) same)
  | inr below ↦
      let (before, after, split) = ids_below-split n g (ground (arith, lt, below)) in
      (n ∷ before, after, ap (◌∷◌ n) split)
]

abbrev waiting_port : WaitSetPort
waiting_port = record {
  World = Bus;
  Listener = List ℕ;
  Guard = ℕ;
  create = λ w. (true, w);
  open_or_create_event = λ e name w. (true, w);
  create_listener = λ e name w. (some name, w);
  attach_notification = λ l w. (some w.next, record w { next = suc w.next });
  attach_interval = λ t w. (some w.next, record w { next = suc w.next });
  detach = λ g w. w;
  from_guard = λ g. g;
  wait_and_process_once = λ t w. (reported_of w, w);
  try_wait_all = λ l w. (true, record w { sent = false });
}

abbrev notifying_port : RuntimePort
notifying_port = record {
  World = Bus;
  create_instance_name = λ name. true;
  create_local = λ name w. (true, w);
  create_ipc = λ name w. (true, w);
  create_service_name = λ name. true;
  open_or_create_event = λ name w. (true, w);
  create_notifier = λ name w. (true, w);
  notify_with_custom_event_id = λ name id w. (true, record w { sent = true });
}

reported-split :
    (g : ℕ) (w : Bus)
    → g < w.next
    → w.sent ≡ true
    → (before after : List ℕ) × (reported_of w ≡ some (before ++ g ∷ after))
reported-split g w lt sent =
    let (before, after, split) = ids_below-split w.next g lt in
    (before, after, rw sent (ap some split))

created : (name : List ℕ) → some name ≢ none
created name e = cc

own_id_lem : (g g' : ℕ) (w : Bus) → g < w.next → some w.next ≡ some g' → (g == g') ≡ false
own_id_lem g g' w lt made = let same : w.next ≡ g' = ground (arith, made) in ground arith

abbrev bus_events : Events waiting_port
bus_events = record {
  IsPending = λ l w. w.sent ≡ true;
  IsAttached = λ g l w. g < w.next;
  keeps_pending = λ l m w sent. sent;
  opens = λ e name w. (refl, λ l sent. sent);
  creates = λ e name w. (created name, λ l sent. sent);
  attaches = λ l w. (w.next, refl, omega arith);
  keeps_attached = λ g l m w lt. omega arith;
  own_id = λ g g' l m w lt made. own_id_lem g g' w lt made;
  reports = λ g l w lt sent. reported-split g w lt sent;
  drains = λ l w. refl;
}

abbrev bus_signals : Signals notifying_port waiting_port
bus_signals = record {
  events = bus_events;
  view = λ w. w;
  IsListenerOf = λ l name w. l ≡ name;
  notifies = λ name id l w done is_of. refl;
}

abbrev name_three : List ℕ
name_three = 3 ∷ []

abbrev condition : GuardCondition
condition = record { trigger_id = 0; service_name = name_three }

abbrev details : ListenerDetails (List ℕ)
details = record { service_name = name_three; listener = name_three }

abbrev quiet : Bus
quiet = record { next = 0; sent = false }

abbrev name_of : ℕ → List ℕ
name_of p = p ∷ []

-- A subscription that was not seen before, and the guard condition.
abbrev woken : Waiter waiting_port
woken = record {
  session = record {
    self = record {
      guard_condition_listeners = details ∷ [];
      subscriber_listeners = [];
      mapping = [];
    };
    world = record { next = 0; sent = true };
  };
  arrays = record {
    subscribers = some (some 5 ∷ []);
    guard_conditions = some (some 3 ∷ []);
    services = none;
    clients = none;
    events = none;
  };
}

abbrev wait_handle : WaitSetHandle
wait_handle = record { implementation_identifier = rmw_iox2_identifier; impl = some 1 }

no_earlier :
    (u b : ℕ)
    → u < 0
    → entry guard_condition woken.arrays u ≡ some (some (some b))
    → name_of b ≢ name_of 3
no_earlier u b lt at = absurd (omega (arith, lt))

rmw_wait-rmw_trigger_guard_condition_example :
    ((rmw_wait name_of (some wait_handle) none woken).0 ≡ ok tt)
    × (entry guard_condition (rmw_wait name_of (some wait_handle) none woken).1.arrays 0
        ≡ some (some (some 3)))
unfolding rmw_trigger_guard_condition trigger has_no_null find_listener name_eq
rmw_wait-rmw_trigger_guard_condition_example =
    rmw_wait-rmw_trigger_guard_condition bus_signals condition quiet woken details
      rmw_iox2_identifier wait_handle name_of 0 3 0 refl refl refl refl refl refl refl refl refl
      refl no_earlier refl refl refl

rmw_wait_leaves_example :
    ((rmw_wait name_of (some wait_handle) none woken).0 ≡ ok tt)
    × (entry guard_condition (rmw_wait name_of (some wait_handle) none woken).1.arrays 0
        ≡ some (some (some 3)))
unfolding has_no_null find_listener name_eq
rmw_wait_leaves_example =
    rmw_wait_leaves bus_events name_of guard_condition 3 0 details woken 0
      (record { is_found = refl; stored = refl; pending = refl }) refl refl refl refl no_earlier
      wait_handle refl refl

-- The guard condition's listener, mapped to index 2.
abbrev mapped_guard : RmwMapping
mapped_guard = record { waitable_type = guard_condition; storage_index = 0; rmw_index = 2 }

abbrev mapped_session : Session waiting_port
mapped_session = record (woken.session) {
  self = record (woken.session.self) { mapping = mapped_guard ∷ [] };
}

mapped_session-IsValid : IsValid mapped_session.self
unfolding is_mapped
mapped_session-IsValid = record { in_range = (omega arith, tt); distinct = (refl, tt) }

wait-IsWoken_example :
    (ts : List TriggeredWaitable) × ((wait none mapped_session).0 ≡ ok ts)
    × IsOneOf (triggered mapped_guard) ts
wait-IsWoken_example =
    wait-IsWoken bus_events mapped_session mapped_guard details mapped_session-IsValid (inl refl)
      refl refl
