-- ===== src/Publisher/Ledger.antt =====
-- A publisher whose middleware keeps a ledger of the samples that it lends, is given to send and is
-- given back: the abstract view of a publisher's loans, in which order and addresses are forgotten.
pub mod Moves
use rmw_iceoryx.Common.{ℕ, Bool, Option, none, some, List, [], ◌∷◌, map, ◌≡◌, drop}
use mathlib.Mathlib.Data.Multiset.Defs.{Multiset, of_list}
use mathlib.Mathlib.Data.Multiset.ZeroCons.{cons}
use mathlib.Mathlib.Data.Multiset.AddSub.{add}
use rmw_iceoryx.Publisher.{PublisherPort, Session}
use rmw_iceoryx.Publisher.Loans.{Call, loans, returns, publishes, copies, step, LendsFresh}

pub record Ledger (Sample : Type 0) : Type 0 where
  pub lent : List Sample
  pub sent : List Sample
  pub dropped : List Sample

abbrev pub note_lent : {Sample : Type 0} → Option Sample → Ledger Sample → Ledger Sample
note_lent none l = l
note_lent (some sample) l = record l { lent = sample ∷ l.lent }

-- The middleware with its ledger.
abbrev pub audited : PublisherPort → PublisherPort
audited port = record {
  World = port.World × Ledger port.Sample;
  Message = port.Message;
  image = port.image;
  Sample = port.Sample;
  payload = port.payload;
  create_service_name = port.create_service_name;
  open_or_create_pubsub = λ name w.
      ((port.open_or_create_pubsub name w.0).0, ((port.open_or_create_pubsub name w.0).1, w.1));
  create_publisher = λ name size w.
      ((port.create_publisher name size w.0).0, ((port.create_publisher name size w.0).1, w.1));
  open_or_create_event = λ name w.
      ((port.open_or_create_event name w.0).0, ((port.open_or_create_event name w.0).1, w.1));
  create_notifier =
      λ name w. ((port.create_notifier name w.0).0, ((port.create_notifier name w.0).1, w.1));
  loan_slice_uninit = λ n w. (
    (port.loan_slice_uninit n w.0).0,
    ((port.loan_slice_uninit n w.0).1, note_lent (port.loan_slice_uninit n w.0).0 w.1),
  );
  send = λ sample w. (
    (port.send sample w.0).0,
    ((port.send sample w.0).1, record (w.1) { sent = sample ∷ w.1.sent }),
  );
  send_slice_copy =
      λ bytes w. ((port.send_slice_copy bytes w.0).0, ((port.send_slice_copy bytes w.0).1, w.1));
  notify = λ w. ((port.notify w.0).0, ((port.notify w.0).1, w.1));
  drop = λ sample w. (port.drop sample w.0, record (w.1) { dropped = sample ∷ w.1.dropped });
  write = λ address bytes w. (port.write address bytes w.0, w.1);
}

-- The samples as multisets: with the application, and as the ledger has them.
pub record View (Sample : Type 0) : Type 0 where
  pub held : Multiset Sample
  pub lent : Multiset Sample
  pub sent : Multiset Sample
  pub dropped : Multiset Sample

-- What a publisher promises of each call: it lends one sample to the application, sends one that
-- the application holds, gives one back, or leaves the samples where they are.
pub data Move {Sample : Type 0} (v w : View Sample) : Type 0 where
  keeps : w ≡ v → Move v w
  lends : (a : Sample) → w ≡ record v { held = cons a v.held; lent = cons a v.lent } → Move v w
  sends :
      (a : Sample)
      → v.held ≡ cons a w.held
      → w ≡ record v { held = w.held; sent = cons a v.sent }
      → Move v w
  drops :
      (a : Sample)
      → v.held ≡ cons a w.held
      → w ≡ record v { held = w.held; dropped = cons a v.dropped }
      → Move v w

-- Every sample that was lent is held, was sent or was given back, each exactly once.
abbrev pub IsBalanced : {Sample : Type 0} → View Sample → Type 0
IsBalanced v = v.lent ≡ add v.held (add v.sent v.dropped)

module _ (port : PublisherPort) where
  open port use {Sample}

  abbrev pub held_samples : Session (audited port) → List Sample
  held_samples s = map (λ e. e.1) s.registry.samples

  abbrev pub view : Session (audited port) → View Sample
  view s = record {
    held = of_list (held_samples s);
    lent = of_list s.world.1.lent;
    sent = of_list s.world.1.sent;
    dropped = of_list s.world.1.dropped;
  }

  -- What is asked of iceoryx2: it lends no address that the application holds.
  abbrev pub IsFresh : Call → Session (audited port) → Type 0
  IsFresh (loans n) s = LendsFresh s
  IsFresh (returns p) s = Unit
  IsFresh (publishes p) s = Unit
  IsFresh (copies bytes) s = Unit

  -- The application makes any call, and iceoryx2 answers as it likes.
  pub data Step (s : Session (audited port)) : Session (audited port) → Type 0 where
    calls : (c : Call) → IsFresh c s → Step s (step c s)

  -- The calls that return each address that is held.
  abbrev pub return_all : List (ℕ × Sample) → List Call
  return_all [] = []
  return_all ((p, a) ∷ m) = returns p ∷ return_all m

  pub data Reach (s : Session (audited port)) : Session (audited port) → Type 0 where
    here : Reach s s
    next : {t u : Session (audited port)} → Reach s t → Step t u → Reach s u
