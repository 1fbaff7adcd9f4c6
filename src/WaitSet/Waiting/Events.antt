-- ===== src/WaitSet/Waiting/Events.antt =====
-- What a wait relies on in iceoryx2 to be woken, the record `Events`, and what is reported of an id.

use rmw_iceoryx.Common.{
  All, List, Option, [], none, some, ℕ, ◌++◌, ◌∷◌, ◌≡◌, refl, arith, true, false, inl, inr, sym,
  subst, ◌==◌, eq_refl, ◌⊎◌, ◌≢◌,
}
use rmw_iceoryx.WaitSet.{WaitSetPort, WaitableEntity}
use rmw_iceoryx.WaitSet.Waiting.{
  AttachmentDetails, TriggeredWaitable, triggered, find_attachment, id_of,
}
use rmw_iceoryx.WaitSet.Waiting.Callback.{reported, waitable_of}

-- What is relied on of events. An event is pending on a listener from when it is sent to when it is
-- drained; to open a service, to create or to attach a listener does not drain it; an attachment has
-- an id of its own; and a wait without a timeout in which a pending listener is attached returns,
-- with the attachment's id among those that it reports.
pub record Events (port : WaitSetPort) : Type 1 where
  pub IsPending : port.Listener → port.World → Type 0
  pub IsAttached : port.Guard → port.Listener → port.World → Type 0
  pub keeps_pending :
      (l m : port.Listener) (w : port.World)
      → IsPending l w
      → IsPending l (port.attach_notification m w).1
  pub opens :
      (e : WaitableEntity) (name : List ℕ) (w : port.World)
      → ((port.open_or_create_event e name w).0 ≡ true)
        × ((l : port.Listener) → IsPending l w → IsPending l (port.open_or_create_event e name w).1)
  pub creates :
      (e : WaitableEntity) (name : List ℕ) (w : port.World)
      → ((port.create_listener e name w).0 ≢ none)
        × ((l : port.Listener) → IsPending l w → IsPending l (port.create_listener e name w).1)
  pub attaches :
      (l : port.Listener) (w : port.World)
      → (g : port.Guard) × ((port.attach_notification l w).0 ≡ some g)
        × IsAttached g l (port.attach_notification l w).1
  pub keeps_attached :
      (g : port.Guard) (l m : port.Listener) (w : port.World)
      → IsAttached g l w
      → IsAttached g l (port.attach_notification m w).1
  pub own_id :
      (g g' : port.Guard) (l m : port.Listener) (w : port.World)
      → IsAttached g l w
      → (port.attach_notification m w).0 ≡ some g'
      → (port.from_guard g == port.from_guard g') ≡ false
  pub reports :
      (g : port.Guard) (l : port.Listener) (w : port.World)
      → IsAttached g l w
      → IsPending l w
      → (before after : List ℕ) × ((port.wait_and_process_once none w).0
          ≡ some (before ++ port.from_guard g ∷ after))
  pub drains : (l : port.Listener) (w : port.World) → (port.try_wait_all l w).0 ≡ true

abbrev pub IsOneOf : {A : Type 0} → A → List A → Type 0
IsOneOf x [] = ⊥
IsOneOf x (y ∷ ys) = (x ≡ y) ⊎ IsOneOf x ys

pub All-at : {A : Type 0} (P : A → Type 0) (xs : List A) (x : A) → All P xs → IsOneOf x xs → P x
All-at P [] x h m = absurd m
All-at P (y ∷ ys) x h (inl same) = subst P (sym same) h.0
All-at P (y ∷ ys) x h (inr later) = All-at P ys x h.1 later

module _ {port : WaitSetPort} where
  open port use {World, Listener, Guard}

  pub find_attachment-append_some :
      (id : ℕ) (as' bs : List (AttachmentDetails port)) (a : AttachmentDetails port)
      → find_attachment id as' ≡ some a
      → find_attachment id (as' ++ bs) ≡ some a
  unfolding find_attachment
  find_attachment-append_some id [] bs a e = absurd (cc)
  find_attachment-append_some id (c ∷ as') bs a e =
      ground (arith, e, find_attachment-append_some id as' bs a)

  pub find_attachment-append_new :
      (a : AttachmentDetails port) (as' : List (AttachmentDetails port))
      → All (λ b. (id_of b == id_of a) ≡ false) as'
      → find_attachment (id_of a) (as' ++ a ∷ []) ≡ some a
  unfolding find_attachment
  find_attachment-append_new a [] h = rw (eq_refl (id_of a)) refl
  find_attachment-append_new a (c ∷ as') h = rw (h.0) (find_attachment-append_new a as' h.1)

  later-IsOneOf :
      (a : AttachmentDetails port) (o : Option (AttachmentDetails port))
      (ts : List TriggeredWaitable)
      → IsOneOf (triggered a.mapping) ts
      → IsOneOf (triggered a.mapping) (waitable_of o ts)
  later-IsOneOf a none ts h = h
  later-IsOneOf a (some b) ts h = inr h

  -- The waitable of an id that is reported.
  pub reported-IsOneOf :
      (as' : List (AttachmentDetails port)) (a : AttachmentDetails port) (before after : List ℕ)
      → find_attachment (id_of a) as' ≡ some a
      → IsOneOf (triggered a.mapping) (reported none as' (before ++ id_of a ∷ after))
  unfolding reported
  reported-IsOneOf as' a [] after f = rw f (inl refl)
  reported-IsOneOf as' a (id ∷ before) after f =
      later-IsOneOf a (find_attachment id as') (reported none as' (before ++ id_of a ∷ after))
        (reported-IsOneOf as' a before after f)
