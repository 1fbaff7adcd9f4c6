-- ===== src/Subscriber/Loans.antt =====
-- What a subscriber does with the samples that it receives, over any sequence of calls.
use rmw_iceoryx.Common.{
  ℕ, ◌≡◌, ◌≤◌, true, false, Bool, Option, none, some, List, [], ◌∷◌, ok, err, ◌>>=◌, arith, ◌==◌,
  if◌then◌else◌, is_some, eq_refl, length, length-append, length-drop, drop, or_raise, ◌∙◌,
}
use rmw_iceoryx.Errors.{SubscriberError}
use rmw_iceoryx.Registry
use rmw_iceoryx.Registry.Laws.{IsValid, store-IsValid, release-IsValid, retrieve-release}
use rmw_iceoryx.Subscriber.{
  SubscriberPort, Session, lent, memcpy, take_copy, take_loan, return_loan,
}

pub data Call : Type 0 where
  takes_copy : List ℕ → Call
  takes_loan : Call
  returns : ℕ → Call

-- A copy that fits overwrites the front of the destination and leaves its size.
length-memcpy :
    (dest src : List ℕ) → length src ≤ length dest → length (memcpy dest src) ≡ length dest
unfolding memcpy
length-memcpy dest src h =
    omega (arith, length-append src (drop (length src) dest), length-drop (length src) dest)

module _ {port : SubscriberPort} where
  open port use {World, Sample, payload}

  unfoldable pub step : Call → Session port → Session port
  step (takes_copy dest) s = (take_copy dest s).1
  step takes_loan s = (take_loan s).1
  step (returns p) s = (return_loan p s).1

  unfoldable pub run : List Call → Session port → Session port
  run [] s = s
  run (c ∷ cs) s = run cs (step c s)

  abbrev pub HasValidSamples : Session port → Type 0
  HasValidSamples s = IsValid payload s.registry

  -- An address that the application holds.
  abbrev pub is_loaned : Session port → ℕ → Bool
  is_loaned s p = is_some (Registry.retrieve p s.registry)

  lent-valid :
      (answer : Option Sample) (s : Session port)
      → HasValidSamples s
      → HasValidSamples (lent answer s).1
  lent-valid none s v = v
  lent-valid (some sample) s v = store-IsValid payload sample s.registry v

  received-valid :
      (answer : Option (Option Sample)) (s : Session port)
      → HasValidSamples s
      → HasValidSamples ((or_raise answer SubscriberError.recv_failure >>= lent) s).1
  received-valid none s v = v
  received-valid (some answer) s v = lent-valid answer s v

  step-valid : (c : Call) (s : Session port) → HasValidSamples s → HasValidSamples (step c s)
  unfolding step take_copy take_loan return_loan
  step-valid (takes_copy dest) s v = ground arith
  step-valid takes_loan s v =
      received-valid (port.receive s.world).0 (record s { world = (port.receive s.world).1 }) v
  step-valid (returns p) s v = ground (arith, release-IsValid payload p s.registry v)

  -- Whatever the application and the middleware do, the registry holds no address twice, and
  -- every sample under the address of its own payload.
  pub run-HasValidSamples :
      (cs : List Call) (s : Session port) → HasValidSamples s → HasValidSamples (run cs s)
  unfolding run
  run-HasValidSamples [] s v = v
  run-HasValidSamples (c ∷ cs) s v = run-HasValidSamples cs (step c s) (step-valid c s v)

  -- A copy lends nothing: the registry stays as it is, a received sample goes back to iceoryx2,
  -- and the destination has its bytes.
  pub take_copy_lem :
      (dest : List ℕ) (s : Session port) (sample : Sample) (w : World)
      → port.receive s.world ≡ (some (some sample), w)
      → take_copy dest s
        ≡ (ok (true, memcpy dest (port.bytes sample)), record s { world = port.discard sample w })
  unfolding take_copy
  take_copy_lem dest s sample w e = ground arith

  -- To take a loan and return it gives the received sample back to iceoryx2 and leaves the registry
  -- as before, if iceoryx2 does not deliver at an address that is lent already.
  pub take_loan-return_loan :
      (s : Session port) (sample : Sample) (w : World)
      → port.receive s.world ≡ (some (some sample), w)
      → is_loaned s (payload sample) ≡ false
      → ((take_loan s).0
          ≡ ok (some (record { address = payload sample; content = port.bytes sample })))
        × (return_loan (payload sample) (take_loan s).1
            ≡ (ok tt, record s { world = port.discard sample w }))
  unfolding take_loan return_loan Registry.retrieve Registry.store Registry.release
  take_loan-return_loan s sample w e f = ground (arith, eq_refl (payload sample))

  -- An address that was not lent, or no longer is, is refused and changes nothing.
  pub return_loan-unknown :
      (p : ℕ) (s : Session port)
      → is_loaned s p ≡ false
      → return_loan p s ≡ (err SubscriberError.invalid_payload, s)
  unfolding return_loan Registry.retrieve Registry.release
  return_loan-unknown p s h = ground arith

  pub is_loaned-return_loan :
      (p q : ℕ) (s : Session port)
      → HasValidSamples s
      → is_loaned (return_loan p s).1 q ≡ (if p == q then false else is_loaned s q)
  unfolding return_loan
  is_loaned-return_loan p q s v = ground (arith, retrieve-release payload p q s.registry v)

  -- A loaned sample can be returned once: a second return fails with `invalid_payload` and changes
  -- nothing.
  pub return_loan_once :
      (p : ℕ) (s : Session port)
      → HasValidSamples s
      → return_loan p (return_loan p s).1
        ≡ (err SubscriberError.invalid_payload, (return_loan p s).1)
  return_loan_once p s v =
      return_loan-unknown p (return_loan p s).1 (is_loaned-return_loan p p s v ∙ rw eq_refl)
