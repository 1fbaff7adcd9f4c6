-- ===== src/Publisher/Loans.antt =====
-- What a publisher does with its loans, over any sequence of calls.
use rmw_iceoryx.Common.{
  ℕ, ◌≡◌, refl, Bool, true, false, Option, none, some, List, [], ◌∷◌, Exec, ok, err, ◌>>=◌, ◌>>◌,
  ◌∙◌, guard, or_raise, arith, ◌==◌, if◌then◌else◌, is_some, eq_refl,
}
use rmw_iceoryx.Errors.{PublisherError}
use rmw_iceoryx.Registry
use rmw_iceoryx.Registry.Laws.{
  IsValid, store-IsValid, release-IsValid, retrieve-store, retrieve-release,
}
use rmw_iceoryx.Publisher.{
  PublisherPort, Session, call, store_sample, loan, return_loan, publish_loan, publish_copy,
}

pub data Call : Type 0 where
  loans returns publishes : ℕ → Call
  copies : List ℕ → Call

module _ {port : PublisherPort} where
  open port use {World, Sample, payload}

  unfoldable pub step : Call → Session port → Session port
  step (loans n) s = (loan n s).1
  step (returns p) s = (return_loan p s).1
  step (publishes p) s = (publish_loan p s).1
  step (copies bytes) s = (publish_copy bytes s).1

  unfoldable pub run : List Call → Session port → Session port
  run [] s = s
  run (c ∷ cs) s = run cs (step c s)

  abbrev pub HasValidLoans : Session port → Type 0
  HasValidLoans s = IsValid payload s.registry

  -- An address that the application holds.
  abbrev pub is_loaned : Session port → ℕ → Bool
  is_loaned s p = is_some (Registry.retrieve p s.registry)

  -- iceoryx2 lends no address that the application holds.
  abbrev pub LendsFresh : Session port → Type 0
  LendsFresh s =
      (n : ℕ) (sample : Sample)
      → (port.loan_slice_uninit n s.world).0 ≡ some sample
      → is_loaned s (payload sample) ≡ false

  stored-valid :
      (answer : Option Sample) (s : Session port)
      → HasValidLoans s
      → HasValidLoans ((or_raise answer PublisherError.loan_failure >>= store_sample) s).1
  stored-valid none s v = v
  stored-valid (some sample) s v = store-IsValid payload sample s.registry v

  pub step-valid : (c : Call) (s : Session port) → HasValidLoans s → HasValidLoans (step c s)
  unfolding step loan return_loan publish_loan publish_copy
  step-valid (loans n) s v =
      stored-valid (port.loan_slice_uninit n s.world).0
        (record s { world = (port.loan_slice_uninit n s.world).1 }) v
  step-valid (returns p) s v = ground (arith, release-IsValid payload p s.registry v)
  step-valid (publishes p) s v = ground (arith, release-IsValid payload p s.registry v)
  step-valid (copies bytes) s v = ground arith

  -- Over any sequence of calls the registry of a publisher holds no address twice, and every sample
  -- under the address of its own payload.
  pub run-HasValidLoans :
      (cs : List Call) (s : Session port) → HasValidLoans s → HasValidLoans (run cs s)
  unfolding run
  run-HasValidLoans [] s v = v
  run-HasValidLoans (c ∷ cs) s v = run-HasValidLoans cs (step c s) (step-valid c s v)

  -- The addresses that the application holds after a call, from those before it.
  pub held : Call → Session port → ℕ → Bool
  held (loans n) s q = elim (loan n s).0 [
    | ok p ↦ if p == q then true else is_loaned s q
    | err e ↦ is_loaned s q
  ]
  held (returns p) s q = if p == q then false else is_loaned s q
  held (publishes p) s q = if p == q then false else is_loaned s q
  held (copies bytes) s q = is_loaned s q

  loaned-held :
      (answer : Option Sample) (s : Session port) (q : ℕ)
      → is_loaned ((or_raise answer PublisherError.loan_failure >>= store_sample) s).1 q
        ≡ elim ((or_raise answer PublisherError.loan_failure >>= store_sample) s).0 [
          | ok p ↦ if p == q then true else is_loaned s q
          | err e ↦ is_loaned s q
        ]
  unfolding Registry.store
  loaned-held none s q = refl
  loaned-held (some sample) s q = ground (arith, retrieve-store payload sample s.registry q)

  -- A successful loan adds its address, a return and a publication take their address away,
  -- whether the middleware fails or not, and no call changes any other address.
  pub is_loaned-step :
      (c : Call) (s : Session port) (q : ℕ) → HasValidLoans s → is_loaned (step c s) q ≡ held c s q
  unfolding step held loan return_loan publish_loan publish_copy
  is_loaned-step (loans n) s q v =
      loaned-held (port.loan_slice_uninit n s.world).0
        (record s { world = (port.loan_slice_uninit n s.world).1 }) q
  is_loaned-step (returns p) s q v = ground (arith, retrieve-release payload p q s.registry v)
  is_loaned-step (publishes p) s q v = ground (arith, retrieve-release payload p q s.registry v)
  is_loaned-step (copies bytes) s q v = ground arith

  -- An address that was not lent, or no longer is, publishes nothing and changes nothing.
  pub publish_loan-unknown :
      (p : ℕ) (s : Session port)
      → is_loaned s p ≡ false
      → (publish_loan p s ≡ (err PublisherError.invalid_payload, s))
        × (return_loan p s ≡ (err PublisherError.invalid_payload, s))
  unfolding publish_loan return_loan Registry.retrieve Registry.release
  publish_loan-unknown p s h = ground arith

  -- A loan is good for one publication: after the first, however it ended, the second fails with
  -- `invalid_payload`, and neither the middleware nor the registry sees it.
  pub publish_loan_once :
      (p : ℕ) (s : Session port)
      → HasValidLoans s
      → publish_loan p (publish_loan p s).1
        ≡ (err PublisherError.invalid_payload, (publish_loan p s).1)
  unfolding step held
  publish_loan_once p s v =
      (publish_loan-unknown p (publish_loan p s).1
        (is_loaned-step (publishes p) s p v ∙ rw eq_refl)).0

  -- What follows the release of a sample in `publish_loan`.
  abbrev pub deliver : Sample → Exec (Session port) PublisherError (Unit {0})
  deliver sample = do
    sent ← call (port.send sample)
    guard sent PublisherError.send_failure
    notified ← call port.notify
    guard notified PublisherError.notification_failure

  -- To loan and publish is to send the loaned sample and notify: if iceoryx2 lends an address that
  -- is not lent already, the sample sent is the one loaned, and the registry is as before.
  pub loan-publish_loan :
      (n : ℕ) (s : Session port) (sample : Sample) (w : World)
      → port.loan_slice_uninit n s.world ≡ (some sample, w)
      → is_loaned s (payload sample) ≡ false
      → (loan n >>= publish_loan) s ≡ deliver sample (record s { world = w })
  unfolding loan publish_loan Registry.retrieve Registry.store Registry.release
  loan-publish_loan n s sample w e f = ground (arith, eq_refl (payload sample))

  -- To loan and return gives the sample back to iceoryx2, and leaves the registry as before.
  pub loan-return_loan :
      (n : ℕ) (s : Session port) (sample : Sample) (w : World)
      → port.loan_slice_uninit n s.world ≡ (some sample, w)
      → is_loaned s (payload sample) ≡ false
      → (loan n >>= return_loan) s ≡ (ok tt, record s { world = port.drop sample w })
  unfolding loan return_loan Registry.retrieve Registry.store Registry.release
  loan-return_loan n s sample w e f = ground (arith, eq_refl (payload sample))
