-- ===== src/Rmw/Exchange/Delivery.antt =====
-- What a subscription takes of a message that a publisher has published.
use rmw_iceoryx.Rmw.Exchange.{Channel, Carries, IsWaiting, IsTaken}
use rmw_iceoryx.Publisher.Loans.{deliver, is_loaned, LendsFresh}
use rmw_iceoryx.Common.{
  ◌≡◌, ok, ℕ, some, none, true, false, List, ◌++◌, ltb, length, ap, refl, Bool-cases, arith, inl,
  inr, Option-cases, report, drop, replicate, subst, sym, ◌∙◌, ◌≢◌, length-replicate,
  take-length-append,
}
use rmw_iceoryx.Errors.{RetCode}
use rmw_iceoryx.Message.{Callbacks, TypeSupport}
use rmw_iceoryx.Publisher
use rmw_iceoryx.Publisher.{PublisherPort, publish_copy, return_loan, loan}
use rmw_iceoryx.Subscriber.{SubscriberPort, memcpy, take_copy}
use rmw_iceoryx.Rmw.Serialize.{rmw_serialize, rmw_deserialize}
use rmw_iceoryx.Rmw.Publish.{
  PublisherHandle, rmw_publish, publish_serialized, publish_unserialized, loaned_buffer,
}
use rmw_iceoryx.Rmw.Publish.Messages as Published
use rmw_iceoryx.Rmw.Publish.Messages.{wanted, rmw_publish-serialized, rmw_publish_keeps_loan}
use rmw_iceoryx.Rmw.Take.{SubscriptionHandle, Caller, rmw_take, take_unserialized}
use rmw_iceoryx.Rmw.Take.Messages as Taken
use rmw_iceoryx.Rmw.Take.Messages.{DeliversFresh, rmw_take-deserialized}

take_unserialized_lem :
    {q : SubscriberPort} (c : Caller q) (bytes : List ℕ) (m : q.Message)
    → IsWaiting q bytes c.session.world
    → ((old : q.Message) → q.from_memory (memcpy (q.memory old) bytes) ≡ m)
    → IsTaken m c (take_unserialized c)
unfolding take_unserialized take_copy
take_unserialized_lem c bytes m (sample, e, f) copies =
    rw e (refl, rw f (copies c.ros_message), refl, refl)

pub given_first {ℓ} : {A B : Type ℓ} (r : A × B) (a : A) → r.0 ≡ a → r ≡ (a, r.1)
given_first r a e = ap (λ a. (a, r.1)) e

rmw_take-IsTaken :
    {q : SubscriberPort} (k : SubscriptionHandle) (c : Caller q) (reader : Callbacks q.Message)
    (bytes : List ℕ) (m : q.Message)
    → Taken.IsOwnHandle k
    → k.can_loan_messages ≡ false
    → c.session.typesupport.fastrtps ≡ some (some reader)
    → IsWaiting q bytes c.session.world
    → reader.cdr_deserialize bytes ≡ some m
    → DeliversFresh c.session
    → IsTaken m c (rmw_take (some k) true true c)
unfolding rmw_deserialize
rmw_take-IsTaken {q = q} k c reader bytes m own plain typed (sample, e, f) read fresh =
    rw
      (rmw_take-deserialized k c sample (q.receive c.session.world).1 m own plain
        (given_first (q.receive c.session.world) (some (some sample)) e) (fresh sample e)
        (ground (arith, typed, f, read)))
      (refl, refl, refl, refl)

module _ {p : PublisherPort} {q : SubscriberPort} (ch : Channel p q) where
  publish_unserialized-IsWaiting :
      (m : p.Message) (s : Publisher.Session p)
      → (q.receive (ch.view s.world)).0 ≡ some none
      → (publish_unserialized m s).0 ≡ ok tt
      → IsWaiting q (p.image m s.unserialized_size) (ch.view (publish_unserialized m s).1.world)
  unfolding publish_unserialized publish_copy
  publish_unserialized-IsWaiting m s idle e =
      elim (Bool-cases (p.send_slice_copy (p.image m s.unserialized_size) s.world).0) [
        | inl sent ↦
            rw sent
              (elim (Bool-cases
                (p.notify (p.send_slice_copy (p.image m s.unserialized_size) s.world).1).0) [
                  | inl notified ↦
                      rw notified
                        (ch.carries_copy (p.image m s.unserialized_size) s.world idle sent)
                  | inr failed ↦ absurd (ground (arith, e, sent, failed))
                ])
        | inr failed ↦ absurd (ground (arith, e, failed))
      ]

  pub deliver-world :
      (sample : p.Sample) (s : Publisher.Session p)
      → (report RetCode.error (deliver sample s)).0 ≡ ok tt
      → ((p.send sample s.world).0 ≡ true)
        × ((report RetCode.error (deliver sample s)).1.world
            ≡ (p.notify (p.send sample s.world).1).1)
  deliver-world sample s e = (ground (arith, e), ground (arith, e))

  -- A loan that iceoryx2 refuses is a failure.
  rmw_publish_lent :
      (h : PublisherHandle) (m : p.Message) (s : Publisher.Session p)
      → Published.IsOwnHandle h
      → h.can_loan_messages ≡ false
      → (rmw_publish (some h) (some m) s).0 ≡ ok tt
      → (p.loan_slice_uninit (wanted m s) s.world).0 ≢ none
  unfolding rmw_publish publish_serialized loan
  rmw_publish_lent h m s own plain e refused = absurd (ground (arith, e, plain, refused))

  -- The bytes that are written to the loan and sent.
  rmw_publish-written :
      (h : PublisherHandle) (m : p.Message) (s : Publisher.Session p) (writer : Callbacks p.Message)
      (sample : p.Sample) (bytes : List ℕ)
      → Published.IsOwnHandle h
      → h.can_loan_messages ≡ false
      → s.typesupport.fastrtps ≡ some (some writer)
      → (p.loan_slice_uninit (wanted m s) s.world).0 ≡ some sample
      → is_loaned s (p.payload sample) ≡ false
      → writer.cdr_serialize m (length (loaned_buffer (wanted m s)).buffer) ≡ some bytes
      → rmw_publish (some h) (some m) s
        ≡ report RetCode.error (
            deliver sample (record s {
              world = p.write (p.payload sample) bytes (p.loan_slice_uninit (wanted m s) s.world).1;
            }))
  unfolding rmw_serialize memcpy
  rmw_publish-written h m s writer sample bytes own plain typed lent fresh wrote =
      let buffer : List ℕ = replicate (wanted m s) 0 in
      rmw_publish-serialized h m s sample (p.loan_slice_uninit (wanted m s) s.world).1
        (record { buffer = memcpy buffer bytes; buffer_length = length bytes }) own plain
        (given_first (p.loan_slice_uninit (wanted m s) s.world) (some sample) lent) fresh
        (ground (arith, typed, wrote))
      ∙ ap
          (λ bytes. report RetCode.error (
            deliver sample (record s {
              world = p.write (p.payload sample) bytes (p.loan_slice_uninit (wanted m s) s.world).1;
            })))
          (take-length-append bytes (drop (length bytes) buffer))

  rmw_publish-IsWaiting :
      (h : PublisherHandle) (m : p.Message) (m' : q.Message) (s : Publisher.Session p)
      (us : TypeSupport q.Message) (carries : Carries p q s.typesupport us s.unserialized_size m m')
      → Published.IsOwnHandle h
      → h.can_loan_messages ≡ false
      → LendsFresh s
      → (q.receive (ch.view s.world)).0 ≡ some none
      → (rmw_publish (some h) (some m) s).0 ≡ ok tt
      → (content : List ℕ) × (carries.reader.cdr_deserialize content ≡ some m')
        × IsWaiting q content (ch.view (rmw_publish (some h) (some m) s).1.world)
  unfolding rmw_serialize
  rmw_publish-IsWaiting h m m' s us carries own plain fresh idle e =
      let n : ℕ = wanted m s in
      let capacity : ℕ = length (loaned_buffer n).buffer in
      elim (Option-cases (p.loan_slice_uninit n s.world).0) [
        | inl refused ↦ absurd (rmw_publish_lent h m s own plain e refused)
        | inr (sample, lent) ↦ elim (Option-cases (carries.writer.cdr_serialize m capacity)) [
          | inl failed ↦ absurd (
              ground (
                arith,
                e,
                (rmw_publish_keeps_loan h m s sample (p.loan_slice_uninit n s.world).1 RetCode.error
                    own plain (given_first (p.loan_slice_uninit n s.world) (some sample) lent)
                    (ground (arith, carries.of_writer, failed))).0,
              ))
          | inr (bytes, wrote) ↦
              let same : rmw_publish (some h) (some m) s ≡ _ =
                rmw_publish-written h m s carries.writer sample bytes own plain carries.of_writer
                  lent (fresh n sample lent) wrote in
              let (sent, after) = deliver-world sample _ (ap (λ r. r.0) (sym same) ∙ e) in
              let (rest, waits) =
                ch.carries_loan n bytes sample s.world _
                  (given_first (p.loan_slice_uninit n s.world) (some sample) lent)
                  (subst (λ c. ltb c (length bytes) ≡ false) (length-replicate n 0)
                    (carries.fits capacity bytes wrote))
                  idle sent in
              (
                bytes ++ rest,
                carries.reads capacity bytes rest wrote,
                subst (λ v. IsWaiting q (bytes ++ rest) (ch.view v))
                    (sym (ap (λ r. r.1.world) same ∙ after)) waits,
              )
        ]
      ]

  -- The way of a message that is self-contained.
  rmw_publish_copies :
      (h : PublisherHandle) (m : p.Message) (s : Publisher.Session p)
      → Published.IsOwnHandle h
      → h.can_loan_messages ≡ true
      → rmw_publish (some h) (some m) s ≡ publish_unserialized m s
  unfolding rmw_publish
  rmw_publish_copies h m s own can_loan = ground arith

  rmw_take_copies :
      (k : SubscriptionHandle) (c : Caller q)
      → Taken.IsOwnHandle k
      → k.can_loan_messages ≡ true
      → rmw_take (some k) true true c ≡ take_unserialized c
  unfolding rmw_take
  rmw_take_copies k c own can_loan = ground arith

  module _ (h : PublisherHandle) (k : SubscriptionHandle) (m : p.Message) (m' : q.Message)
      (s : Publisher.Session p) (c : Caller q)
      (carries : Carries p q s.typesupport c.session.typesupport s.unserialized_size m m')
      (own : Published.IsOwnHandle h) (own' : Taken.IsOwnHandle k) (fresh : LendsFresh s)
      (fresh' : DeliversFresh c.session) (idle : (q.receive (ch.view s.world)).0 ≡ some none)
      (published : (rmw_publish (some h) (some m) s).0 ≡ ok tt)
      (next : c.session.world ≡ ch.view (rmw_publish (some h) (some m) s).1.world) where
    -- If nothing waits before, the message that rmw_publish publishes is what the next rmw_take gives,
    -- with *taken true, for handles of this implementation that agree whether the message is
    -- self-contained: serialized into a loan if it is not, and copied if it is. The subscriber is as
    -- before. iceoryx2 lends and delivers at no address that is held, and carries what is sent, and
    -- rosidl reads what it wrote.
    pub rmw_take-rmw_publish :
        h.can_loan_messages ≡ k.can_loan_messages → IsTaken m' c (rmw_take (some k) true true c)
    rmw_take-rmw_publish same = elim (Bool-cases h.can_loan_messages) [
      | inl can_loan ↦
          let sends : rmw_publish (some h) (some m) s ≡ publish_unserialized m s =
            rmw_publish_copies h m s own can_loan in
          let waits : IsWaiting q (p.image m s.unserialized_size) c.session.world =
            subst (IsWaiting q (p.image m s.unserialized_size))
              (ap (λ r. ch.view r.1.world) (sym sends) ∙ sym next)
              (publish_unserialized-IsWaiting m s idle (ap (λ r. r.0) (sym sends) ∙ published)) in
          subst (IsTaken m' c) (sym (rmw_take_copies k c own' (sym same ∙ can_loan)))
            (take_unserialized_lem c (p.image m s.unserialized_size) m' waits carries.copies)
      | inr plain ↦
          let (content, read, waits) =
            rmw_publish-IsWaiting h m m' s c.session.typesupport carries own plain fresh idle
              published in
          rmw_take-IsTaken k c carries.reader content m' own' (sym same ∙ plain) carries.of_reader
            (subst (IsWaiting q content) (sym next) waits) read fresh'
    ]
