-- ===== src/Rmw/Exchange/Loaned.antt =====
-- What a subscription takes on loan of a message that a publisher has written in place: the way
-- without a copy, for messages that are self-contained.
use rmw_iceoryx.Common.{
  ◌≡◌, ok, ℕ, some, none, true, false, List, ◌++◌, ltb, length, ap, arith, inl, inr, Option-cases,
  Expected, subst, sym, ◌∙◌, report, eq_refl,
}
use rmw_iceoryx.Errors.{RetCode}
use rmw_iceoryx.Message.{TypeSupport, message_size}
use rmw_iceoryx.Registry
use rmw_iceoryx.Publisher
use rmw_iceoryx.Publisher.{PublisherPort, loan, publish_loan}
use rmw_iceoryx.Publisher.Loans.{deliver, LendsFresh}
use rmw_iceoryx.Subscriber.{SubscriberPort, take_loan, return_loan}
use rmw_iceoryx.Subscriber.Loans as Received
use rmw_iceoryx.Rmw.Publish.{PublisherHandle, rmw_borrow_loaned_message, rmw_publish_loaned_message}
use rmw_iceoryx.Rmw.Publish.Messages as Published
use rmw_iceoryx.Rmw.Take.{
  SubscriptionHandle, Caller, rmw_take_loaned_message, rmw_return_loaned_message_from_subscription,
}
use rmw_iceoryx.Rmw.Take.Messages as Taken
use rmw_iceoryx.Rmw.Take.Messages.{DeliversFresh}
use rmw_iceoryx.Rmw.Exchange.{Channel, IsWaiting}
use rmw_iceoryx.Rmw.Exchange.Delivery.{given_first, deliver-world}

-- What the caller of rmw_take_loaned_message finds: the address of a payload that begins with the
-- bytes and stays in the registry until it is returned, which leaves the subscriber as before.
abbrev pub IsLentTo :
    {q : SubscriberPort}
    → SubscriptionHandle
    → List ℕ
    → Caller q
    → Expected RetCode (Unit {0}) × Caller q
    → Type 0
IsLentTo {q} k bytes c r =
    (sample : q.Sample) × (rest : List ℕ) × (q.bytes sample ≡ bytes ++ rest)
    × (r.0 ≡ ok tt)
    × (r.1.taken ≡ true)
    × (r.1.loaned_message ≡ some (q.payload sample))
    × (Received.is_loaned r.1.session (q.payload sample) ≡ true)
    × ((rmw_return_loaned_message_from_subscription (some k) (some (q.payload sample)) r.1).0
        ≡ ok tt)
    × ((rmw_return_loaned_message_from_subscription (some k) (some (q.payload sample))
          r.1).1.session.self
        ≡ c.session.self)

rmw_take_loaned-IsLentTo :
    {q : SubscriberPort} (k : SubscriptionHandle) (c : Caller q) (bytes rest : List ℕ)
    → Taken.IsOwnHandle k
    → k.can_loan_messages ≡ true
    → c.loaned_message ≡ none
    → DeliversFresh c.session
    → IsWaiting q (bytes ++ rest) c.session.world
    → IsLentTo k bytes c (rmw_take_loaned_message (some k) true true c)
unfolding rmw_take_loaned_message rmw_return_loaned_message_from_subscription take_loan return_loan
    Registry.retrieve Registry.store Registry.release
rmw_take_loaned-IsLentTo {q} k c bytes rest own can_loan empty fresh (sample, e, f) =
    let unheld = fresh sample e in
    (
      sample,
      rest,
      f,
      ground (arith, unheld, eq_refl (q.payload sample)),
      ground (arith, unheld, eq_refl (q.payload sample)),
      ground (arith, unheld, eq_refl (q.payload sample)),
      ground (arith, unheld, eq_refl (q.payload sample)),
      ground (arith, unheld, eq_refl (q.payload sample)),
      ground (arith, unheld, eq_refl (q.payload sample)),
    )

module _ {p : PublisherPort} where
  -- The application writes the message into the memory that it borrowed.
  abbrev pub write_message : ℕ → List ℕ → Publisher.Session p → Publisher.Session p
  write_message address bytes s = record s { world = p.write address bytes s.world }

  -- The publisher when the message is borrowed and written.
  abbrev pub written :
      PublisherHandle
      → TypeSupport p.Message
      → ℕ
      → List ℕ
      → Publisher.Session p
      → Publisher.Session p
  written h ts address bytes s =
      write_message address bytes (rmw_borrow_loaned_message (some h) (some ts) (some none) s).1

module _ {p : PublisherPort} {q : SubscriberPort} (ch : Channel p q) where
  module _ (h : PublisherHandle) (ts : TypeSupport p.Message) (address : ℕ) (bytes : List ℕ)
      (s : Publisher.Session p) (own : Published.IsOwnHandle h)
      (can_loan : h.can_loan_messages ≡ true) (fresh : LendsFresh s)
      (borrowed : (rmw_borrow_loaned_message (some h) (some ts) (some none) s).0 ≡ ok address) where
    borrowed_sample :
        (sample : p.Sample) × ((p.loan_slice_uninit (message_size s.typesupport) s.world).0
          ≡ some sample)
        × (p.payload sample ≡ address)
    unfolding rmw_borrow_loaned_message loan Registry.store
    borrowed_sample =
        elim (Option-cases (p.loan_slice_uninit (message_size s.typesupport) s.world).0) [
          | inl refused ↦ absurd (ground (arith, borrowed, can_loan, refused))
          | inr (sample, lent) ↦ (sample, lent, ground (arith, borrowed, can_loan, lent))
        ]

    published-deliver :
        (sample : p.Sample)
        → (p.loan_slice_uninit (message_size s.typesupport) s.world).0 ≡ some sample
        → p.payload sample ≡ address
        → rmw_publish_loaned_message (some h) (some address) (written h ts address bytes s)
          ≡ report RetCode.error (
              deliver sample (record s {
                world =
                    p.write
                      (p.payload sample)
                      bytes
                      (p.loan_slice_uninit (message_size s.typesupport) s.world).1;
              }))
    unfolding rmw_borrow_loaned_message rmw_publish_loaned_message loan publish_loan
        Registry.retrieve Registry.store Registry.release
    published-deliver sample lent at =
        let unheld = fresh (message_size s.typesupport) sample lent in
        subst
          (λ address.
            rmw_publish_loaned_message (some h) (some address) (
              write_message address bytes
                (rmw_borrow_loaned_message (some h) (some ts) (some none) s).1)
            ≡ report RetCode.error (
                deliver sample (record s {
                  world =
                      p.write (p.payload sample) bytes
                        (p.loan_slice_uninit (message_size s.typesupport) s.world).1;
                })))
          at (ground (arith, own, can_loan, lent, unheld, eq_refl (p.payload sample)))

    self-deliver :
        (sample : p.Sample) (s : Publisher.Session p)
        → (report RetCode.error (deliver sample s)).1.self ≡ s.self
    self-deliver sample s = ground arith

    published-IsWaiting :
        ltb (message_size s.typesupport) (length bytes) ≡ false
        → (q.receive (ch.view s.world)).0 ≡ some none
        → (rmw_publish_loaned_message (some h) (some address) (written h ts address bytes s)).0
          ≡ ok tt
        → (rest : List ℕ) × IsWaiting q (bytes ++ rest) (
            ch.view
              (rmw_publish_loaned_message
                (some h)
                (some address)
                (written h ts address bytes s)).1.world)
    published-IsWaiting fits idle published =
        let (sample, lent, at) = borrowed_sample in
        let same = published-deliver sample lent at in
        let (sent, after) = deliver-world ch sample _ (ap (λ r. r.0) (sym same) ∙ published) in
        let (rest, waits) =
          ch.carries_loan (message_size s.typesupport) bytes sample s.world _
            (given_first (p.loan_slice_uninit (message_size s.typesupport) s.world) (some sample)
              lent)
            fits idle sent in
        (
          rest,
          subst (λ v. IsWaiting q (bytes ++ rest) (ch.view v))
              (sym (ap (λ r. r.1.world) same ∙ after)) waits,
        )

    -- A message that is written into borrowed memory, in which it fits, and published is taken on
    -- loan as it was written: if nothing waits before and both calls of the publisher succeed, the
    -- publisher is as before the two, the next rmw_take_loaned_message gives the address of a payload
    -- that begins with the written bytes, and to return it succeeds and leaves the subscriber as
    -- before. Both handles are of this implementation and may loan; iceoryx2 lends and delivers at no
    -- address that is held, and carries what is sent.
    pub rmw_take_loaned-rmw_publish_loaned :
        (k : SubscriptionHandle) (c : Caller q)
        → Taken.IsOwnHandle k
        → k.can_loan_messages ≡ true
        → c.loaned_message ≡ none
        → DeliversFresh c.session
        → ltb (message_size s.typesupport) (length bytes) ≡ false
        → (q.receive (ch.view s.world)).0 ≡ some none
        → (rmw_publish_loaned_message (some h) (some address) (written h ts address bytes s)).0
          ≡ ok tt
        → c.session.world
          ≡ ch.view
              (rmw_publish_loaned_message
                (some h)
                (some address)
                (written h ts address bytes s)).1.world
        → IsLentTo k bytes c (rmw_take_loaned_message (some k) true true c)
          × ((rmw_publish_loaned_message
                (some h)
                (some address)
                (written h ts address bytes s)).1.self
              ≡ s.self)
    rmw_take_loaned-rmw_publish_loaned k c own' can_loan' empty fresh' fits idle published next =
        let (rest, waits) = published-IsWaiting fits idle published in
        let (sample, lent, at) = borrowed_sample in
        (
          rmw_take_loaned-IsLentTo k c bytes rest own' can_loan' empty fresh'
              (subst (IsWaiting q (bytes ++ rest)) (sym next) waits),
          ap (λ r. r.1.self) (published-deliver sample lent at) ∙ self-deliver sample _,
        )
