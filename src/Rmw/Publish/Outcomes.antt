-- ===== src/Rmw/Publish/Outcomes.antt =====
-- What a publication that succeeds asks of iceoryx2, and that it succeeds whenever iceoryx2 grants
-- it: rmw_publish of src/rmw/publisher.cpp.
use rmw_iceoryx.Common.{
  ◌≡◌, ◌↔◌, ok, none, some, true, false, arith, eq_refl, take, Option, Option-cases, Expected-cases,
  Bool-cases, inl, inr, ap,
}
use rmw_iceoryx.Registry
use rmw_iceoryx.Publisher.{PublisherPort, Session, loan, publish_loan, publish_copy}
use rmw_iceoryx.Publisher.Loans.{LendsFresh}
use rmw_iceoryx.Rmw.Publish.{
  PublisherHandle, rmw_publish, publish_serialized, publish_unserialized, SerializedMessage,
  rmw_serialize, loaned_buffer,
}
use rmw_iceoryx.Rmw.Publish.Messages.{IsOwnHandle, wanted}

module _ {port : PublisherPort} where
  open port use {World, Message, Sample, payload}

  -- Only the middleware has gone on, and to `w`.
  abbrev pub at_world : Session port → World → Session port
  at_world s w = record s { world = w }

  -- The bytes of the message are sent as a copy, and the subscribers are notified.
  pub record SendsCopy (m : Message) (s t : Session port) : Type 0 where
    pub w_sent : World
    pub w_notified : World
    pub sends : port.send_slice_copy (port.image m s.unserialized_size) s.world ≡ (true, w_sent)
    pub notifies : port.notify w_sent ≡ (true, w_notified)
    pub after : t ≡ at_world s w_notified

  -- A loan of the size of the serialized message is filled with it and sent, and the subscribers
  -- are notified.
  pub record SendsSerialized (m : Message) (s t : Session port) : Type 0 where
    pub sample : Sample
    pub serialized : SerializedMessage
    pub w_lent : World
    pub w_sent : World
    pub w_notified : World
    pub lends : port.loan_slice_uninit (wanted m s) s.world ≡ (some sample, w_lent)
    pub serializes :
        rmw_serialize (some m) (some s.typesupport) (some (loaned_buffer (wanted m s)))
        ≡ ok serialized
    pub sends :
        port.send sample
          (port.write (payload sample) (take serialized.buffer_length serialized.buffer) w_lent)
        ≡ (true, w_sent)
    pub notifies : port.notify w_sent ≡ (true, w_notified)
    pub after : t ≡ at_world s w_notified

  -- The message leaves as its handle says.
  pub data Publishes (s t : Session port) : Option PublisherHandle → Option Message → Type 0 where
    as_bytes :
        (h : PublisherHandle) (m : Message)
        → IsOwnHandle h
        → h.can_loan_messages ≡ true
        → SendsCopy m s t
        → Publishes s t (some h) (some m)
    as_message :
        (h : PublisherHandle) (m : Message)
        → IsOwnHandle h
        → h.can_loan_messages ≡ false
        → SendsSerialized m s t
        → Publishes s t (some h) (some m)

  publish_unserialized-SendsCopy :
      (m : Message) (s t : Session port) → publish_unserialized m s ≡ (ok tt, t) → SendsCopy m s t
  unfolding publish_unserialized publish_copy
  publish_unserialized-SendsCopy m s t e =
      let sent = port.send_slice_copy (port.image m s.unserialized_size) s.world in
      elim (Bool-cases sent.0) [
        | inr refused ↦ absurd (ground (arith, e, refused))
        | inl sends ↦ elim (Bool-cases (port.notify sent.1).0) [
          | inr refused ↦ absurd (ground (arith, e, sends, refused))
          | inl notifies ↦ record {
            w_sent = sent.1;
            w_notified = (port.notify sent.1).1;
            sends = ground (arith, sends);
            notifies = ground (arith, notifies);
            after = ground (arith, e, sends, notifies);
          }
        ]
      ]

  SendsCopy-publish_unserialized :
      (m : Message) (s t : Session port) → SendsCopy m s t → publish_unserialized m s ≡ (ok tt, t)
  unfolding publish_unserialized publish_copy
  SendsCopy-publish_unserialized m s t p = ground (arith, p.sends, p.notifies, p.after)

  publish_serialized-SendsSerialized :
      (m : Message) (s t : Session port)
      → LendsFresh s
      → publish_serialized m s ≡ (ok tt, t)
      → SendsSerialized m s t
  unfolding publish_serialized loan publish_loan Registry.retrieve Registry.store Registry.release
  publish_serialized-SendsSerialized m s t fresh e =
      let lent = port.loan_slice_uninit (wanted m s) s.world in
      elim (Option-cases lent.0) [
        | inl refused ↦ absurd (ground (arith, e, refused))
        | inr (sample, lends) ↦
            elim (Expected-cases
              (rmw_serialize (some m) (some s.typesupport) (some (loaned_buffer (wanted m s))))) [
                | inr (c, fails) ↦ absurd (ground (arith, e, lends, fails))
                | inl (text, serializes) ↦
                    let sent =
                      port.send sample (
                        port.write (payload sample) (take text.buffer_length text.buffer) lent.1) in
                    elim (Bool-cases sent.0) [
                      | inr refused ↦ absurd (
                          ground (
                            arith,
                            e,
                            lends,
                            serializes,
                            refused,
                            fresh (wanted m s) sample lends,
                            eq_refl (payload sample),
                          ))
                      | inl sends ↦ elim (Bool-cases (port.notify sent.1).0) [
                        | inr refused ↦ absurd (
                            ground (
                              arith,
                              e,
                              lends,
                              serializes,
                              sends,
                              refused,
                              fresh (wanted m s) sample lends,
                              eq_refl (payload sample),
                            ))
                        | inl notifies ↦ record {
                          sample = sample;
                          serialized = text;
                          w_lent = lent.1;
                          w_sent = sent.1;
                          w_notified = (port.notify sent.1).1;
                          lends = ground (arith, lends);
                          serializes = serializes;
                          sends = ground (arith, sends);
                          notifies = ground (arith, notifies);
                          after = ground (
                            arith,
                            e,
                            lends,
                            serializes,
                            sends,
                            notifies,
                            fresh (wanted m s) sample lends,
                            eq_refl (payload sample),
                          );
                        }
                      ]
                    ]
              ]
      ]

  SendsSerialized-publish_serialized :
      (m : Message) (s t : Session port)
      → LendsFresh s
      → SendsSerialized m s t
      → publish_serialized m s ≡ (ok tt, t)
  unfolding publish_serialized loan publish_loan Registry.retrieve Registry.store Registry.release
  SendsSerialized-publish_serialized m s t fresh p = ground (
    arith,
    p.lends,
    p.serializes,
    p.sends,
    p.notifies,
    p.after,
    fresh (wanted m s) p.sample (ap (λ r. r.0) p.lends),
    eq_refl (payload p.sample),
  )

  own_handle-Publishes :
      (h : PublisherHandle) (m : Message) (s t : Session port)
      → LendsFresh s
      → IsOwnHandle h
      → rmw_publish (some h) (some m) s ≡ (ok tt, t)
      → Publishes s t (some h) (some m)
  unfolding rmw_publish
  own_handle-Publishes h m s t fresh own e = elim (Bool-cases h.can_loan_messages) [
    | inl loans ↦
        as_bytes h m own loans
          (publish_unserialized-SendsCopy m s t (ground (arith, e, own, loans)))
    | inr plain ↦
        as_message h m own plain
          (publish_serialized-SendsSerialized m s t fresh (ground (arith, e, own, plain)))
  ]

  rmw_publish-IsOwnHandle :
      (h : PublisherHandle) (m : Message) (s t : Session port)
      → rmw_publish (some h) (some m) s ≡ (ok tt, t)
      → IsOwnHandle h
  unfolding rmw_publish
  rmw_publish-IsOwnHandle h m s t e = (ground (arith, e), ground (arith, e))

  rmw_publish-to :
      (h : Option PublisherHandle) (msg : Option Message) (s t : Session port)
      → LendsFresh s
      → rmw_publish h msg s ≡ (ok tt, t)
      → Publishes s t h msg
  unfolding rmw_publish
  rmw_publish-to none msg s t fresh e = absurd (cc)
  rmw_publish-to (some h) none s t fresh e = absurd (ground (arith, e))
  rmw_publish-to (some h) (some m) s t fresh e =
      own_handle-Publishes h m s t fresh (rmw_publish-IsOwnHandle h m s t e) e

  rmw_publish-from :
      (h : Option PublisherHandle) (msg : Option Message) (s t : Session port)
      → LendsFresh s
      → Publishes s t h msg
      → rmw_publish h msg s ≡ (ok tt, t)
  unfolding rmw_publish
  rmw_publish-from _ _ s t fresh (as_bytes h m own loans p) =
      ground (arith, own, loans, SendsCopy-publish_unserialized m s t p)
  rmw_publish-from _ _ s t fresh (as_message h m own plain p) =
      ground (arith, own, plain, SendsSerialized-publish_serialized m s t fresh p)

  -- rmw_publish returns RMW_RET_OK exactly if the handle is of this implementation and in place, the
  -- message is given, and iceoryx2 grants what its kind asks for: a self-contained message is sent
  -- as a copy of its bytes; another is serialized into a loan of its serialized size, which is then
  -- sent. In both cases the subscribers are notified, and nothing but the middleware has changed,
  -- if iceoryx2 lends no address that is held.
  pub rmw_publish-Publishes :
      (h : Option PublisherHandle) (msg : Option Message) (s t : Session port)
      → LendsFresh s
      → (rmw_publish h msg s ≡ (ok tt, t)) ↔ Publishes s t h msg
  rmw_publish-Publishes h msg s t fresh =
      (rmw_publish-to h msg s t fresh, rmw_publish-from h msg s t fresh)
