-- ===== src/WaitSet/Waiting/Triggers.antt =====
-- The steps of one wait: what they attach and report is mapped, and they leave the wait set as it is.
use rmw_iceoryx.Common.{
  All, List, Option, [], arith, inl, inr, none, ok, refl, some, ℕ, ◌∷◌, ◌≡◌, ◌⊎◌, All-append,
  Bool-cases, Expected, err, ◌==◌, subst, continue, sym, ◌>>◌,
}
use rmw_iceoryx.Errors.{WaitSetError}
use rmw_iceoryx.WaitSet.{WaitableEntity, WaitSetPort, RmwMapping, WaitSet}
use rmw_iceoryx.WaitSet.Waiting.{
  AttachmentDetails, WaitContext, TriggeredWaitable, triggered, attach_timeout,
  attach_mapped_listener, attach_mapped_listeners, process_trigger, find_attachment, record_trigger,
  handle_attachment, on_event, process_events, add_attachment, id_of,
}

abbrev pub Among : RmwMapping → List RmwMapping → Type 0
Among m [] = ⊥
Among m (n ∷ ns) = (m ≡ n) ⊎ Among m ns

-- The entity and the index of one of the mappings.
abbrev pub IsTriggered : List RmwMapping → TriggeredWaitable → Type 0
IsTriggered ms t = (m : RmwMapping) × Among m ms × (t ≡ triggered m)

pub Among-All :
    (ms ns : List RmwMapping)
    → ((m : RmwMapping) → Among m ms → Among m ns)
    → All (λ m. Among m ns) ms
Among-All [] ns h = tt
Among-All (m ∷ ms) ns h = (h m (inl refl), Among-All ms ns (λ n a. h n (inr a)))

module _ {port : WaitSetPort} where
  pub record Inv (w : WaitSet port) (ctx : WaitContext port) : Type 0 where
    pub same : ctx.session.self ≡ w
    pub attached : All (λ a. Among a.mapping w.mapping) ctx.attached_listeners
    pub results : All (IsTriggered w.mapping) ctx.result

  module _ (w : WaitSet port) where
    pub attach_timeout-Inv :
        (t : Option ℕ) (ctx : WaitContext port) → Inv w ctx → Inv w (attach_timeout t ctx).1
    unfolding attach_timeout
    attach_timeout-Inv none ctx v = v
    attach_timeout-Inv (some t) ctx v = ground arith

    attach_mapped_listener-Inv :
        (m : RmwMapping) (ctx : WaitContext port)
        → Inv w ctx
        → Inv w (attach_mapped_listener m ctx).1
    unfolding attach_mapped_listener
    attach_mapped_listener-Inv m ctx v = ground arith

    attach_mapped_listener-mapping :
        (m : RmwMapping) (ctx : WaitContext port) (a : AttachmentDetails port)
        → (attach_mapped_listener m ctx).0 ≡ ok a
        → a.mapping ≡ m
    unfolding attach_mapped_listener
    attach_mapped_listener-mapping m ctx a h = ground arith

    process_trigger-Inv :
        (e : WaitableEntity) (i : ℕ) (ctx : WaitContext port)
        → Inv w ctx
        → Inv w (process_trigger e i ctx).1
    unfolding process_trigger
    process_trigger-Inv e i ctx v = ground arith

    find_attachment-All :
        (id : ℕ) (as' : List (AttachmentDetails port)) (a : AttachmentDetails port)
        → All (λ a. Among a.mapping w.mapping) as'
        → find_attachment id as' ≡ some a
        → Among a.mapping w.mapping
    unfolding find_attachment
    find_attachment-All id [] a h e = absurd (cc)
    find_attachment-All id (b ∷ bs) a h e = elim (Bool-cases (id_of b == id)) [
      | inl hit ↦
          let same : b ≡ a = ground (arith, hit, e) in
          subst (λ x. Among x.mapping w.mapping) same h.0
      | inr miss ↦ find_attachment-All id bs a h.1 (ground (arith, miss, e))
    ]

    add_attachment-Inv :
        (a : AttachmentDetails port) (ctx : WaitContext port)
        → Among a.mapping w.mapping
        → Inv w ctx
        → Inv w (add_attachment a ctx).1
    add_attachment-Inv a ctx h v = record {
      same = v.same;
      attached = All-append _ ctx.attached_listeners (a ∷ []) v.attached (h, tt);
      results = v.results;
    }

    record_trigger-Inv :
        (m : RmwMapping) (r : Expected WaitSetError (Unit {0}) × WaitContext port)
        → Among m w.mapping
        → Inv w r.1
        → Inv w (record_trigger m r)
    record_trigger-Inv m (ok _, ctx) h v = record {
      same = v.same;
      attached = v.attached;
      results = All-append _ ctx.result (triggered m ∷ []) v.results ((m, h, refl), tt);
    }
    record_trigger-Inv m (err e, ctx) h v = v

    handle_attachment-Inv :
        (o : Option (AttachmentDetails port)) (ctx : WaitContext port)
        → ((a : AttachmentDetails port) → o ≡ some a → Among a.mapping w.mapping)
        → Inv w ctx
        → Inv w (handle_attachment o ctx)
    unfolding handle_attachment
    handle_attachment-Inv none ctx h v = v
    handle_attachment-Inv (some a) ctx h v =
        record_trigger-Inv a.mapping
          (process_trigger a.mapping.waitable_type a.mapping.storage_index ctx) (h a refl)
          (process_trigger-Inv a.mapping.waitable_type a.mapping.storage_index ctx v)

    on_event-Inv : (id : ℕ) (ctx : WaitContext port) → Inv w ctx → Inv w (on_event id ctx).1
    unfolding on_event
    on_event-Inv id ctx v = ground (
      arith,
      v,
      handle_attachment-Inv (find_attachment id ctx.attached_listeners) ctx
          (λ a e. find_attachment-All id ctx.attached_listeners a v.attached e) v,
    )

    pub process_events-Inv :
        (ids : List ℕ) (ctx : WaitContext port) → Inv w ctx → Inv w (process_events ids ctx)
    unfolding process_events
    process_events-Inv [] ctx v = v
    process_events-Inv (id ∷ ids) ctx v =
        ground (arith, on_event-Inv id ctx v, process_events-Inv ids (on_event id ctx).1)

    attached-Inv :
        (r : Expected WaitSetError (AttachmentDetails port) × WaitContext port)
        (ms : List RmwMapping)
        → ((a : AttachmentDetails port) → r.0 ≡ ok a → Among a.mapping w.mapping)
        → ((ctx : WaitContext port) → Inv w ctx → Inv w (attach_mapped_listeners ms ctx).1)
        → Inv w r.1
        → Inv w (continue r (λ a. add_attachment a >> attach_mapped_listeners ms)).1
    attached-Inv (ok a, ctx) ms h rest v =
        rest (add_attachment a ctx).1 (add_attachment-Inv a ctx (h a refl) v)
    attached-Inv (err e, ctx) ms h rest v = v

    pub attach_mapped_listeners-Inv :
        (ms : List RmwMapping) (ctx : WaitContext port)
        → All (λ m. Among m w.mapping) ms
        → Inv w ctx
        → Inv w (attach_mapped_listeners ms ctx).1
    unfolding attach_mapped_listeners
    attach_mapped_listeners-Inv [] ctx h v = v
    attach_mapped_listeners-Inv (m ∷ ms) ctx h v =
        attached-Inv (attach_mapped_listener m ctx) ms
          (λ a e.
            subst (λ n. Among n w.mapping) (sym (attach_mapped_listener-mapping m ctx a e)) h.0)
          (λ ctx' v'. attach_mapped_listeners-Inv ms ctx' h.1 v')
          (attach_mapped_listener-Inv m ctx v)
