-- ===== src/WaitSet/Waiting/Exact.antt =====
-- What `wait` returns, exactly: the waitables behind the ids that iceoryx2 reports.
use rmw_iceoryx.WaitSet.Waiting.Callback.{reported, process_events-reported}
use rmw_iceoryx.Common.{
  All, List, Option, [], none, some, ok, ℕ, ◌++◌, ◌∷◌, ◌≡◌, refl, arith, Expected, true, ap, err,
  inl, inr, sym, subst, ◌∙◌, Option-cases, continue, ◌>>◌, ◌≢◌,
}
use mathlib.Core.List.{append_assoc, append-nil}
use rmw_iceoryx.Errors.{WaitSetError}
use rmw_iceoryx.WaitSet.{WaitSetPort, RmwMapping, WaitSet, Session}
use rmw_iceoryx.WaitSet.Mapping.{IsStored, IsValid}
use rmw_iceoryx.WaitSet.Waiting.{
  AttachmentDetails, WaitContext, TriggeredWaitable, process_events, attach_mapped_listener,
  attach_timeout, start, attach_mapped_listeners, add_attachment, wait, wait_and_process,
  wait_attached, leave, wait_mapped,
}

module _ {port : WaitSetPort} where
  open port use {Guard, World, Listener}

  -- The mappings that are attached.
  abbrev pub mappings_of : List (AttachmentDetails port) → List RmwMapping
  mappings_of [] = []
  mappings_of (a ∷ as') = a.mapping ∷ mappings_of as'

  pub mappings_of-append :
      (as' bs : List (AttachmentDetails port))
      → mappings_of (as' ++ bs) ≡ mappings_of as' ++ mappings_of bs
  mappings_of-append [] bs = refl
  mappings_of-append (a ∷ as') bs = ap (◌∷◌ a.mapping) (mappings_of-append as' bs)

  pub All-mappings_of :
      (P : RmwMapping → Type 0) (as' : List (AttachmentDetails port))
      → All P (mappings_of as')
      → All (λ a. P a.mapping) as'
  All-mappings_of P [] h = tt
  All-mappings_of P (a ∷ as') h = (h.0, All-mappings_of P as' h.1)

  record Attached (w : WaitSet port) (ms : List RmwMapping) (ctx : WaitContext port) : Type 0 where
    listed : mappings_of ctx.attached_listeners ≡ ms
    result : ctx.result ≡ []
    self : ctx.session.self ≡ w

  attach_timeout-Attached :
      (t : Option ℕ) (s : Session port) → Attached s.self [] (attach_timeout t (start s)).1
  unfolding attach_timeout
  attach_timeout-Attached none s = record { listed = refl; result = refl; self = refl }
  attach_timeout-Attached (some t) s = record {
    listed = ground arith;
    result = ground arith;
    self = ground arith;
  }

  attach_mapped_listener-Attached :
      (w : WaitSet port) (ms : List RmwMapping) (m : RmwMapping) (ctx : WaitContext port)
      → Attached w ms ctx
      → Attached w ms (attach_mapped_listener m ctx).1
        × ((a : AttachmentDetails port) → (attach_mapped_listener m ctx).0 ≡ ok a → a.mapping ≡ m)
  unfolding attach_mapped_listener
  attach_mapped_listener-Attached w ms m ctx v = (
    record {
      listed = ground (arith, v.listed);
      result = ground (arith, v.result);
      self = ground (arith, v.self);
    },
    λ a e. ground (arith, e),
  )

  -- If all could be attached, it is attached after what was attached before.
  abbrev IfAttached :
      WaitSet port → List RmwMapping → Expected WaitSetError (Unit {0}) × WaitContext port → Type 0
  IfAttached w ms r = r.0 ≡ ok tt → Attached w ms r.1

  Attached-one :
      (w : WaitSet port) (before : List RmwMapping) (m : RmwMapping) (ms : List RmwMapping)
      (r : Expected WaitSetError (AttachmentDetails port) × WaitContext port)
      → Attached w before r.1
      → ((a : AttachmentDetails port) → r.0 ≡ ok a → a.mapping ≡ m)
      → ((ctx : WaitContext port)
          → Attached w (before ++ m ∷ []) ctx
          → IfAttached w ((before ++ m ∷ []) ++ ms) (attach_mapped_listeners ms ctx))
      → IfAttached w
          ((before ++ m ∷ []) ++ ms)
          (continue r (λ a. add_attachment a >> attach_mapped_listeners ms))
  Attached-one w before m ms (err e, ctx) v own rest = λ e. absurd (cc)
  Attached-one w before m ms (ok a, ctx) v own rest = rest (add_attachment a ctx).1 (record {
    listed = mappings_of-append ctx.attached_listeners (a ∷ []) ∙ rw (v.listed, own a refl) refl;
    result = v.result;
    self = v.self;
  })

  attach_mapped_listeners-Attached :
      (w : WaitSet port) (before ms : List RmwMapping) (ctx : WaitContext port)
      → Attached w before ctx
      → IfAttached w (before ++ ms) (attach_mapped_listeners ms ctx)
  unfolding attach_mapped_listeners
  attach_mapped_listeners-Attached w before [] ctx v =
      λ e. subst (λ ms. Attached w ms ctx) (sym (append-nil before)) v
  attach_mapped_listeners-Attached w before (m ∷ ms) ctx v =
      let (after, own) = attach_mapped_listener-Attached w before m ctx v in
      subst (λ all. IfAttached w all (attach_mapped_listeners (m ∷ ms) ctx))
        (append_assoc before (m ∷ []) ms)
        (Attached-one w before m ms (attach_mapped_listener m ctx) after own
          (λ ctx' v'. attach_mapped_listeners-Attached w (before ++ m ∷ []) ms ctx' v'))

  -- The wait is over the whole mapping: in the context that is attached iceoryx2 reports ids, and
  -- the waitables are those behind them.
  abbrev pub WaitsFor : Option ℕ → Session port → List TriggeredWaitable → Type 0
  WaitsFor t s ts =
      (start' ctx : WaitContext port) × (ids : List ℕ) × (attach_timeout t (start s)
        ≡ (ok tt, start'))
      × (attach_mapped_listeners s.mapping start' ≡ (ok tt, ctx))
      × (mappings_of ctx.attached_listeners ≡ s.mapping)
      × ((port.wait_and_process_once t ctx.session.world).0 ≡ some ids)
      × (ts ≡ reported ctx.attached_timeout ctx.attached_listeners ids)

  module _ (drains : (l : Listener) (w : World) → (port.try_wait_all l w).0 ≡ true) (t : Option ℕ)
      (s : Session port) (v : IsValid s.self) (ts : List TriggeredWaitable) where
    processed :
        (ctx : WaitContext port)
        → Attached s.self s.mapping ctx
        → (wait_and_process t ctx).0 ≡ ok ts
        → (ids : List ℕ) × ((port.wait_and_process_once t ctx.session.world).0 ≡ some ids)
          × (ts ≡ reported ctx.attached_timeout ctx.attached_listeners ids)
    unfolding wait_and_process
    processed ctx a e = elim (Option-cases (port.wait_and_process_once t ctx.session.world).0) [
      | inl failed ↦ absurd (ground (arith, e, failed))
      | inr (ids, reports) ↦
          let ctx' : WaitContext port = record ctx {
            session = record (ctx.session) {
              world = (port.wait_and_process_once t ctx.session.world).1;
            };
          } in
          let stored : All (IsStored s.self) (mappings_of ctx.attached_listeners) =
            subst (All (IsStored s.self)) (sym a.listed) v.in_range in
          let results : ts ≡ (process_events ids ctx').result = ground (arith, e, reports) in
          (
            ids,
            reports,
            results
                ∙ (process_events-reported drains s.self ids ctx' a.self
                      (All-mappings_of (IsStored s.self) ctx.attached_listeners stored)
                    ∙ ap (λ rs. rs ++ reported ctx.attached_timeout ctx.attached_listeners ids)
                        a.result),
          )
    ]

    attached_all :
        (start' : WaitContext port) (r : Expected WaitSetError (Unit {0}) × WaitContext port)
        → attach_timeout t (start s) ≡ (ok tt, start')
        → attach_mapped_listeners s.mapping start' ≡ r
        → IfAttached s.self s.mapping r
        → (continue r (λ _. wait_and_process t)).0 ≡ ok ts
        → WaitsFor t s ts
    attached_all start' (err x, ctx) e f a g = absurd (cc)
    attached_all start' (ok u, ctx) e f a g =
        let (ids, reports, same) = processed ctx (a refl) g in
        (start', ctx, ids, e, f, (a refl).listed, reports, same)

    timeout-Attached :
        (r : Expected WaitSetError (Unit {0}) × WaitContext port)
        → attach_timeout t (start s) ≡ r
        → Attached s.self [] r.1
        → (continue r (λ _. attach_mapped_listeners s.mapping >> wait_and_process t)).0 ≡ ok ts
        → WaitsFor t s ts
    timeout-Attached (err x, ctx) e a g = absurd (cc)
    timeout-Attached (ok u, ctx) e a g =
        attached_all ctx (attach_mapped_listeners s.mapping ctx) e refl
          (attach_mapped_listeners-Attached s.self [] s.mapping ctx a) g

    wait_mapped-eq : (ms : List RmwMapping) → ms ≢ [] → wait_mapped ms t s ≡ wait_attached t s
    unfolding wait_mapped
    wait_mapped-eq [] some_mapped = absurd (some_mapped refl)
    wait_mapped-eq (m ∷ ms) some_mapped = refl

    pub wait-WaitsFor : s.mapping ≢ [] → (wait t s).0 ≡ ok ts → WaitsFor t s ts
    unfolding wait wait_attached leave
    wait-WaitsFor some_mapped e =
        timeout-Attached (attach_timeout t (start s)) refl (attach_timeout-Attached t s)
          (ap (λ r. r.0) (sym (wait_mapped-eq s.mapping some_mapped)) ∙ e)
