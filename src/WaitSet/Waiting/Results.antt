-- ===== src/WaitSet/Waiting/Results.antt =====
-- What `wait` reports and returns, and what it leaves of the wait set.
use rmw_iceoryx.Common.{
  All, Bool-cases, Exec, Expected, List, Option, [], arith, continue, err, inl, inr, none, ok,
  or_raise, refl, some, subst, sym, ℕ, ◌==◌, ◌>>=◌, ◌∷◌, ◌≡◌,
}
use rmw_iceoryx.Errors.{WaitSetError}
use rmw_iceoryx.WaitSet.{WaitSetPort, RmwMapping, WaitSet, Session}
use rmw_iceoryx.WaitSet.Waiting.{
  WaitContext, TriggeredWaitable, attach_timeout, attach_mapped_listeners, process_events,
  wait_and_process, leave, start, wait_attached, wait, wait_mapped,
}
use rmw_iceoryx.WaitSet.Waiting.Triggers.{
  Inv, IsTriggered, Among-All, attach_timeout-Inv, process_events-Inv, attach_mapped_listeners-Inv,
}

module _ {port : WaitSetPort} where
  module _ (w : WaitSet port) where
    -- What a call of `wait` returns, with the context that it ends in.
    abbrev Ends : Expected WaitSetError (List TriggeredWaitable) × WaitContext port → Type 0
    Ends r = Inv w r.1 × ((ts : List TriggeredWaitable) → r.0 ≡ ok ts → ts ≡ r.1.result)

    processed-Ends :
        (o : Option (List ℕ)) (ctx : WaitContext port)
        → Inv w ctx
        → Ends (
            (or_raise o WaitSetError.wait_failure >>= λ ids ctx.
            (ok (process_events ids ctx).result, process_events ids ctx))
              ctx)
    processed-Ends none ctx v = (v, λ ts e. absurd (cc))
    processed-Ends (some ids) ctx v = (process_events-Inv w ids ctx v, λ ts e. ground arith)

    wait_and_process-Ends :
        (t : Option ℕ) (ctx : WaitContext port) → Inv w ctx → Ends (wait_and_process t ctx)
    unfolding wait_and_process
    wait_and_process-Ends t ctx v =
        processed-Ends (port.wait_and_process_once t ctx.session.world).0
          (record ctx {
            session = record (ctx.session) {
              world = (port.wait_and_process_once t ctx.session.world).1;
            };
          })
          (record { same = v.same; attached = v.attached; results = v.results })

    then-Ends :
        (r : Expected WaitSetError (Unit {0}) × WaitContext port)
        (f : Exec (WaitContext port) WaitSetError (List TriggeredWaitable))
        → Inv w r.1
        → ((ctx : WaitContext port) → Inv w ctx → Ends (f ctx))
        → Ends (continue r (λ _. f))
    then-Ends (ok _, ctx) f v rest = rest ctx v
    then-Ends (err e, ctx) f v rest = (v, λ ts h. absurd (cc))

  -- What `wait` promises of its result and of the session after it.
  abbrev pub Waits :
      Session port → Expected WaitSetError (List TriggeredWaitable) × Session port → Type 0
  Waits s r =
      (r.1.self ≡ s.self)
      × ((ts : List TriggeredWaitable) → r.0 ≡ ok ts → All (IsTriggered s.mapping) ts)

  leave-Waits :
      (s : Session port) (r : Expected WaitSetError (List TriggeredWaitable) × WaitContext port)
      → Ends s.self r
      → Waits s (leave r)
  unfolding leave
  leave-Waits s r (v, h) =
      (v.same, λ ts e. subst (All (IsTriggered s.mapping)) (sym (h ts e)) v.results)

  wait_attached-Waits : (t : Option ℕ) (s : Session port) → Waits s (wait_attached t s)
  unfolding wait_attached
  wait_attached-Waits t s = leave-Waits s _ (
      then-Ends s.self (attach_timeout t (start s)) _
        (attach_timeout-Inv s.self t (start s)
          (record { same = refl; attached = tt; results = tt }))
        λ ctx v.
          then-Ends s.self (attach_mapped_listeners s.mapping ctx) _
            (attach_mapped_listeners-Inv s.self s.mapping ctx
              (Among-All s.mapping s.mapping (λ m a. a)) v)
            λ ctx' v'. wait_and_process-Ends s.self t ctx' v')

  wait_mapped-Waits :
      (ms : List RmwMapping) (t : Option ℕ) (s : Session port) → Waits s (wait_mapped ms t s)
  unfolding wait_mapped
  wait_mapped-Waits (m ∷ ms) t s = wait_attached-Waits t s
  wait_mapped-Waits [] none s = (refl, λ ts e. absurd (cc))
  wait_mapped-Waits [] (some t) s = elim (Bool-cases (t == 0)) [
    | inl zero_t ↦ rw zero_t (
      refl,
      λ ts e. let same : [] ≡ ts = ground (arith, e) in subst (All (IsTriggered s.mapping)) same tt,
    )
    | inr more ↦ rw more (wait_attached-Waits (some t) s)
  ]

  pub wait-Waits : (t : Option ℕ) (s : Session port) → Waits s (wait t s)
  unfolding wait
  wait-Waits t s = wait_mapped-Waits s.mapping t s

  -- Whatever iceoryx2 does, a wait leaves the stored listeners and the mapping as they are.
  pub wait-self : (t : Option ℕ) (s : Session port) → (wait t s).1.self ≡ s.self
  wait-self t s = (wait-Waits t s).0

  -- Whatever ids iceoryx2 reports, each waitable that a wait reports is one of the mapping, with
  -- the kind and the index that it was mapped with.
  pub wait-IsTriggered :
      (t : Option ℕ) (s : Session port) (ts : List TriggeredWaitable)
      → (wait t s).0 ≡ ok ts
      → All (IsTriggered s.mapping) ts
  wait-IsTriggered t s = (wait-Waits t s).1

  -- With nothing mapped a wait with no timeout fails at once, and a zero timeout reports nothing
  -- at once; neither touches the middleware.
  pub wait_unmapped :
      (s : Session port)
      → s.mapping ≡ []
      → (wait none s ≡ (err WaitSetError.wait_failure, s)) × (wait (some 0) s ≡ (ok [], s))
  unfolding wait wait_mapped
  wait_unmapped s e = ground arith
