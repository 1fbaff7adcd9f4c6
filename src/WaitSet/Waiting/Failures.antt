-- ===== src/WaitSet/Waiting/Failures.antt =====
-- How `wait` can fail.
use rmw_iceoryx.WaitSet.{WaitSetPort, Session, WaitSet, RmwMapping, listener_storage, WaitSetError}
use rmw_iceoryx.WaitSet.Mapping.{IsValid, IsStored}
use rmw_iceoryx.WaitSet.Waiting.{
  wait, AttachmentDetails, WaitContext, attach_timeout, attach_mapped_listener,
  attach_mapped_listeners, wait_and_process, add_attachment, wait_attached, wait_mapped, leave,
  start,
}
use rmw_iceoryx.Common.{
  All, Expected, List, [], arith, continue, err, get_elem?-is_some, inl, ok, ◌>>◌, ◌∙◌, ◌∷◌, ◌≡◌,
  ◌⊎◌, Bool-cases, Exec, Option, inr, none, refl, some, ℕ, ◌==◌,
}

-- The failures that iceoryx2 causes.
abbrev pub IsMiddlewareFailure : WaitSetError → Type 0
IsMiddlewareFailure e = (e ≡ WaitSetError.attachment_failure) ⊎ (e ≡ WaitSetError.wait_failure)

abbrev FailsBy : {A S : Type 0} → Expected WaitSetError A × S → Type 0
FailsBy r = (e : WaitSetError) → r.0 ≡ err e → IsMiddlewareFailure e

module _ {port : WaitSetPort} where
  module _ (w : WaitSet port) where
    abbrev IsOf : WaitContext port → Type 0
    IsOf ctx = ctx.session.self ≡ w

    attach_mapped_listener-fails :
        (m : RmwMapping) (ctx : WaitContext port)
        → IsOf ctx
        → IsStored w m
        → FailsBy (attach_mapped_listener m ctx)
    unfolding attach_mapped_listener
    attach_mapped_listener-fails m ctx same lt e fails =
        let (d, found) =
          get_elem?-is_some (listener_storage m.waitable_type w) m.storage_index lt in
        inl (ground (arith, found, same, fails))

    attach_mapped_listener-same :
        (m : RmwMapping) (ctx : WaitContext port)
        → (attach_mapped_listener m ctx).1.session.self ≡ ctx.session.self
    unfolding attach_mapped_listener
    attach_mapped_listener-same m ctx = ground arith

    attached-fails :
        (r : Expected WaitSetError (AttachmentDetails port) × WaitContext port)
        (ms : List RmwMapping)
        → FailsBy r
        → ((ctx : WaitContext port) → IsOf ctx → FailsBy (attach_mapped_listeners ms ctx))
        → IsOf r.1
        → FailsBy (continue r (λ a. add_attachment a >> attach_mapped_listeners ms))
    attached-fails (ok a, ctx) ms h rest v c fails = rest (add_attachment a ctx).1 v c fails
    attached-fails (err e, ctx) ms h rest v c fails = h c (ground (arith, fails))

    attach_mapped_listeners-fails :
        (ms : List RmwMapping) (ctx : WaitContext port)
        → IsOf ctx
        → All (IsStored w) ms
        → FailsBy (attach_mapped_listeners ms ctx)
    unfolding attach_mapped_listeners
    attach_mapped_listeners-fails [] ctx same h = λ e fails. absurd (cc)
    attach_mapped_listeners-fails (m ∷ ms) ctx same h =
        attached-fails (attach_mapped_listener m ctx) ms
          (attach_mapped_listener-fails m ctx same h.0)
          (λ ctx' same'. attach_mapped_listeners-fails ms ctx' same' h.1)
          (attach_mapped_listener-same m ctx ∙ same)

  attach_timeout-fails : (t : Option ℕ) (ctx : WaitContext port) → FailsBy (attach_timeout t ctx)
  unfolding attach_timeout
  attach_timeout-fails none ctx e fails = absurd (cc)
  attach_timeout-fails (some t) ctx e fails = inl (ground arith)

  attach_timeout-same :
      (t : Option ℕ) (ctx : WaitContext port)
      → (attach_timeout t ctx).1.session.self ≡ ctx.session.self
  unfolding attach_timeout
  attach_timeout-same none ctx = refl
  attach_timeout-same (some t) ctx = ground arith

  wait_and_process-fails :
      (t : Option ℕ) (ctx : WaitContext port) → FailsBy (wait_and_process t ctx)
  unfolding wait_and_process
  wait_and_process-fails t ctx e fails = inr (ground arith)

  then-fails :
      {A : Type 0} (Q : WaitContext port → Type 0)
      (r : Expected WaitSetError (Unit {0}) × WaitContext port)
      (f : Exec (WaitContext port) WaitSetError A)
      → Q r.1
      → FailsBy r
      → ((ctx : WaitContext port) → Q ctx → FailsBy (f ctx))
      → FailsBy (continue r (λ _. f))
  then-fails Q (ok _, ctx) f same h rest c fails = rest ctx same c fails
  then-fails Q (err e, ctx) f same h rest c fails = h c (ground (arith, fails))

  wait_attached-fails :
      (t : Option ℕ) (s : Session port) → IsValid s.self → FailsBy (wait_attached t s)
  unfolding wait_attached leave
  wait_attached-fails t s v =
      then-fails (IsOf s.self) (attach_timeout t (start s)) _ (attach_timeout-same t (start s))
        (attach_timeout-fails t (start s))
        λ ctx same.
          then-fails (λ _. Unit) (attach_mapped_listeners s.mapping ctx) _ tt
            (attach_mapped_listeners-fails s.self s.mapping ctx same v.in_range)
            λ ctx' _. wait_and_process-fails t ctx'

  wait_mapped-fails :
      (ms : List RmwMapping) (t : Option ℕ) (s : Session port)
      → IsValid s.self
      → FailsBy (wait_mapped ms t s)
  unfolding wait_mapped
  wait_mapped-fails (m ∷ ms) t s v e fails = wait_attached-fails t s v e fails
  wait_mapped-fails [] none s v e fails = inr (ground arith)
  wait_mapped-fails [] (some t) s v e fails = elim (Bool-cases (t == 0)) [
    | inl zero_t ↦ absurd (ground (arith, zero_t, fails))
    | inr more ↦ wait_attached-fails (some t) s v e (ground (arith, more, fails))
  ]

  -- On a well-formed wait set a wait fails only when iceoryx2 refuses an attachment or the wait
  -- itself, or when there is nothing to wait for: never for an index that is not stored.
  pub wait-IsMiddlewareFailure :
      (t : Option ℕ) (s : Session port) (e : WaitSetError)
      → IsValid s.self
      → (wait t s).0 ≡ err e
      → IsMiddlewareFailure e
  unfolding wait
  wait-IsMiddlewareFailure t s e v = wait_mapped-fails s.mapping t s v e
