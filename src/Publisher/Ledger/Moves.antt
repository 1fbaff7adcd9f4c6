-- ===== src/Publisher/Ledger/Moves.antt =====
-- Each call on a publisher is a move of the ledger's view, and the moves keep the balance.
use rmw_iceoryx.Common.{
  ℕ, ◌≡◌, refl, ap, sym, subst, Bool-cases, ◌∙◌, some, List, [], ◌∷◌, map, arith, eq_refl, ◌==◌,
  inl, inr, Option-cases,
}
use mathlib.Core.List.Perm
use mathlib.Core.List.{Perm}
use mathlib.Core.Quot.{sound}
use mathlib.Mathlib.Data.Multiset.Defs.{of_list}
use mathlib.Mathlib.Data.Multiset.ZeroCons.{cons}
use mathlib.Mathlib.Data.Multiset.AddSub.{add, cons-add, add-cons, zero-add}
use rmw_iceoryx.Registry
use rmw_iceoryx.Registry.{find, erase}
use rmw_iceoryx.Publisher.{PublisherPort, Session, loan, return_loan, publish_loan, publish_copy}
use rmw_iceoryx.Publisher.Loans.{
  Call, loans, returns, publishes, copies, step, run, LendsFresh, deliver,
}
use rmw_iceoryx.Publisher.Ledger.{
  audited, View, Move, keeps, lends, sends, drops, IsBalanced, view, held_samples, Step, IsFresh,
  return_all, calls, Reach, here, next,
}

Move-IsBalanced : {Sample : Type 0} {v w : View Sample} → Move v w → IsBalanced v → IsBalanced w
Move-IsBalanced {v} (keeps e) b = subst IsBalanced (sym e) b
Move-IsBalanced {v} {w} (lends a e) b =
    subst IsBalanced (sym e) (ap (cons a) b ∙ sym (cons-add a v.held (add v.sent v.dropped)))
Move-IsBalanced {v} {w} (sends a h e) b = subst IsBalanced (sym e) (
    b
    ∙ ap (λ m. add m (add v.sent v.dropped)) h
    ∙ cons-add a w.held (add v.sent v.dropped)
    ∙ sym (add-cons a w.held (add v.sent v.dropped))
    ∙ ap (add w.held) (sym (cons-add a v.sent v.dropped)))
Move-IsBalanced {v} {w} (drops a h e) b = subst IsBalanced (sym e) (
    b
    ∙ ap (λ m. add m (add v.sent v.dropped)) h
    ∙ cons-add a w.held (add v.sent v.dropped)
    ∙ sym (add-cons a w.held (add v.sent v.dropped))
    ∙ ap (add w.held) (sym (add-cons a v.sent v.dropped)))

-- What is found and erased is one of the samples.
erase-perm :
    {Sample : Type 0} (p : ℕ) (m : List (ℕ × Sample)) (a : Sample)
    → find p m ≡ some a
    → Perm (map (λ e. e.1) m) (a ∷ map (λ e. e.1) (erase p m))
unfolding find erase
erase-perm p [] a f = absurd (cc)
erase-perm p ((q, b) ∷ m) a f = elim (Bool-cases (q == p)) [
  | inl same ↦ let first : b ≡ a = ground (arith, f, same) in rw (same, first) (Perm.rfl)
  | inr other ↦ rw other (
      Perm.trans (Perm.cons b (erase-perm p m a (ground (arith, f, other))))
        (Perm.swap a b (map (λ e. e.1) (erase p m))))
]

module _ (port : PublisherPort) where
  open port use {Sample, payload}

  Reach-trans : {s t u : Session (audited port)} → Reach port s t → Reach port t u → Reach port s u
  Reach-trans r here = r
  Reach-trans r (next q st) = next (Reach-trans r q) st

  loans-Move :
      (n : ℕ) (s : Session (audited port))
      → LendsFresh s
      → Move (view port s) (view port (step (loans n) s))
  unfolding step loan Registry.store Registry.emplace Registry.retrieve
  loans-Move n s fresh = elim (Option-cases (port.loan_slice_uninit n s.world.0).0) [
    | inl refused ↦ keeps (rw (refused, step) refl)
    | inr (sample, lent) ↦ lends sample (rw (lent, step, fresh n sample lent) refl)
  ]

  -- A sample that is delivered was sent, whether iceoryx2 reports a failure or not.
  view-deliver :
      (a : Sample) (s : Session (audited port))
      → view port (deliver a s).1 ≡ record (view port s) { sent = cons a (view port s).sent }
  view-deliver a s = elim (Bool-cases (port.send a s.world.0).0) [
    | inl sent ↦ rw sent (elim (Bool-cases (port.notify (port.send a s.world.0).1).0) [
      | inl notified ↦ rw notified refl
      | inr failed ↦ rw failed refl
    ])
    | inr failed ↦ rw failed refl
  ]

  released-Move :
      (p : ℕ) (s : Session (audited port)) (a : Sample)
      → Registry.find p s.registry.samples ≡ some a
      → of_list (held_samples port s)
        ≡ cons a (of_list (map (λ e. e.1) (erase p s.registry.samples)))
  released-Move p s a f = sound (erase-perm p s.registry.samples a f)

  step-Move :
      (c : Call) (s : Session (audited port))
      → IsFresh port c s
      → Move (view port s) (view port (step c s))
  unfolding step return_loan publish_loan publish_copy Registry.release
  step-Move (loans n) s fresh = loans-Move n s fresh
  step-Move (returns p) s fresh = elim (Option-cases (find p s.registry.samples)) [
    | inl f ↦ keeps (rw (f, step) refl)
    | inr (a, f) ↦ drops a (rw (f, step) (released-Move p s a f)) (rw (f, step) refl)
  ]
  step-Move (publishes p) s fresh = elim (Option-cases (find p s.registry.samples)) [
    | inl f ↦ keeps (rw (f, step) refl)
    | inr (a, f) ↦
        let after : Session (audited port) = record s {
          self = record (s.self) { registry = record { samples = erase p s.registry.samples } };
        } in
        let same : step (publishes p) s ≡ (deliver a after).1 = rw (f, step) refl in
        let seen : view port (step (publishes p) s)
            ≡ record (view port after) { sent = cons a (view port s).sent } =
          ap (view port) same ∙ view-deliver a after in
        sends a (released-Move p s a f ∙ ap (λ v. cons a v.held) (sym seen)) (
          seen
          ∙ ap (λ h. record (view port after) { held = h; sent = cons a (view port s).sent })
              (ap (λ v. v.held) (sym seen)))
  ]
  step-Move (copies bytes) s fresh = keeps (ground arith)

  -- Each call on a publisher is a move of the samples, seen as multisets: it lends one to the
  -- application, sends one that the application holds, gives one that it holds back to iceoryx2, or
  -- leaves them where they are, if iceoryx2 lends no address that is held.
  pub Step-Move : {s t : Session (audited port)} → Step port s t → Move (view port s) (view port t)
  Step-Move {s} (calls c fresh) = step-Move c s fresh

  -- Whatever calls the application makes and whatever iceoryx2 answers, if it lends no address that
  -- is held: a sample that was lent is held, was given to send or was given back, exactly once, if
  -- that was so before.
  pub Reach-IsBalanced :
      {s t : Session (audited port)}
      → IsBalanced (view port s)
      → Reach port s t
      → IsBalanced (view port t)
  Reach-IsBalanced b here = b
  Reach-IsBalanced b (next r st) = Move-IsBalanced (Step-Move st) (Reach-IsBalanced b r)

  returned-first :
      (p : ℕ) (a : Sample) (m : List (ℕ × Sample)) (s : Session (audited port))
      → s.registry.samples ≡ (p, a) ∷ m
      → (step (returns p) s).registry.samples ≡ m
  unfolding step return_loan Registry.release Registry.find Registry.erase
  returned-first p a m s e =
      let f : find p s.registry.samples ≡ some a = rw (e, eq_refl p) refl in
      let after : (step (returns p) s).registry.samples ≡ erase p s.registry.samples =
        rw (f, step) refl in
      after ∙ rw (e, eq_refl p) refl

  Reach-return_all :
      (m : List (ℕ × Sample)) (s : Session (audited port))
      → s.registry.samples ≡ m
      → Reach port s (run (return_all port m) s)
        × ((run (return_all port m) s).registry.samples ≡ [])
  unfolding run
  Reach-return_all [] s e = (here, e)
  Reach-return_all ((p, a) ∷ m) s e =
      let (r, empty) = Reach-return_all m (step (returns p) s) (returned-first p a m s e) in
      (Reach-trans (next here (calls (returns p) tt)) r, empty)

  -- From every state that the calls on a publisher reach from a balanced one, returning each
  -- address that is held ends every loan: none is held, and each sample that was ever lent was
  -- given to send or was given back, exactly once, if iceoryx2 lends no address that is held.
  pub return_all_ends :
      {s t : Session (audited port)}
      → IsBalanced (view port s)
      → Reach port s t
      → (held_samples port (run (return_all port t.registry.samples) t) ≡ [])
        × ((view port (run (return_all port t.registry.samples) t)).lent
            ≡ add
                (view port (run (return_all port t.registry.samples) t)).sent
                (view port (run (return_all port t.registry.samples) t)).dropped)
  return_all_ends {t} b r =
      let (more, empty) = Reach-return_all t.registry.samples t refl in
      let none_held : held_samples port (run (return_all port t.registry.samples) t) ≡ [] =
        ap (map (λ e. e.1)) empty in
      (
        none_held,
        Reach-IsBalanced b (Reach-trans r more)
            ∙ ap
                (λ l. add (of_list l) (
                  add (view port (run (return_all port t.registry.samples) t)).sent
                    (view port (run (return_all port t.registry.samples) t)).dropped))
                none_held
            ∙ zero-add _,
      )
