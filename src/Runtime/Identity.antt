-- ===== src/Runtime/Identity.antt =====
-- Each guard condition of a context has a service of its own.
use rmw_iceoryx.Names
use rmw_iceoryx.Names.Distinct.{guard_condition_inj}
use rmw_iceoryx.Runtime.{
  Context, GuardCondition, RuntimePort, generate_guard_condition_id, create_guard_condition,
  create_node, create_iceoryx2,
}
use rmw_iceoryx.Common.{
  Expected-cases, arith, ok, refl, suc, ℕ, ◌%◌, ◌+◌, ◌<◌, ◌^◌, ◌∙◌, ◌≡◌, ◌≢◌, sym, List, Option,
  length, [], ◌∷◌, ◌⊎◌, ap, inl, inr, subst,
}

-- What may happen in a context between two creations.
pub data Call (World : Type 0) : Type 0 where
  creates_guard_condition : Call World
  creates_node : List ℕ → Option (List ℕ) → Call World
  -- anything that others do
  others : World → Call World

-- The second context has the identity of the first, with at most so many ids generated since.
pub record Follows (n : ℕ) (c d : Context) : Type 0 where
  pub same_id : d.id ≡ c.id
  pub used : ℕ
  pub few : used < suc n
  pub counter : d.guard_condition_counter ≡ (c.guard_condition_counter + used) % 2 ^ 32

module _ (port : RuntimePort) where
  open port use {World}

  -- Each call as the code makes it, whether it succeeds or not.
  unfoldable pub step : Call World → Context × World → Context × World
  step creates_guard_condition s = (create_guard_condition port s).1
  step (creates_node name ns) s = (create_node port name ns s).1
  step (others w) (c, _) = (c, w)

  unfoldable pub run : List (Call World) → Context × World → Context × World
  run [] s = s
  run (x ∷ xs) s = run xs (step x s)

  -- However the creation ends, the context has its counter advanced by one.
  create_guard_condition-context :
      (c : Context) (w : World)
      → (create_guard_condition port (c, w)).1.0 ≡ (generate_guard_condition_id c).1
  unfolding create_guard_condition
  create_guard_condition-context c w = ground arith

  -- A node uses an id for its guard condition, if its construction comes so far.
  create_node-context :
      (name : List ℕ) (ns : Option (List ℕ)) (c : Context) (w : World)
      → ((create_node port name ns (c, w)).1.0 ≡ c)
        ⊎ ((create_node port name ns (c, w)).1.0 ≡ (generate_guard_condition_id c).1)
  unfolding create_node
  create_node-context name ns c w =
      let r = create_iceoryx2 port (Names.node c.id name ns) w in
      elim (Expected-cases r.0) [
        | inl (_, made) ↦ inr (ground (arith, made, create_guard_condition-context c r.1))
        | inr (_, failed) ↦ inl (ground (arith, failed))
      ]

  step-context :
      (x : Call World) (c : Context) (w : World)
      → ((step x (c, w)).0 ≡ c) ⊎ ((step x (c, w)).0 ≡ (generate_guard_condition_id c).1)
  unfolding step
  step-context creates_guard_condition c w = inr (create_guard_condition-context c w)
  step-context (creates_node name ns) c w = create_node-context name ns c w
  step-context (others w') c w = inl refl

  Follows-next :
      (n : ℕ) (c d e : Context)
      → Follows n c d
      → (e ≡ d) ⊎ (e ≡ (generate_guard_condition_id d).1)
      → Follows (suc n) c e
  unfolding generate_guard_condition_id
  Follows-next n c d e f (inl same) = record {
    same_id = rw same f.same_id;
    used = f.used;
    few = omega (arith, f.few);
    counter = rw same f.counter;
  }
  Follows-next n c d e f (inr next) = record {
    same_id = rw next f.same_id;
    used = suc f.used;
    few = omega (arith, f.few);
    counter = rw next (omega (arith, f.counter));
  }

  run-Follows :
      (xs : List (Call World)) (n : ℕ) (c d : Context) (w : World)
      → Follows n c d
      → Follows (n + length xs) c (run xs (d, w)).0
  unfolding run
  run-Follows [] n c d w f = subst (λ k. Follows k c d) (omega arith) f
  run-Follows (x ∷ xs) n c d w f =
      let next = Follows-next n c d (step x (d, w)).0 f (step-context x d w) in
      let rest = run-Follows xs (suc n) c (step x (d, w)).0 (step x (d, w)).1 next in
      subst (λ k. Follows k c (run xs (step x (d, w))).0) (omega arith) rest

  created-name :
      (c : Context) (w : World) (g : GuardCondition)
      → (create_guard_condition port (c, w)).0 ≡ ok g
      → g.service_name ≡ Names.guard_condition c.id c.guard_condition_counter
  unfolding create_guard_condition generate_guard_condition_id
  created-name c w g e = ground (arith, e)

  first-Follows :
      (c : Context) (w : World) (xs : List (Call World))
      → c.guard_condition_counter < 2 ^ 32
      → Follows
          (length xs)
          (generate_guard_condition_id c).1
          (run xs (create_guard_condition port (c, w)).1).0
  unfolding generate_guard_condition_id
  first-Follows c w xs h =
      let made = create_guard_condition-context c w in
      subst
        (λ k.
          Follows k (generate_guard_condition_id c).1
            (run xs (create_guard_condition port (c, w)).1).0)
        (omega arith)
        (run-Follows xs 0 (generate_guard_condition_id c).1 (create_guard_condition port (c, w)).1.0
          (create_guard_condition port (c, w)).1.1
          (record {
            same_id = ap (λ d. d.id) made;
            used = 0;
            few = omega arith;
            counter = ap (λ d. d.guard_condition_counter) made ∙ omega arith;
          }))

  -- Two guard conditions that one context creates have services of different names: the second is
  -- created in the context that the first creation and any calls after it leave, each of which
  -- creates a guard condition or a node, or is somebody else's, if these are fewer than 2^32 - 1
  -- and the two numbers of the context are of 32 bits.
  pub create_guard_condition_distinct :
      (c : Context) (w : World) (xs : List (Call World)) (g g' : GuardCondition)
      → c.id < 2 ^ 32
      → c.guard_condition_counter < 2 ^ 32
      → suc (length xs) < 2 ^ 32
      → (create_guard_condition port (c, w)).0 ≡ ok g
      → (create_guard_condition port (run xs (create_guard_condition port (c, w)).1)).0 ≡ ok g'
      → g.service_name ≢ g'.service_name
  unfolding generate_guard_condition_id
  create_guard_condition_distinct c w xs g g' hc hk few e e' same =
      let s = run xs (create_guard_condition port (c, w)).1 in
      let f = first-Follows c w xs hk in
      let names = sym (created-name c w g e) ∙ (same ∙ created-name s.0 s.1 g' e') in
      let id : s.0.id ≡ c.id = f.same_id in
      let counter = f.counter in
      let fewer = f.few in
      let (_, equal) =
        guard_condition_inj c.id c.guard_condition_counter s.0.id s.0.guard_condition_counter hc hk
          (omega (arith, hc, id)) (omega (arith, counter)) names in
      omega (arith, hk, few, fewer, counter, equal)
