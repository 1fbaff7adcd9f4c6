-- ===== src/Memory/Balance.antt =====
-- Which blocks are allocated: the rules of a logic for code that allocates and frees.
use rmw_iceoryx.Memory.{MemoryPort, Block, Instance, deallocate, destruct}
use rmw_iceoryx.Common.{
  Bool, Bool-cases, arith, false, inl, inr, none, not, refl, some, true, ℕ, ◌&&◌, ◌==◌, ◌||◌, ◌∙◌,
  ◌≡◌, subst, Option, eq_refl,
}

-- What the allocator documents. A block that it gives was free, and only that block changes;
-- constructors and destructors allocate nothing that the handles own.
pub record Allocator (port : MemoryPort) : Type 0 where
  pub live : port.World → ℕ → Bool
  pub allocated-fresh :
      (b : Block) (w w' : port.World) (p : ℕ)
      → port.rmw_allocate b w ≡ (some p, w')
      → live w p ≡ false
  pub allocated-live :
      (b : Block) (w w' : port.World) (p q : ℕ)
      → port.rmw_allocate b w ≡ (some p, w')
      → live w' q ≡ (p == q || live w q)
  pub refused-live :
      (b : Block) (w w' : port.World) (q : ℕ)
      → port.rmw_allocate b w ≡ (none, w')
      → live w' q ≡ live w q
  pub freed-live :
      (p : ℕ) (w : port.World) (q : ℕ) → live (port.rmw_free p w) q ≡ (not (p == q) && live w q)
  pub constructor-live :
      (i : Instance port.Message) (p : ℕ) (w : port.World) (q : ℕ)
      → live (port.constructor i p w).1 q ≡ live w q
  pub destructor-live : (p : ℕ) (w : port.World) (q : ℕ) → live (port.destructor p w) q ≡ live w q

abbrev pub nothing : ℕ → Bool
nothing q = false

-- The address of a block.
abbrev pub is_at : Option ℕ → ℕ → Bool
is_at none q = false
is_at (some p) q = p == q

module _ {port : MemoryPort} (a : Allocator port) where
  open port use {World, Message}

  -- The blocks of `w` are those of `w0` and, beside them, those of `own`.
  pub record Owns (w0 : World) (own : ℕ → Bool) (w : World) : Type 0 where
    pub held : (q : ℕ) → a.live w q ≡ (own q || a.live w0 q)
    pub new_to : (q : ℕ) → own q ≡ true → a.live w0 q ≡ false

  module _ {w0 : World} where
    pub Owns-nothing : Owns w0 nothing w0
    Owns-nothing = record { held = λ q. refl; new_to = λ q e. absurd (cc) }

    pub Owns-same :
        {own own' : ℕ → Bool} {w : World}
        → ((q : ℕ) → own q ≡ own' q)
        → Owns w0 own w
        → Owns w0 own' w
    Owns-same same o = record {
      held = λ q. ground (arith, o.held q, same q);
      new_to = λ q e. ground (arith, o.new_to q, same q, e);
    }

    pub allocated :
        {own : ℕ → Bool} (b : Block) (w w' : World) (p : ℕ)
        → port.rmw_allocate b w ≡ (some p, w')
        → Owns w0 own w
        → Owns w0 (λ q. p == q || own q) w'
    allocated {own} b w w' p e o = record {
      held = λ q. ground (arith, o.held q, a.allocated-live b w w' p q e);
      new_to = λ q h. elim (Bool-cases (own q)) [
        | inl old ↦ o.new_to q old
        | inr new ↦
            let same : p ≡ q = ground (arith, h, new) in
            subst (λ q. a.live w0 q ≡ false) same
              (ground (arith, o.held p, a.allocated-fresh b w w' p e))
      ];
    }

    pub refused :
        {own : ℕ → Bool} (b : Block) (w w' : World)
        → port.rmw_allocate b w ≡ (none, w')
        → Owns w0 own w
        → Owns w0 own w'
    refused b w w' e o = record {
      held = λ q. a.refused-live b w w' q e ∙ o.held q;
      new_to = o.new_to;
    }

    pub freed :
        {own : ℕ → Bool} (p : ℕ) (w : World)
        → a.live w0 p ≡ false
        → Owns w0 own w
        → Owns w0 (λ q. not (p == q) && own q) (port.rmw_free p w)
    freed {own} p w mine o = record {
      held = λ q. elim (Bool-cases (p == q)) [
        | inl here ↦
            let same : p ≡ q = ground (arith, here) in
            ground (arith, here, a.freed-live p w q, subst (λ q. a.live w0 q ≡ false) same mine)
        | inr other ↦ ground (arith, other, a.freed-live p w q, o.held q)
      ];
      new_to = λ q h. ground (arith, o.new_to q, h);
    }

    pub constructed :
        {own : ℕ → Bool} (i : Instance Message) (p : ℕ) (w : World)
        → Owns w0 own w
        → Owns w0 own (port.constructor i p w).1
    constructed i p w o = record {
      held = λ q. a.constructor-live i p w q ∙ o.held q;
      new_to = o.new_to;
    }

    pub destructed :
        {own : ℕ → Bool} (p : ℕ) (w : World) → Owns w0 own w → Owns w0 own (port.destructor p w)
    destructed p w o = record { held = λ q. a.destructor-live p w q ∙ o.held q; new_to = o.new_to }

    pub freed_option :
        {own : ℕ → Bool} (o : Option ℕ) (w : World)
        → ((q : ℕ) → is_at o q ≡ true → a.live w0 q ≡ false)
        → Owns w0 own w
        → Owns w0 (λ q. not (is_at o q) && own q) (deallocate port o w)
    freed_option none w mine o = o
    freed_option (some p) w mine o = freed p w (mine p (eq_refl p)) o

    pub destructed_option :
        {own : ℕ → Bool} (o : Option ℕ) (w : World)
        → Owns w0 own w
        → Owns w0 own (destruct port o w)
    destructed_option none w o = o
    destructed_option (some p) w o = destructed p w o

  -- The blocks of two worlds are the same.
  abbrev pub SameBlocks : World → World → Type 0
  SameBlocks w w' = (q : ℕ) → a.live w' q ≡ a.live w q
