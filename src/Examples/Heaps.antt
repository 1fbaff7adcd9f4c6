-- ===== src/Examples/Heaps.antt =====
-- An allocator that never reuses a block and gives none from its limit on.

use rmw_iceoryx.Memory.{MemoryPort}
use rmw_iceoryx.Memory.Balance.{Allocator}
use rmw_iceoryx.Rmw.Ensure.{rmw_iox2_identifier}
use rmw_iceoryx.Rmw.Handles.{ContextHandle}
use rmw_iceoryx.Common.{
  Bool, Option, ap, arith, false, ltb, none, not, refl, some, suc, true, ℕ, ◌&&◌, ◌==◌, ◌||◌, ◌∙◌,
  ◌≡◌, sym,
}

-- The next address, the first that is not given, and the blocks in use.
pub record Heap : Type 0 where
  pub next : ℕ
  pub limit : ℕ
  pub used : ℕ → Bool

-- A block is given below the limit, if it is not in use.
abbrev pub given : Bool → Heap → Option ℕ × Heap
given true w = (some w.next, record w { next = suc w.next; used = λ q. w.next == q || w.used q })
given false w = (none, w)

abbrev pub can_give : Heap → Bool
can_give w = ltb w.next w.limit && not (w.used w.next)

abbrev pub memory_port : MemoryPort
memory_port = record {
  World = Heap;
  Message = ℕ;
  rmw_allocate = λ b w. given (can_give w) w;
  rmw_free = λ p w. record w { used = λ q. not (p == q) && w.used q };
  constructor = λ i p w. (true, w);
  destructor = λ p w. w;
}

pub given-fresh :
    (b : Bool) (w w' : Heap) (p : ℕ) → can_give w ≡ b → given b w ≡ (some p, w') → w.used p ≡ false
given-fresh true w w' p c e = ground (arith, c, e)
given-fresh false w w' p c e = absurd (cc)

pub given-used :
    (b : Bool) (w w' : Heap) (p q : ℕ) → given b w ≡ (some p, w') → w'.used q ≡ (p == q || w.used q)
given-used true w w' p q e =
    sym (ap (λ r. r.1.used q) e) ∙ (let same : w.next ≡ p = ground (arith, e) in rw same refl)
given-used false w w' p q e = absurd (cc)

pub given-none : (b : Bool) (w w' : Heap) (q : ℕ) → given b w ≡ (none, w') → w'.used q ≡ w.used q
given-none true w w' q e = absurd (cc)
given-none false w w' q e = sym (ap (λ r. r.1.used q) e)

abbrev pub allocator : Allocator memory_port
allocator = record {
  live = λ w. w.used;
  allocated-fresh = λ b w w' p e. given-fresh (can_give w) w w' p refl e;
  allocated-live = λ b w w' p q e. given-used (can_give w) w w' p q e;
  refused-live = λ b w w' q e. given-none (can_give w) w w' q e;
  freed-live = λ p w q. refl;
  constructor-live = λ i p w q. refl;
  destructor-live = λ p w q. refl;
}

abbrev pub heap : ℕ → Heap
heap limit = record { next = 1; limit = limit; used = λ q. false }

abbrev pub own_context : ContextHandle
own_context = record { implementation_identifier = rmw_iox2_identifier; impl = some 9 }
