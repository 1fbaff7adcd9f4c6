-- ===== src/Memory/Builds.antt =====
-- The rules for code that builds up a handle, and undoes what it has done before it gives up.
use rmw_iceoryx.Memory.Balance.{
  Allocator, Owns, nothing, allocated, constructed, refused, Owns-same, SameBlocks,
}
use rmw_iceoryx.Memory.{
  MemoryPort, allocate, Block, Null, create_in_place, Instance, nullptr, or_undo, undone,
}
use rmw_iceoryx.Common.{
  Bool, Exec, Expected, Option, continue, err, false, guard, none, ok, or_raise, refl, some, true,
  ℕ, ◌==◌, ◌>>=◌, ◌||◌, ◌≡◌, arith, subst,
}

module _ {port : MemoryPort} (a : Allocator port) where
  open port use {World, Message}

  abbrev pub Undoes : World → (ℕ → Bool) → (World → World) → Type 0
  Undoes w0 own f = (w : World) → Owns a w0 own w → Owns a w0 nothing (f w)

  module _ (w0 : World) {A : Type 0} where
    -- A result with what it owns, or a failure that leaves nothing behind.
    abbrev pub Leaves : (A → ℕ → Bool) → Expected Null A × World → Type 0
    Leaves Q (ok x, w) = Owns a w0 (Q x) w
    Leaves Q (err e, w) = Owns a w0 nothing w

    -- From a world in which `own` was allocated, `m` leaves `Q` allocated.
    abbrev pub Builds : (ℕ → Bool) → Exec World Null A → (A → ℕ → Bool) → Type 0
    Builds own m Q = (w : World) → Owns a w0 own w → Leaves Q (m w)

  module _ {w0 : World} where
    continued :
        {A B : Type 0} (Q : A → ℕ → Bool) (R : B → ℕ → Bool) (r : Expected Null A × World)
        (f : A → Exec World Null B)
        → Leaves w0 Q r
        → ((x : A) → Builds w0 (Q x) (f x) R)
        → Leaves w0 R (continue r f)
    continued Q R (ok x, w) f o rest = rest x w o
    continued Q R (err e, w) f o rest = o

    pub then-Builds :
        {A B : Type 0} {own : ℕ → Bool} (Q : A → ℕ → Bool) (R : B → ℕ → Bool)
        (m : Exec World Null A) (f : A → Exec World Null B)
        → Builds w0 own m Q
        → ((x : A) → Builds w0 (Q x) (f x) R)
        → Builds w0 own (m >>= f) R
    then-Builds Q R m f first rest w o = continued Q R (m w) f (first w o) rest

    pub checked-Builds :
        {A : Type 0} (o : Option A) → Builds w0 nothing (or_raise o nullptr) (λ _. nothing)
    checked-Builds none w h = h
    checked-Builds (some x) w h = h

    pub guard-Builds : (b : Bool) → Builds w0 nothing (guard b nullptr) (λ _. nothing)
    guard-Builds true w h = h
    guard-Builds false w h = h

    allocated-Leaves :
        {own : ℕ → Bool} (b : Block) (f : World → World) (w : World) (answer : Option ℕ × World)
        → port.rmw_allocate b w ≡ answer
        → Undoes w0 own f
        → Owns a w0 own w
        → Leaves w0 (λ p q. p == q || own q) (undone f (or_raise answer.0 nullptr answer.1))
    allocated-Leaves b f w (some p, w') e undoes o = allocated a b w w' p e o
    allocated-Leaves b f w (none, w') e undoes o = undoes w' (refused a b w w' e o)

    pub allocate-Builds :
        {own : ℕ → Bool} (b : Block) (f : World → World)
        → Undoes w0 own f
        → Builds w0 own (or_undo (allocate port b) f) (λ p q. p == q || own q)
    unfolding allocate
    allocate-Builds b f undoes w o = allocated-Leaves b f w (port.rmw_allocate b w) refl undoes o

    handle-Leaves :
        (b : Block) (w : World) (answer : Option ℕ × World)
        → port.rmw_allocate b w ≡ answer
        → Owns a w0 nothing w
        → Leaves w0 (λ p q. p == q) (or_raise answer.0 nullptr answer.1)
    handle-Leaves b w (some p, w') e o = Owns-same a (λ q. ground arith) (allocated a b w w' p e o)
    handle-Leaves b w (none, w') e o = refused a b w w' e o

    pub handle-Builds : (b : Block) → Builds w0 nothing (allocate port b) (λ p q. p == q)
    unfolding allocate
    handle-Builds b w o = handle-Leaves b w (port.rmw_allocate b w) refl o

    created-Leaves :
        {own : ℕ → Bool} (f : World → World) (answer : Bool) (w : World)
        → Undoes w0 own f
        → Owns a w0 own w
        → Leaves w0 (λ _. own) (undone f (guard answer nullptr w))
    created-Leaves f true w undoes o = o
    created-Leaves f false w undoes o = undoes w o

    pub create_in_place-Builds :
        {own : ℕ → Bool} (i : Instance Message) (p : ℕ) (f : World → World)
        → Undoes w0 own f
        → Builds w0 own (or_undo (create_in_place port i p) f) (λ _. own)
    unfolding create_in_place
    create_in_place-Builds i p f undoes w o =
        created-Leaves f (port.constructor i p w).0 (port.constructor i p w).1 undoes
          (constructed a i p w o)

  -- What was allocated when a function that builds `Q` returned `x`, and when it returned null.
  module _ {A : Type 0} (Q : A → ℕ → Bool) (w0 : World) where
    pub Leaves-ok :
        (r : Expected Null A × World) (x : A) → Leaves w0 Q r → r.0 ≡ ok x → Owns a w0 (Q x) r.1
    Leaves-ok (ok y, w) x o e =
        let same : y ≡ x = ground (arith, e) in subst (λ x. Owns a w0 (Q x) w) same o
    Leaves-ok (err n, w) x o e = absurd (cc)

    pub Leaves-err :
        (r : Expected Null A × World) → Leaves w0 Q r → r.0 ≡ err nullptr → SameBlocks a w0 r.1
    Leaves-err (ok y, w) o e = absurd (cc)
    Leaves-err (err n, w) o e = λ q. o.held q
