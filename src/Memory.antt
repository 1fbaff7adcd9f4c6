-- ===== src/Memory.antt =====
-- include/rmw_iceoryx2_cxx/impl/common/allocator.hpp, and `create_in_place` of common/create.hpp at
-- an address.
-- The allocator behind `rmw_allocate` is a parameter, as is what the constructors and destructors
-- of the runtime classes do: each of their calls may change the world.
pub mod Balance
pub mod Builds
use rmw_iceoryx.Errors.{MemoryError}
use rmw_iceoryx.Message.{TypeSupport}
use rmw_iceoryx.Common.{Bool, Exec, Expected, List, Option, err, guard, none, ok, or_raise, some, ℕ}

-- What a block is allocated for.
pub data Block : Type 0 where
  handle object : Block
  text : List ℕ → Block

-- A runtime object, by its class and the arguments of its constructor.
pub data Instance (Message : Type 0) : Type 0 where
  context guard_condition wait_set : ℕ → Instance Message
  node : ℕ → List ℕ → List ℕ → Instance Message
  publisher subscriber : ℕ → List ℕ → TypeSupport Message → Instance Message

pub record MemoryPort : Type 1 where
  pub World : Type 0
  pub Message : Type 0
  pub rmw_allocate : Block → World → Option ℕ × World
  pub rmw_free : ℕ → World → World
  -- the constructor of an object at an address, and its destructor
  pub constructor : Instance Message → ℕ → World → Bool × World
  pub destructor : ℕ → World → World

-- The result of a function that returns a pointer.
pub data Null : Type 0 where
  nullptr : Null

-- What is undone before a function gives up.
module _ {W A : Type 0} where
  abbrev pub undone : (W → W) → Expected Null A × W → Expected Null A × W
  undone f (ok a, w) = (ok a, w)
  undone f (err e, w) = (err e, f w)

  abbrev pub or_undo : Exec W Null A → (W → W) → Exec W Null A
  or_undo m f w = undone f (m w)

module _ (port : MemoryPort) where
  open port use {World, Message}

  unfoldable pub allocate : Block → Exec World Null ℕ
  allocate b w = or_raise (port.rmw_allocate b w).0 nullptr (port.rmw_allocate b w).1

  abbrev pub allocate_copy : List ℕ → Exec World Null ℕ
  allocate_copy cstr = allocate (text cstr)

  abbrev pub deallocate : Option ℕ → World → World
  deallocate none w = w
  deallocate (some p) w = port.rmw_free p w

  -- Placement new, whose constructor reports no error.
  unfoldable pub construct : Instance Message → Option ℕ → Exec World MemoryError ℕ
  construct i none w = (err MemoryError.construction, w)
  construct i (some p) w = (ok p, (port.constructor i p w).1)

  abbrev pub destruct : Option ℕ → World → World
  destruct none w = w
  destruct (some p) w = port.destructor p w

  unfoldable pub create_in_place : Instance Message → ℕ → Exec World Null (Unit {0})
  create_in_place i p w = guard (port.constructor i p w).0 nullptr (port.constructor i p w).1
