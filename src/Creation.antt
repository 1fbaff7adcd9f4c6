-- ===== src/Creation.antt =====
-- include/rmw_iceoryx2_cxx/impl/common/create.hpp. A constructor is a function of the world to the
-- object, which there is whether it failed or not, and to what it wrote to `error`. The creation
-- lock, which keeps others from calling constructors, has no content at run time.
use rmw_iceoryx.Common.{Expected, Exec, Option, none, some, ok, err}

abbrev pub Constructor : Type 0 → Type 0 → Type 0 → Type 0
Constructor W E T = W → (T × Option E) × W

abbrev or_error : {E T : Type 0} → T → Option E → Expected E T
or_error obj none = ok obj
or_error obj (some e) = err e

module _ {W E T : Type 0} where
  unfoldable pub create : Constructor W E T → Exec W E T
  create new w = (or_error (new w).0.0 (new w).0.1, (new w).1)

  -- Within an optional, whose value is replaced.
  unfoldable pub create_in_optional : Constructor W E T → Exec (W × Option T) E (Unit {0})
  create_in_optional new (w, storage) = (or_error tt (new w).0.1, ((new w).1, some (new w).0.0))
