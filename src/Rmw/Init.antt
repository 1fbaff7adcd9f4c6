-- ===== src/Rmw/Init.antt =====
-- src/rmw/init.cpp: the options and the context, from initialization to shutdown. `strdup` is
-- `rcutils_strdup` with the allocator of the options; a text is its content. A flag says whether a
-- pointer to what is written is not null.
pub mod LifeCycle
use rmw_iceoryx.Errors.{RetCode}
use rmw_iceoryx.Memory.{
  MemoryPort, Block, Instance, Null, allocate, create_in_place, deallocate, destruct, or_undo,
}
use rmw_iceoryx.Rmw.Ensure.{
  Identifier, null_identifier, is_own, is_null_identifier, rmw_get_implementation_identifier,
}
use rmw_iceoryx.Common.{
  Bool, Exec, List, Option, [], false, is_none, is_some, none, not, ok, or_code, or_raise, some, ℕ,
  ◌&&◌, ◌>>=◌, ◌>>◌, guard,
}

-- `rmw_init_options_t`
pub record InitOptions : Type 0 where
  pub implementation_identifier : Identifier
  pub has_valid_allocator : Bool
  pub instance_id : ℕ
  pub enclave : Option (List ℕ)
  pub impl : Option ℕ

-- `rmw_context_t`
pub record Context : Type 0 where
  pub implementation_identifier : Identifier
  pub instance_id : ℕ
  pub enclave : Option (List ℕ)
  pub impl : Option ℕ

abbrev pub rmw_get_zero_initialized_init_options : InitOptions
rmw_get_zero_initialized_init_options = record {
  implementation_identifier = null_identifier;
  has_valid_allocator = false;
  instance_id = 0;
  enclave = none;
  impl = none;
}

abbrev pub rmw_get_zero_initialized_context : Context
rmw_get_zero_initialized_context = record {
  implementation_identifier = null_identifier;
  instance_id = 0;
  enclave = none;
  impl = none;
}

-- What the checks call zero initialized: neither identifier nor implementation.
abbrev pub is_zero : Identifier → Option ℕ → Bool
is_zero identifier impl = is_null_identifier identifier && is_none impl

-- The address of `INITIALIZED_OPTIONS`, which is not null.
abbrev initialized_options : ℕ
initialized_options = 1

module _ {W : Type 0} (strdup : List ℕ → W → Option (List ℕ) × W) where
  abbrev duplicate : Option (List ℕ) → W → Option (List ℕ) × W
  duplicate none w = (none, w)
  duplicate (some text) w = strdup text w

  unfoldable pub rmw_init_options_init : Bool → Bool → Exec (InitOptions × W) RetCode (Unit {0})
  rmw_init_options_init given has_valid_allocator (o, w) =
      (do
        guard given RetCode.invalid_argument
        guard has_valid_allocator RetCode.invalid_argument
        guard (is_none o.impl) RetCode.invalid_argument
        guard (is_zero o.implementation_identifier o.impl) RetCode.invalid_argument
        λ s. (
          ok tt,
          (
            record {
              implementation_identifier = rmw_get_implementation_identifier;
              has_valid_allocator = has_valid_allocator;
              instance_id = 0;
              enclave = (strdup [] s.1).0;
              impl = some initialized_options;
            },
            (strdup [] s.1).1,
          ),
        ))
        (o, w)

-- The copy shares the enclave with the source.
unfoldable pub rmw_init_options_copy :
    Option InitOptions → Bool → Exec InitOptions RetCode (Unit {0})
rmw_init_options_copy src given dst =
    (do
      s ← or_raise src RetCode.invalid_argument
      guard given RetCode.invalid_argument
      guard (is_some s.impl) RetCode.invalid_argument
      guard (is_zero dst.implementation_identifier dst.impl) RetCode.invalid_argument
      guard (is_own s.implementation_identifier) RetCode.incorrect_rmw_implementation
      λ _. (ok tt, s))
      dst

unfoldable pub rmw_init_options_fini : Bool → Exec InitOptions RetCode (Unit {0})
rmw_init_options_fini given o =
    (do
      guard given RetCode.invalid_argument
      guard o.has_valid_allocator RetCode.invalid_argument
      guard (not (is_zero o.implementation_identifier o.impl)) RetCode.invalid_argument
      guard (is_own o.implementation_identifier) RetCode.incorrect_rmw_implementation
      λ _. (ok tt, rmw_get_zero_initialized_init_options))
      o

-- A context and the world that it lives in.
pub record Process (port : MemoryPort) : Type 0 where
  pub context : Context
  pub world : port.World

module _ {port : MemoryPort} (strdup : List ℕ → port.World → Option (List ℕ) × port.World) where
  open port use {World}

  -- The fields that are written before anything can fail.
  abbrev marked : InitOptions → Process port → Process port
  marked o s = record {
    context = record (s.context) {
      instance_id = o.instance_id;
      implementation_identifier = rmw_get_implementation_identifier;
      enclave = (duplicate strdup o.enclave s.world).0;
    };
    world = (duplicate strdup o.enclave s.world).1;
  }

  abbrev on_world : {A : Type 0} → Exec World Null A → Exec (Process port) Null A
  on_world m s = ((m s.world).0, record s { world = (m s.world).1 })

  unfoldable pub create_context : Exec (Process port) Null (Unit {0})
  create_context s =
      (do
        ptr ← on_world (allocate port Block.object)
        on_world (
            or_undo (create_in_place port (Instance.context s.context.instance_id) ptr)
              (λ w. deallocate port (some ptr) (destruct port (some ptr) w)))
        λ s. (ok tt, record s { context = record (s.context) { impl = some ptr } }))
        s

  unfoldable pub rmw_init : Option InitOptions → Bool → Exec (Process port) RetCode (Unit {0})
  rmw_init rmw_init_options given s =
      (do
        o ← or_raise rmw_init_options RetCode.invalid_argument
        or_raise o.enclave RetCode.invalid_argument
        guard (not (is_zero o.implementation_identifier o.impl)) RetCode.invalid_argument
        guard given RetCode.invalid_argument
        guard (is_zero s.context.implementation_identifier s.context.impl) RetCode.invalid_argument
        guard (is_none s.context.impl) RetCode.invalid_argument
        guard (is_own o.implementation_identifier) RetCode.incorrect_rmw_implementation
        λ s. or_code create_context RetCode.error (marked o s))
        s

module _ {port : MemoryPort} where
  abbrev close : Process port → Process port
  close s = record {
    context = record (s.context) { impl = none };
    world = deallocate port s.context.impl (destruct port s.context.impl s.world);
  }

  unfoldable pub rmw_shutdown : Bool → Exec (Process port) RetCode (Unit {0})
  rmw_shutdown given s =
      (do
        guard given RetCode.invalid_argument
        guard (not (is_zero s.context.implementation_identifier s.context.impl))
            RetCode.invalid_argument
        guard (is_own s.context.implementation_identifier) RetCode.incorrect_rmw_implementation
        λ s. (ok tt, close s))
        s

  unfoldable pub rmw_context_fini : Bool → Exec (Process port) RetCode (Unit {0})
  rmw_context_fini given s =
      (do
        guard given RetCode.invalid_argument
        guard (not (is_zero s.context.implementation_identifier s.context.impl))
            RetCode.invalid_argument
        guard (is_own s.context.implementation_identifier) RetCode.incorrect_rmw_implementation
        guard (is_none s.context.impl) RetCode.invalid_argument
        λ s. (ok tt, record s { context = rmw_get_zero_initialized_context }))
        s
