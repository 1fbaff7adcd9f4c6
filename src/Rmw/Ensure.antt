-- ===== src/Rmw/Ensure.antt =====
-- The checks at the head of each function: include/rmw_iceoryx2_cxx/impl/common/ensure.hpp and
-- `unsafe_cast` of common/allocator.hpp.
use rmw_iceoryx.Common.{
  ℕ, Bool, true, false, Option, none, some, Expected, ok, err, Exec, or_raise, guard, is_none, ◌≡◌,
  ◌≢◌, inl, inr, refl, ◌⊎◌, ◌||◌,
}
use rmw_iceoryx.Errors.{MemoryError, RetCode}

-- An `implementation_identifier` is compared as a pointer with the program's own.
pub data Identifier : Type 0 where
  null_identifier rmw_iox2_identifier other_identifier : Identifier

abbrev pub rmw_get_implementation_identifier : Identifier
rmw_get_implementation_identifier = rmw_iox2_identifier

abbrev pub is_own : Identifier → Bool
is_own rmw_iox2_identifier = true
is_own null_identifier = false
is_own other_identifier = false

abbrev pub is_null_identifier : Identifier → Bool
is_null_identifier null_identifier = true
is_null_identifier rmw_iox2_identifier = false
is_null_identifier other_identifier = false

module _ {S : Type 0} where
  abbrev pub ensure_not_null : {A : Type 0} → Option A → RetCode → Exec S RetCode A
  ensure_not_null argument code = or_raise argument code

  abbrev pub ensure_null : {A : Type 0} → Option A → RetCode → Exec S RetCode (Unit {0})
  ensure_null argument code = guard (is_none argument) code

  abbrev pub ensure_implementation : Identifier → RetCode → Exec S RetCode (Unit {0})
  ensure_implementation identifier code = guard (is_own identifier) code

  abbrev pub ensure_can_loan : Bool → RetCode → Exec S RetCode (Unit {0})
  ensure_can_loan can_loan_messages code = guard can_loan_messages code

abbrev pub unsafe_cast : Option ℕ → Expected MemoryError ℕ
unsafe_cast none = err MemoryError.cast
unsafe_cast (some p) = ok p

-- The two identifiers under which a type support is looked up: that of C, and then that of C++. The
-- look-up is that of rosidl, a parameter, which answers whether it finds a handle.
pub data TypesupportIdentifier : Type 0 where
  typesupport_c typesupport_cpp : TypesupportIdentifier

abbrev pub is_valid_typesupport :
    {Support : Type 0} → (TypesupportIdentifier → Support → Bool) → Support → Bool
is_valid_typesupport get_typesupport_handle ts =
    get_typesupport_handle typesupport_c ts || get_typesupport_handle typesupport_cpp ts

-- A code other than `RMW_RET_ERROR` comes from the checks, before anything has changed.
abbrev pub RefusesCleanly : {S A : Type 0} → Exec S RetCode A → Type 0
RefusesCleanly {S} m = (s : S) (c : RetCode) → (m s).0 ≡ err c → c ≢ RetCode.error → (m s).1 ≡ s

-- A code that only the checks give.
abbrev pub is_refusal : {A : Type 0} → Expected RetCode A → Bool
is_refusal (ok a) = false
is_refusal (err RetCode.error) = false
is_refusal (err c) = true

-- A result from a state: the call was not refused, or the state is as it was.
abbrev pub IsCleanAt : {S A : Type 0} → S → Expected RetCode A × S → Type 0
IsCleanAt s r = (is_refusal r.0 ≡ false) ⊎ (r.1 ≡ s)

pub clean_at : {S A : Type 0} (m : Exec S RetCode A) (s : S) → RefusesCleanly m → IsCleanAt s (m s)
clean_at {S} {A} m s h = split (m s) (h s)
  where
    split :
        (r : Expected RetCode A × S)
        → ((c : RetCode) → r.0 ≡ err c → c ≢ RetCode.error → r.1 ≡ s)
        → IsCleanAt s r
    split (ok a, s') h = inl refl
    split (err RetCode.timeout, s') h = inr (h RetCode.timeout refl (λ e. absurd (cc)))
    split (err RetCode.error, s') h = inl refl
    split (err RetCode.bad_alloc, s') h = inr (h RetCode.bad_alloc refl (λ e. absurd (cc)))
    split (err RetCode.invalid_argument, s') h =
        inr (h RetCode.invalid_argument refl (λ e. absurd (cc)))
    split (err RetCode.incorrect_rmw_implementation, s') h =
        inr (h RetCode.incorrect_rmw_implementation refl (λ e. absurd (cc)))
    split (err RetCode.unsupported, s') h = inr (h RetCode.unsupported refl (λ e. absurd (cc)))
