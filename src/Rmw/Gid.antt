-- ===== src/Rmw/Gid.antt =====
-- src/rmw/gid.cpp: the identifiers of publishers. `size` is RMW_GID_STORAGE_SIZE, a constant of rmw,
-- and the identifier that iceoryx2 gives a publisher is its bytes.
use rmw_iceoryx.Common.{
  Bool, Exec, List, Option, [], ap, false, length, ltb, not, ok, or_raise, refl, some, suc, take,
  true, zero, ℕ, ◌>>=◌, ◌>>◌, ◌↔◌, ◌∷◌, ◌≡◌, guard, raise, sym,
}
use mathlib.Core.Path.{subst₂}
use rmw_iceoryx.Errors.{RetCode}
use rmw_iceoryx.Names.Order.{text_eq, text_eq-eq, text_eq_refl}
use rmw_iceoryx.Rmw.Ensure.{Identifier, is_own, rmw_get_implementation_identifier}
use rmw_iceoryx.Rmw.Graph.{Stop, code, undefined_behaviour}
use rmw_iceoryx.Rmw.Publish.{PublisherHandle}
use rmw_iceoryx.Rmw.Handles.Services.{ServiceHandle}

-- `rmw_gid_t`
pub record Gid : Type 0 where
  pub implementation_identifier : Identifier
  pub bytes : List ℕ

-- `rmw_gid` is the state; a flag says whether its pointer is not null. To copy more bytes than the
-- identifier has is undefined.
unfoldable pub rmw_get_gid_for_publisher :
    ℕ → Option PublisherHandle → Option (List ℕ) → Bool → Exec Gid Stop (Unit {0})
rmw_get_gid_for_publisher size rmw_publisher unique_id has_gid = do
  p ← or_raise rmw_publisher (code RetCode.invalid_argument)
  guard (is_own p.implementation_identifier) (code RetCode.incorrect_rmw_implementation)
  guard has_gid (code RetCode.invalid_argument)
  or_raise p.impl (code RetCode.error)
  id ← or_raise unique_id (code RetCode.error)
  guard (not (ltb (length id) size)) undefined_behaviour
  λ _. (
    ok tt,
    record { implementation_identifier = rmw_get_implementation_identifier; bytes = take size id },
  )

unfoldable pub rmw_get_gid_for_client : Option ServiceHandle → Bool → Exec Gid Stop (Unit {0})
rmw_get_gid_for_client rmw_client has_gid = do
  c ← or_raise rmw_client (code RetCode.invalid_argument)
  guard (is_own c.implementation_identifier) (code RetCode.incorrect_rmw_implementation)
  guard has_gid (code RetCode.invalid_argument)
  raise (code RetCode.unsupported)

-- `*result` is the state.
unfoldable pub rmw_compare_gids_equal :
    ℕ → Option Gid → Option Gid → Bool → Exec Bool Stop (Unit {0})
rmw_compare_gids_equal size lhs rhs has_result = do
  l ← or_raise lhs (code RetCode.invalid_argument)
  r ← or_raise rhs (code RetCode.invalid_argument)
  guard has_result (code RetCode.invalid_argument)
  guard (is_own l.implementation_identifier) (code RetCode.incorrect_rmw_implementation)
  guard (is_own r.implementation_identifier) (code RetCode.incorrect_rmw_implementation)
  λ _. (ok tt, text_eq (take size l.bytes) (take size r.bytes))

take-take {ℓ} : {A : Type ℓ} (n : ℕ) (xs : List A) → take n (take n xs) ≡ take n xs
take-take zero xs = refl
take-take (suc n) [] = refl
take-take (suc n) (x ∷ xs) = ap (◌∷◌ x) (take-take n xs)

-- The identifier that a publisher gets.
abbrev gid_of : ℕ → PublisherHandle → List ℕ → Gid → Gid
gid_of size p id gid = (rmw_get_gid_for_publisher size (some p) (some id) true gid).1

given :
    (size : ℕ) (p : PublisherHandle) (impl : ℕ) (id : List ℕ) (gid : Gid)
    → is_own p.implementation_identifier ≡ true
    → p.impl ≡ some impl
    → ltb (length id) size ≡ false
    → rmw_get_gid_for_publisher size (some p) (some id) true gid ≡ (
      ok tt,
      record {
        implementation_identifier = rmw_get_implementation_identifier;
        bytes = take size id;
      },
    )
unfolding rmw_get_gid_for_publisher
given size p impl id gid own placed long = rw (own, placed, long)

-- For publishers of this implementation, whose identifiers in iceoryx2 have enough bytes, the
-- comparison of the identifiers that they get succeeds, and answers true if and only if the first
-- bytes of the identifiers in iceoryx2 are the same, as many as rmw stores.
pub rmw_compare_gids_equal-rmw_get_gid :
    (size : ℕ) (p q : PublisherHandle) (pi qi : ℕ) (u v : List ℕ) (g h : Gid) (result : Bool)
    → is_own p.implementation_identifier ≡ true
    → is_own q.implementation_identifier ≡ true
    → p.impl ≡ some pi
    → q.impl ≡ some qi
    → ltb (length u) size ≡ false
    → ltb (length v) size ≡ false
    → ((rmw_compare_gids_equal size
          (some (gid_of size p u g))
          (some (gid_of size q v h))
          true
          result).0
        ≡ ok tt)
      × (((rmw_compare_gids_equal size
              (some (gid_of size p u g))
              (some (gid_of size q v h))
              true
              result).1
            ≡ true)
          ↔ (take size u ≡ take size v))
unfolding rmw_compare_gids_equal
rmw_compare_gids_equal-rmw_get_gid size p q pi qi u v g h result own own' ip iq lu lv =
    subst₂
      (λ l r.
        ((rmw_compare_gids_equal size (some l) (some r) true result).0 ≡ ok tt)
        × (((rmw_compare_gids_equal size (some l) (some r) true result).1 ≡ true)
            ↔ (take size u ≡ take size v)))
      (sym (ap (λ r. r.1) (given size p pi u g own ip lu)))
      (sym (ap (λ r. r.1) (given size q qi v h own' iq lv)))
      (rw (take-take size u, take-take size v)
        (refl, (text_eq-eq (take size u) (take size v), λ e. rw e (text_eq_refl (take size v)))))
