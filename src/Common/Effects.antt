-- ===== src/Common/Effects.antt =====
-- `iox::expected`, and the monad of methods that change an object and may fail. What was written
-- before a failure stays written, so the state comes back beside the error too.
use mathlib.Core.Bool.{Bool, true, false}
use mathlib.Core.Option.{Option, none, some}
use mathlib.Core.Path.{◌≡◌, refl}
use mathlib.Core.Logic.{◌⊎◌, inl, inr}

pub data Expected {ℓ κ} (E : Type ℓ) (A : Type κ) : Type (ℓ ⊔ κ) where
  ok : A → Expected E A
  err : E → Expected E A

abbrev pub has_error {ℓ κ} : {E : Type ℓ} {A : Type κ} → Expected E A → Bool
has_error (ok a) = false
has_error (err e) = true

abbrev pub Exec {ℓ} : Type ℓ → Type ℓ → Type ℓ → Type ℓ
Exec S E A = S → Expected E A × S

module _ {ℓ} {S E A : Type ℓ} where
  abbrev pub pure : A → Exec S E A
  pure a s = (ok a, s)

  abbrev pub raise : E → Exec S E A
  raise e s = (err e, s)

  abbrev pub lift : Expected E A → Exec S E A
  lift r s = (r, s)

  abbrev pub or_raise : Option A → E → Exec S E A
  or_raise none e s = (err e, s)
  or_raise (some a) e s = (ok a, s)

abbrev pub guard {ℓ} : {S E : Type ℓ} → Bool → E → Exec S E (Unit {ℓ})
guard true e s = (ok tt, s)
guard false e s = (err e, s)

module _ {ℓ} {S E A B : Type ℓ} where
  abbrev pub continue : Expected E A × S → (A → Exec S E B) → Expected E B × S
  continue (ok a, s) f = f a s
  continue (err e, s) f = (err e, s)

  infixl 10 ◌>>=◌ ◌>>◌
  abbrev pub ◌>>=◌ : Exec S E A → (A → Exec S E B) → Exec S E B
  ◌>>=◌ m f s = continue (m s) f

  abbrev pub ◌>>◌ : Exec S E A → Exec S E B → Exec S E B
  m >> n = m >>= λ _. n

-- The caller reports a failure of `m` under a code of its own.
module _ {ℓ} {S E F A : Type ℓ} where
  abbrev pub report : F → Expected E A × S → Expected F A × S
  report c (ok a, s) = (ok a, s)
  report c (err e, s) = (err c, s)

  abbrev pub or_code : Exec S E A → F → Exec S F A
  or_code m c s = report c (m s)

pub Expected-cases {ℓ} :
    {E A : Type ℓ} (r : Expected E A) → ((a : A) × (r ≡ ok a)) ⊎ ((e : E) × (r ≡ err e))
Expected-cases (ok a) = inl (a, refl)
Expected-cases (err e) = inr (e, refl)
