-- ===== src/Names/Distinct.antt =====
-- Names of different guard conditions differ.
use Prim.Native.Nat.pow
use rmw_iceoryx.Names.{digits, to_string, guard_condition, guard_conditions_marker, slash}
use rmw_iceoryx.Names.RoundTrip.{IsDigit, digits-IsDigit}
use rmw_iceoryx.Common.{
  All, Bool-cases, List, [], ap, arith, drop, inl, inr, ltb, refl, suc, zero, ℕ, ◌%◌, ◌*◌, ◌++◌,
  ◌+◌, ◌-◌, ◌/◌, ◌<◌, ◌^◌, ◌∙◌, ◌∷◌, ◌≡◌, sym,
}

-- The number that decimal digits stand for.
value : ℕ → List ℕ → ℕ
value acc [] = acc
value acc (c ∷ cs) = value (acc * 10 + (c - 48)) cs

value-append : (acc d : ℕ) (cs : List ℕ) → value acc (cs ++ d ∷ []) ≡ value acc cs * 10 + (d - 48)
unfolding value
value-append acc d [] = refl
value-append acc d (c ∷ cs) = value-append (acc * 10 + (c - 48)) d cs

-- Enough fuel: as many digits as the number has.
value-digits : (fuel n : ℕ) → n < 10 ^ fuel → value 0 (digits fuel n) ≡ n
unfolding value digits
value-digits zero n h = omega (arith, h)
value-digits (suc fuel) n h = elim (Bool-cases (ltb n 10)) [
  | inl small ↦ rw small (omega arith)
  | inr large ↦
      let power : 10 ^ suc fuel ≡ 10 ^ fuel * 10 = pow.suc 10 fuel in
      let shorter : n / 10 < 10 ^ fuel = omega (arith, h, power) in
      rw large (
        value-append 0 (48 + n % 10) (digits fuel (n / 10))
        ∙ (rw (value-digits fuel (n / 10) shorter) (omega arith)))
]

to_string_inj : (m n : ℕ) → m < 2 ^ 32 → n < 2 ^ 32 → to_string m ≡ to_string n → m ≡ n
to_string_inj m n hm hn e =
    sym (value-digits 10 m (omega arith)) ∙ (ap (value 0) e ∙ value-digits 10 n (omega arith))

-- Digits end at the first slash.
digits-slash :
    (m ds es r s : List ℕ)
    → All IsDigit ds
    → All IsDigit es
    → ds ++ (slash ∷ m) ++ r ≡ es ++ (slash ∷ m) ++ s
    → (ds ≡ es) × (m ++ r ≡ m ++ s)
digits-slash m [] [] r s hd he e = (refl, ground (arith, e))
digits-slash m [] (c ∷ es) r s hd he e = absurd (ground (arith, e, he.0))
digits-slash m (d ∷ ds) [] r s hd he e = absurd (ground (arith, e, hd.0))
digits-slash m (d ∷ ds) (c ∷ es) r s hd he e =
    let (same, rest) = digits-slash m ds es r s hd.1 he.1 (ground (arith, e)) in
    (ground (arith, e, same), rest)

-- Guard conditions with equal names have the same context and the same number, for numbers of 32
-- bits.
pub guard_condition_inj :
    (c g c' g' : ℕ)
    → c < 2 ^ 32
    → g < 2 ^ 32
    → c' < 2 ^ 32
    → g' < 2 ^ 32
    → guard_condition c g ≡ guard_condition c' g'
    → (c ≡ c') × (g ≡ g')
unfolding guard_condition
guard_condition_inj c g c' g' hc hg hc' hg' e =
    let (same, rest) =
      digits-slash (drop 1 guard_conditions_marker) (to_string c) (to_string c') (to_string g)
        (to_string g') (digits-IsDigit 10 c) (digits-IsDigit 10 c') (ap (drop 15) e) in
    (to_string_inj c c' hc hc' same, to_string_inj g g' hg hg' (ap (drop 17) rest))
