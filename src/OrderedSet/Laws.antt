-- ===== src/OrderedSet/Laws.antt =====
-- A set stays ascending and without repetition, and is determined by what it contains.
use mathlib.Core.Path.{ap₂}
use rmw_iceoryx.OrderedSet.{Order, is_same, contains, emplace, emplace_all}
use rmw_iceoryx.Common.{
  All, All-imp, Bool-cases, List, [], ap, arith, false, inl, inr, refl, subst, sym, true, ◌∙◌, ◌∷◌,
  ◌≡◌, ◌||◌, get_elem?, some, suc, zero, ℕ,
}

-- An element of a list, by its index.
abbrev pub IsIn : {A : Type 0} → A → List A → Type 0
IsIn a xs = (i : ℕ) × (get_elem? xs i ≡ some a)

module _ {A : Type 0} ⦃o : Order A⦄ where
  abbrev pub IsBelow : A → List A → Type 0
  IsBelow a = All (λ x. o.less a x ≡ true)

  -- Strictly ascending.
  abbrev pub IsAscending : List A → Type 0
  IsAscending [] = Unit
  IsAscending (x ∷ xs) = IsBelow x xs × IsAscending xs

  emplace-IsBelow :
      (a x : A) (xs : List A) → o.less x a ≡ true → IsBelow x xs → IsBelow x (emplace a xs)
  unfolding emplace
  emplace-IsBelow a x [] h below = (h, tt)
  emplace-IsBelow a x (y ∷ ys) h below = elim (Bool-cases (o.less a y)) [
    | inl first ↦ rw first (h, below)
    | inr later ↦ rw later (elim (Bool-cases (o.less y a)) [
      | inl after ↦ rw after (below.0, emplace-IsBelow a x ys h below.1)
      | inr same ↦ rw same below
    ])
  ]

  pub emplace-IsAscending : (a : A) (xs : List A) → IsAscending xs → IsAscending (emplace a xs)
  unfolding emplace
  emplace-IsAscending a [] h = (tt, tt)
  emplace-IsAscending a (x ∷ xs) h = elim (Bool-cases (o.less a x)) [
    | inl first ↦
        rw first ((first, All-imp _ _ xs (λ y below. o.less-trans a x y first below) h.0), h)
    | inr later ↦ rw later (elim (Bool-cases (o.less x a)) [
      | inl after ↦ rw after (emplace-IsBelow a x xs after h.0, emplace-IsAscending a xs h.1)
      | inr same ↦ rw same h
    ])
  ]

  pub is_same-eq : (a b : A) → is_same a b ≡ true → a ≡ b
  is_same-eq a b h = o.less-connected a b (ground arith) (ground arith)

  pub is_same_refl : (a : A) → is_same a a ≡ true
  is_same_refl a = rw (o.less-irrefl a)

  -- A set has what it had, and what was added.
  pub contains-emplace :
      (b a : A) (xs : List A) → contains b (emplace a xs) ≡ (is_same b a || contains b xs)
  unfolding contains emplace
  contains-emplace b a [] = refl
  contains-emplace b a (x ∷ xs) = elim (Bool-cases (o.less a x)) [
    | inl first ↦ rw first
    | inr later ↦ rw later (elim (Bool-cases (o.less x a)) [
      | inl after ↦ rw after (ground (arith, contains-emplace b a xs))
      | inr same ↦
          let e : a ≡ x = o.less-connected a x later same in
          rw same (
            subst (λ a. contains b (x ∷ xs) ≡ (is_same b a || contains b (x ∷ xs))) (sym e)
              (ground arith))
    ])
  ]

  pub emplace_all-IsAscending :
      (as' set : List A) → IsAscending set → IsAscending (emplace_all as' set)
  unfolding emplace_all
  emplace_all-IsAscending [] set h = h
  emplace_all-IsAscending (a ∷ as') set h =
      emplace_all-IsAscending as' (emplace a set) (emplace-IsAscending a set h)

  pub contains-emplace_all :
      (b : A) (as' set : List A)
      → contains b (emplace_all as' set) ≡ (contains b as' || contains b set)
  unfolding contains emplace_all
  contains-emplace_all b [] set = refl
  contains-emplace_all b (a ∷ as') set =
      ground (arith, contains-emplace_all b as' (emplace a set), contains-emplace b a set)

  below-contains : (a : A) (xs : List A) → IsBelow a xs → contains a xs ≡ false
  unfolding contains
  below-contains a [] h = refl
  below-contains a (x ∷ xs) h = ground (arith, h.0, below-contains a xs h.1)

  less-of_contains :
      (a x : A) (xs : List A) → IsBelow x xs → contains a xs ≡ true → o.less x a ≡ true
  unfolding contains
  less-of_contains a x [] below h = absurd (cc)
  less-of_contains a x (y ∷ ys) below h = elim (Bool-cases (is_same a y)) [
    | inl same ↦ rw (is_same-eq a y same) below.0
    | inr other ↦ less-of_contains a x ys below.1 (ground (arith, other, h))
  ]

  -- Two sets that contain the same begin with the same element.
  heads_eq :
      (x y : A) (xs ys : List A)
      → IsBelow x xs
      → IsBelow y ys
      → contains x (y ∷ ys) ≡ true
      → contains y (x ∷ xs) ≡ true
      → x ≡ y
  unfolding contains
  heads_eq x y xs ys hx hy inx iny = elim (Bool-cases (is_same x y)) [
    | inl same ↦ is_same-eq x y same
    | inr other ↦
        let y_first : o.less y x ≡ true = less-of_contains x y ys hy (ground (arith, other, inx)) in
        let x_first : o.less x y ≡ true =
          less-of_contains y x xs hx (ground (arith, other, iny, y_first)) in
        absurd (ground (arith, o.less-trans x y x x_first y_first, o.less-irrefl x))
  ]

  tails_same :
      (a x : A) (xs ys : List A)
      → IsBelow x xs
      → IsBelow x ys
      → contains a (x ∷ xs) ≡ contains a (x ∷ ys)
      → contains a xs ≡ contains a ys
  unfolding contains
  tails_same a x xs ys hx hy h = elim (Bool-cases (is_same a x)) [
    | inl same ↦ rw (is_same-eq a x same) (below-contains x xs hx ∙ sym (below-contains x ys hy))
    | inr other ↦ ground (arith, other, h)
  ]

  -- What it contains determines a set.
  pub IsAscending-ext :
      (xs ys : List A)
      → IsAscending xs
      → IsAscending ys
      → ((a : A) → contains a xs ≡ contains a ys)
      → xs ≡ ys
  unfolding contains
  IsAscending-ext [] [] hx hy h = refl
  IsAscending-ext [] (y ∷ ys) hx hy h = absurd (ground (arith, h y, is_same_refl y))
  IsAscending-ext (x ∷ xs) [] hx hy h = absurd (ground (arith, h x, is_same_refl x))
  IsAscending-ext (x ∷ xs) (y ∷ ys) hx hy h =
      let e : x ≡ y =
        heads_eq x y xs ys hx.0 hy.0 (ground (arith, h x, is_same_refl x))
          (ground (arith, h y, is_same_refl y)) in
      let below : IsBelow x ys = subst (λ z. IsBelow z ys) (sym e) hy.0 in
      let same : (a : A) → contains a (x ∷ xs) ≡ contains a (x ∷ ys) =
        λ a. h a ∙ ap (λ z. contains a (z ∷ ys)) (sym e) in
      ap₂ ◌∷◌ e (IsAscending-ext xs ys hx.1 hy.1 (λ a. tails_same a x xs ys hx.0 below (same a)))

  -- The order in which elements are emplaced, and how often, makes no difference.
  pub emplace_all-eq :
      (xs ys : List A)
      → ((a : A) → contains a xs ≡ contains a ys)
      → emplace_all xs [] ≡ emplace_all ys []
  emplace_all-eq xs ys h =
      IsAscending-ext _ _ (emplace_all-IsAscending xs [] tt) (emplace_all-IsAscending ys [] tt)
        (λ a.
          contains-emplace_all a xs []
          ∙ ap (λ b. b || contains a []) (h a)
          ∙ sym (contains-emplace_all a ys []))

  pub IsIn-of_contains : (a : A) (xs : List A) → contains a xs ≡ true → IsIn a xs
  unfolding contains
  IsIn-of_contains a [] h = absurd (cc)
  IsIn-of_contains a (x ∷ xs) h = elim (Bool-cases (is_same a x)) [
    | inl same ↦ (0, ap some (sym (is_same-eq a x same)))
    | inr other ↦ let (i, e) = IsIn-of_contains a xs (ground (arith, other, h)) in (suc i, e)
  ]

  pub contains-of_IsIn :
      (a : A) (xs : List A) (i : ℕ) → get_elem? xs i ≡ some a → contains a xs ≡ true
  unfolding contains
  contains-of_IsIn a [] i e = absurd (cc)
  contains-of_IsIn a (x ∷ xs) zero e =
      let same : x ≡ a = ground (arith, e) in rw same (ground (arith, is_same_refl a))
  contains-of_IsIn a (x ∷ xs) (suc i) e = ground (arith, contains-of_IsIn a xs i e)

  pub contains_eq :
      (a : A) (xs ys : List A)
      → (IsIn a xs → IsIn a ys)
      → (IsIn a ys → IsIn a xs)
      → contains a xs ≡ contains a ys
  contains_eq a xs ys f g = elim (Bool-cases (contains a xs)) [
    | inl here ↦
        let (i, e) = f (IsIn-of_contains a xs here) in here ∙ sym (contains-of_IsIn a ys i e)
    | inr missing ↦ elim (Bool-cases (contains a ys)) [
      | inl there ↦
          let (i, e) = g (IsIn-of_contains a ys there) in
          absurd (ground (arith, missing, contains-of_IsIn a xs i e))
      | inr absent ↦ missing ∙ sym absent
    ]
  ]
