-- ===== src/OrderedSet.antt =====
-- `std::set` with the comparison of its elements, as src/rmw/graph.cpp uses it: the elements in
-- ascending order, none twice.
pub mod Laws
use rmw_iceoryx.Common.{Bool, true, false, List, [], ◌∷◌, if◌then◌else◌, not, ◌&&◌, ◌||◌, ◌≡◌}

-- A strict total order, by its test.
pub record Order (A : Type 0) : Type 0 where
  pub less : A → A → Bool
  pub less-irrefl : (a : A) → less a a ≡ false
  pub less-trans : (a b c : A) → less a b ≡ true → less b c ≡ true → less a c ≡ true
  pub less-connected : (a b : A) → less a b ≡ false → less b a ≡ false → a ≡ b

module _ {A : Type 0} ⦃o : Order A⦄ where
  -- Neither is less than the other.
  abbrev pub is_same : A → A → Bool
  is_same a b = not (o.less a b) && not (o.less b a)

  unfoldable pub contains : A → List A → Bool
  contains a [] = false
  contains a (x ∷ xs) = is_same a x || contains a xs

  unfoldable pub emplace : A → List A → List A
  emplace a [] = a ∷ []
  emplace a (x ∷ xs) =
      let rest = emplace a xs in
      if o.less a x then a ∷ x ∷ xs else if o.less x a then x ∷ rest else x ∷ xs

  -- All that a loop emplaces, from an empty set on.
  unfoldable pub emplace_all : List A → List A → List A
  emplace_all [] set = set
  emplace_all (a ∷ as') set = emplace_all as' (emplace a set)
