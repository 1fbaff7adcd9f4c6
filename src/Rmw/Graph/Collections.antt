-- ===== src/Rmw/Graph/Collections.antt =====
-- What the sets hold that are collected from a listing.
use rmw_iceoryx.Common.{
  List, Option, Option-cases, [], ap, arith, get_elem?, inl, inr, none, refl, some, suc, zero, ℕ,
  ◌↔◌, ◌∙◌, ◌∷◌, ◌≡◌, ◌⊎◌,
}
use rmw_iceoryx.Names.Order.{node_order, topic_order}
use rmw_iceoryx.OrderedSet.{emplace_all, Order, contains}
use rmw_iceoryx.OrderedSet.Laws.{
  IsIn, emplace_all-eq, IsIn-of_contains, contains_eq, contains-of_IsIn, contains-emplace_all,
}

IsIn-cons :
    {A : Type 0} (x a : A) (xs : List A) (i : ℕ)
    → get_elem? (x ∷ xs) i ≡ some a
    → (x ≡ a) ⊎ IsIn a xs
IsIn-cons x a xs zero e = inl (ground (arith, e))
IsIn-cons x a xs (suc i) e = inr (i, e)

module _ {S A : Type 0} (read : S → Option A) where
  abbrev pub prepend : Option A → List A → List A
  prepend none xs = xs
  prepend (some x) xs = x ∷ xs

  -- What can be read of the entries, in their order.
  unfoldable pub readable : List S → List A
  readable [] = []
  readable (s ∷ ss) = prepend (read s) (readable ss)

  -- Some entry reads as this.
  abbrev pub Lists : List S → A → Type 0
  Lists ss a = (i : ℕ) × (s : S) × (get_elem? ss i ≡ some s) × (read s ≡ some a)

  later : (s : S) (ss : List S) (a : A) → Lists ss a → Lists (s ∷ ss) a
  later s ss a (i, t, e, f) = (suc i, t, e, f)

  pub Lists-of_IsIn : (ss : List S) (a : A) → IsIn a (readable ss) → Lists ss a
  unfolding readable
  Lists-of_IsIn [] a (i, e) = absurd (cc)
  Lists-of_IsIn (s ∷ ss) a (i, e) = elim (Option-cases (read s)) [
    | inl unread ↦ later s ss a (Lists-of_IsIn ss a (i, rw unread at e))
    | inr (b, r) ↦ elim (IsIn-cons b a (readable ss) i (rw r at e)) [
      | inl same ↦ (0, s, refl, r ∙ ap some same)
      | inr rest ↦ later s ss a (Lists-of_IsIn ss a rest)
    ]
  ]

  prepended : (o : Option A) (a : A) (xs : List A) → IsIn a xs → IsIn a (prepend o xs)
  prepended none a xs h = h
  prepended (some x) a xs (i, e) = (suc i, e)

  pub IsIn-of_Lists : (ss : List S) (a : A) → Lists ss a → IsIn a (readable ss)
  unfolding readable
  IsIn-of_Lists [] a (i, s, e, f) = absurd (cc)
  IsIn-of_Lists (t ∷ ss) a (zero, s, e, f) =
      let same : t ≡ s = ground (arith, e) in rw same (rw f (0, refl))
  IsIn-of_Lists (t ∷ ss) a (suc i, s, e, f) =
      prepended (read t) a (readable ss) (IsIn-of_Lists ss a (i, s, e, f))

  -- The collected set has exactly what the entries read as.
  module _ ⦃o : Order A⦄ where
    pub collected_iff : (ss : List S) (a : A) → IsIn a (emplace_all (readable ss) []) ↔ Lists ss a
    unfolding contains
    collected_iff ss a = (
      (λ (i, e). Lists-of_IsIn ss a (
          IsIn-of_contains a (readable ss)
            (ground (arith, contains-of_IsIn a _ i e, contains-emplace_all a (readable ss) [])))),
      (λ h.
          let (i, e) = IsIn-of_Lists ss a h in
          IsIn-of_contains a (emplace_all (readable ss) []) (
            ground (
              arith,
              contains-of_IsIn a (readable ss) i e,
              contains-emplace_all a (readable ss) [],
            ))),
    )

    -- Listings of the same entries, in whatever order and however often, give the same set.
    pub collected_eq :
        (ss ss' : List S)
        → ((s : S) → IsIn s ss ↔ IsIn s ss')
        → emplace_all (readable ss) [] ≡ emplace_all (readable ss') []
    collected_eq ss ss' same = emplace_all-eq _ _ (λ a.
        contains_eq a _ _ (moved ss ss' a (λ s. (same s).0)) (moved ss' ss a (λ s. (same s).1)))
      where
        moved :
            (ss ss' : List S) (a : A)
            → ((s : S) → IsIn s ss → IsIn s ss')
            → IsIn a (readable ss)
            → IsIn a (readable ss')
        moved ss ss' a to h =
            let (i, s, e, f) = Lists-of_IsIn ss a h in
            let (k, e') = to s (i, e) in IsIn-of_Lists ss' a (k, s, e', f)
