-- ===== src/Names/Order.antt =====
-- The comparison of `std::string`, and `operator<` of `NodeName` and `TopicDetails` in
-- src/rmw/graph.cpp.
use rmw_iceoryx.OrderedSet.{Order}
use rmw_iceoryx.Names.{NodeName}
use rmw_iceoryx.Common.{
  Bool, List, [], ◌==◌, ◌&&◌, ◌∷◌, false, if◌then◌else◌, ltb, true, ◌≡◌, ℕ, arith, refl,
}

-- By the first character that differs; a text comes before its continuations.
unfoldable pub text_less : List ℕ → List ℕ → Bool
text_less [] [] = false
text_less [] (d ∷ ds) = true
text_less (c ∷ cs) [] = false
text_less (c ∷ cs) (d ∷ ds) =
    let rest = text_less cs ds in if ltb c d then true else if ltb d c then false else rest

unfoldable pub text_eq : List ℕ → List ℕ → Bool
text_eq [] [] = true
text_eq [] (d ∷ ds) = false
text_eq (c ∷ cs) [] = false
text_eq (c ∷ cs) (d ∷ ds) = c == d && text_eq cs ds

text_less_irrefl : (s : List ℕ) → text_less s s ≡ false
unfolding text_less
text_less_irrefl [] = refl
text_less_irrefl (c ∷ cs) = ground (arith, text_less_irrefl cs)

text_less_trans :
    (s t u : List ℕ) → text_less s t ≡ true → text_less t u ≡ true → text_less s u ≡ true
unfolding text_less
text_less_trans [] [] [] h k = h
text_less_trans [] [] (e ∷ es) h k = k
text_less_trans [] (d ∷ ds) [] h k = k
text_less_trans [] (d ∷ ds) (e ∷ es) h k = refl
text_less_trans (c ∷ cs) [] [] h k = h
text_less_trans (c ∷ cs) [] (e ∷ es) h k = absurd (cc)
text_less_trans (c ∷ cs) (d ∷ ds) [] h k = k
text_less_trans (c ∷ cs) (d ∷ ds) (e ∷ es) h k = ground (arith, text_less_trans cs ds es)

text_less-connected : (s t : List ℕ) → text_less s t ≡ false → text_less t s ≡ false → s ≡ t
unfolding text_less
text_less-connected [] [] h k = refl
text_less-connected [] (d ∷ ds) h k = absurd (cc)
text_less-connected (c ∷ cs) [] h k = absurd (cc)
text_less-connected (c ∷ cs) (d ∷ ds) h k = ground (arith, text_less-connected cs ds)

pub text_eq-eq : (s t : List ℕ) → text_eq s t ≡ true → s ≡ t
unfolding text_eq
text_eq-eq [] [] h = refl
text_eq-eq [] (d ∷ ds) h = absurd (cc)
text_eq-eq (c ∷ cs) [] h = absurd (cc)
text_eq-eq (c ∷ cs) (d ∷ ds) h = ground (arith, text_eq-eq cs ds)

pub text_eq_refl : (s : List ℕ) → text_eq s s ≡ true
unfolding text_eq
text_eq_refl [] = refl
text_eq_refl (c ∷ cs) = ground (arith, text_eq_refl cs)

-- The first texts are compared, and the second ones where the first are the same.
abbrev pub lex_less : List ℕ → List ℕ → List ℕ → List ℕ → Bool
lex_less a b c d = if text_eq a c then text_less b d else text_less a c

unfoldable pub node_less : NodeName → NodeName → Bool
node_less m n = lex_less m.namespace m.name n.namespace n.name

-- `TopicDetails`
pub record TopicDetails : Type 0 where
  pub name : List ℕ
  pub type : List ℕ

unfoldable pub topic_less : TopicDetails → TopicDetails → Bool
topic_less m n = lex_less m.name m.type n.name n.type

lex_less_irrefl : (a b : List ℕ) → lex_less a b a b ≡ false
lex_less_irrefl a b = ground (arith, text_less_irrefl a, text_less_irrefl b)

lex_less_trans :
    (a b c d e f : List ℕ)
    → lex_less a b c d ≡ true
    → lex_less c d e f ≡ true
    → lex_less a b e f ≡ true
lex_less_trans a b c d e f h k = ground (
  arith,
  text_eq-eq a c,
  text_eq-eq c e,
  text_eq-eq a e,
  text_less_trans a c e,
  text_less_trans b d f,
  text_less_irrefl a,
  text_less_irrefl c,
  text_eq_refl a,
  text_eq_refl e,
)

lex_less-connected :
    (a b c d : List ℕ) → lex_less a b c d ≡ false → lex_less c d a b ≡ false → (a ≡ c) × (b ≡ d)
lex_less-connected a b c d h k = (
  ground (arith, text_eq-eq a c, text_eq-eq c a, text_less-connected a c),
  ground (
    arith,
    text_eq-eq a c,
    text_eq-eq c a,
    text_eq_refl a,
    text_less-connected a c,
    text_less-connected b d,
  ),
)

pub node_less_irrefl : (m : NodeName) → node_less m m ≡ false
unfolding node_less
node_less_irrefl m = lex_less_irrefl m.namespace m.name

pub node_less_trans :
    (m n o : NodeName) → node_less m n ≡ true → node_less n o ≡ true → node_less m o ≡ true
unfolding node_less
node_less_trans m n o = lex_less_trans m.namespace m.name n.namespace n.name o.namespace o.name

pub node_less-connected : (m n : NodeName) → node_less m n ≡ false → node_less n m ≡ false → m ≡ n
unfolding node_less
node_less-connected m n h k =
    let e : (m.namespace ≡ n.namespace) × (m.name ≡ n.name) =
      lex_less-connected m.namespace m.name n.namespace n.name h k in
    λ i. record { namespace = e.0 i; name = e.1 i }

pub topic_less_irrefl : (m : TopicDetails) → topic_less m m ≡ false
unfolding topic_less
topic_less_irrefl m = lex_less_irrefl m.name m.type

pub topic_less_trans :
    (m n o : TopicDetails) → topic_less m n ≡ true → topic_less n o ≡ true → topic_less m o ≡ true
unfolding topic_less
topic_less_trans m n o = lex_less_trans m.name m.type n.name n.type o.name o.type

pub topic_less-connected :
    (m n : TopicDetails) → topic_less m n ≡ false → topic_less n m ≡ false → m ≡ n
unfolding topic_less
topic_less-connected m n h k =
    let e : (m.name ≡ n.name) × (m.type ≡ n.type) =
      lex_less-connected m.name m.type n.name n.type h k in
    λ i. record { name = e.0 i; type = e.1 i }

instance abbrev pub node_order : Order NodeName
node_order = record {
  less = node_less;
  less-irrefl = node_less_irrefl;
  less-trans = node_less_trans;
  less-connected = node_less-connected;
}

instance abbrev pub topic_order : Order TopicDetails
topic_order = record {
  less = topic_less;
  less-irrefl = topic_less_irrefl;
  less-trans = topic_less_trans;
  less-connected = topic_less-connected;
}
