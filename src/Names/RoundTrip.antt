-- ===== src/Names/RoundTrip.antt =====
-- The parsers read back what names.cpp writes.

use rmw_iceoryx.Names.{
  after_first, digits, parse_topic_name, slash, split_last, starts_with, topic, nodes_marker,
  context_prefix, node_name, parse_name, node, with_namespace, to_string,
}
use rmw_iceoryx.Common.{
  All, All-append, Bool-cases, List, [], arith, false, inl, inr, ltb, none, refl, some, suc, zero,
  ℕ, ◌++◌, ◌/◌, ◌==◌, ◌∷◌, ◌≡◌, ◌≤◌, Option, ap, drop, ◌∙◌,
}

-- No slash among the characters.
abbrev pub HasNoSlash : List ℕ → Type 0
HasNoSlash = All λ c. (c == slash) ≡ false

-- A topic's name is read back from its service's name, unless it is empty.
pub parse_topic_name-topic :
    (c : ℕ) (cs : List ℕ) → parse_topic_name (topic (c ∷ cs)) ≡ some (c ∷ cs)
unfolding parse_topic_name topic starts_with
parse_topic_name-topic c cs = refl

-- A decimal digit.
abbrev pub IsDigit : ℕ → Type 0
IsDigit c = (48 ≤ c) × (c ≤ 57)

pub digits-IsDigit : (fuel n : ℕ) → All IsDigit (digits fuel n)
unfolding digits
digits-IsDigit zero n = tt
digits-IsDigit (suc fuel) n = elim (Bool-cases (ltb n 10)) [
  | inl small ↦ rw small ((omega arith, ground (arith, small)), tt)
  | inr large ↦ rw large (
      All-append IsDigit (digits fuel (n / 10)) _ (digits-IsDigit fuel (n / 10))
        ((omega arith, omega arith), tt))
]

-- Digits hold no beginning of the marker.
after_first-digits :
    (ds rest : List ℕ)
    → All IsDigit ds
    → after_first nodes_marker (ds ++ nodes_marker ++ rest) ≡ some rest
unfolding after_first starts_with
after_first-digits [] rest h = refl
after_first-digits (d ∷ ds) rest h =
    let other : (47 == d) ≡ false = ground (arith, h.0) in rw other (after_first-digits ds rest h.1)

no_marker :
    (ds rest : List ℕ)
    → All IsDigit ds
    → starts_with (drop 1 nodes_marker) (ds ++ nodes_marker ++ rest) ≡ false
unfolding starts_with
no_marker [] rest h = refl
no_marker (d ∷ ds) rest h = ground (arith, h.0)

after_first-context :
    (ds rest : List ℕ)
    → All IsDigit ds
    → after_first nodes_marker (context_prefix ++ ds ++ nodes_marker ++ rest) ≡ some rest
unfolding after_first starts_with
after_first-context ds rest h = rw (no_marker ds rest h) (after_first-digits ds rest h)

split_last-no_slash : (cs : List ℕ) → HasNoSlash cs → split_last cs ≡ none
unfolding split_last
split_last-no_slash [] h = refl
split_last-no_slash (c ∷ cs) h = rw (split_last-no_slash cs h.1) (rw h.0 refl)

split_last-slash :
    (ns name : List ℕ) → HasNoSlash name → split_last (ns ++ slash ∷ name) ≡ some (ns, name)
unfolding split_last
split_last-slash [] name h = rw (split_last-no_slash name h) refl
split_last-slash (c ∷ ns) name h = rw (split_last-slash ns name h) refl

abbrev pub text_of : Option (List ℕ) → List ℕ
text_of none = []
text_of (some ns) = ns

split-with_namespace :
    (c : ℕ) (cs : List ℕ) (ns : Option (List ℕ))
    → HasNoSlash (c ∷ cs)
    → node_name (some (with_namespace ns (c ∷ cs)))
      ≡ some (record { namespace = text_of ns; name = c ∷ cs })
split-with_namespace c cs none h = rw (split_last-no_slash (c ∷ cs) h) refl
split-with_namespace c cs (some []) h = rw (split_last-no_slash (c ∷ cs) h) refl
split-with_namespace c cs (some (d ∷ ns)) h = rw (split_last-slash (d ∷ ns) (c ∷ cs) h) refl

-- The name and the namespace of a node are read back by parse_name from the name that names::node
-- writes, whatever the namespace and the context, if the name is not empty and has no slash; a null
-- namespace as an empty one.
pub parse_name-node :
    (context_id c : ℕ) (cs : List ℕ) (ns : Option (List ℕ))
    → HasNoSlash (c ∷ cs)
    → parse_name (node context_id (c ∷ cs) ns)
      ≡ some (record { namespace = text_of ns; name = c ∷ cs })
unfolding parse_name node starts_with
parse_name-node context_id c cs ns h =
    ap node_name (
      after_first-context (to_string context_id) (with_namespace ns (c ∷ cs))
        (digits-IsDigit 10 context_id))
    ∙ split-with_namespace c cs ns h
