-- ===== src/Names.antt =====
-- src/impl/common/names.cpp, the names of contexts, nodes, guard conditions and topics in iceoryx2,
-- and their parsers in src/rmw/graph.cpp. A string is the list of its characters' codes, without
-- the final zero. The number of a context or a guard condition has 32 bits, at most ten digits.
pub mod RoundTrip
pub mod Distinct
pub mod Order
use mathlib.Core.Option
use rmw_iceoryx.Common.{
  Bool, List, Option, [], drop, false, if◌then◌else◌, length, ltb, none, some, suc, true, zero, ℕ,
  ◌%◌, ◌&&◌, ◌++◌, ◌+◌, ◌/◌, ◌==◌, ◌∷◌,
}

-- `std::to_string`, with fuel for the digits.
unfoldable pub digits : ℕ → ℕ → List ℕ
digits zero n = []
digits (suc fuel) n =
    let rest = digits fuel (n / 10) in
    if ltb n 10 then (48 + n) ∷ [] else rest ++ (48 + n % 10) ∷ []

abbrev pub to_string : ℕ → List ℕ
to_string n = digits 10 n

-- "/"
abbrev pub slash : ℕ
slash = 47

-- "ros2://context/"
abbrev pub context_prefix : List ℕ
context_prefix =
    114 ∷ 111 ∷ 115 ∷ 50 ∷ 58 ∷ 47 ∷ 47 ∷ 99 ∷ 111 ∷ 110 ∷ 116 ∷ 101 ∷ 120 ∷ 116 ∷ 47 ∷ []

-- "/nodes/"
abbrev pub nodes_marker : List ℕ
nodes_marker = 47 ∷ 110 ∷ 111 ∷ 100 ∷ 101 ∷ 115 ∷ 47 ∷ []

-- "/guard_conditions/"
abbrev pub guard_conditions_marker : List ℕ
guard_conditions_marker =
    47 ∷ 103 ∷ 117 ∷ 97 ∷ 114 ∷ 100 ∷ 95 ∷ 99 ∷ 111 ∷ 110 ∷ 100 ∷ 105 ∷ 116 ∷ 105 ∷ 111 ∷ 110 ∷ 115
    ∷ 47 ∷ []

-- "ros2://topics"
abbrev pub topics_prefix : List ℕ
topics_prefix = 114 ∷ 111 ∷ 115 ∷ 50 ∷ 58 ∷ 47 ∷ 47 ∷ 116 ∷ 111 ∷ 112 ∷ 105 ∷ 99 ∷ 115 ∷ []

unfoldable pub context : ℕ → List ℕ
context context_id = context_prefix ++ to_string context_id

-- A namespace is left out if it is null or empty.
abbrev pub with_namespace : Option (List ℕ) → List ℕ → List ℕ
with_namespace none name = name
with_namespace (some []) name = name
with_namespace (some (c ∷ ns)) name = (c ∷ ns) ++ slash ∷ name

unfoldable pub node : ℕ → List ℕ → Option (List ℕ) → List ℕ
node context_id name ns =
    context_prefix ++ to_string context_id ++ nodes_marker ++ with_namespace ns name

unfoldable pub guard_condition : ℕ → ℕ → List ℕ
guard_condition context_id guard_condition_id =
    context_prefix
    ++ to_string context_id
    ++ guard_conditions_marker
    ++ to_string guard_condition_id

unfoldable pub topic : List ℕ → List ℕ
topic name = topics_prefix ++ name

-- Whether a text begins with another: the comparison of `substr(0, length)`.
unfoldable pub starts_with : List ℕ → List ℕ → Bool
starts_with [] text = true
starts_with (p ∷ ps) [] = false
starts_with (p ∷ ps) (c ∷ cs) = p == c && starts_with ps cs

-- `find`, as what follows the first occurrence.
unfoldable pub after_first : List ℕ → List ℕ → Option (List ℕ)
after_first marker [] = none
after_first marker (c ∷ cs) =
    if starts_with marker (c ∷ cs)
    then some (drop (length marker) (c ∷ cs))
    else after_first marker cs

-- `find_last_of`, as what stands before and after the last slash.
abbrev pub split_before : ℕ → Option (List ℕ × List ℕ) → List ℕ → Option (List ℕ × List ℕ)
split_before c (some (ns, name)) cs = some (c ∷ ns, name)
split_before c none cs = if c == slash then some ([], cs) else none

unfoldable pub split_last : List ℕ → Option (List ℕ × List ℕ)
split_last [] = none
split_last (c ∷ cs) = split_before c (split_last cs) cs

-- `NodeName`
pub record NodeName : Type 0 where
  pub namespace : List ℕ
  pub name : List ℕ

abbrev pub named : Option (List ℕ × List ℕ) → List ℕ → NodeName
named none part = record { namespace = []; name = part }
named (some (ns, name)) part = record { namespace = ns; name = name }

abbrev pub node_name : Option (List ℕ) → Option NodeName
node_name none = none
node_name (some []) = none
node_name (some (c ∷ cs)) = some (named (split_last (c ∷ cs)) (c ∷ cs))

unfoldable pub parse_name : List ℕ → Option NodeName
parse_name full_name =
    if starts_with context_prefix full_name
    then node_name (after_first nodes_marker full_name)
    else none

abbrev pub non_empty : List ℕ → Option (List ℕ)
non_empty [] = none
non_empty (c ∷ cs) = some (c ∷ cs)

unfoldable pub parse_topic_name : List ℕ → Option (List ℕ)
parse_topic_name full_name =
    if starts_with topics_prefix full_name
    then non_empty (drop (length topics_prefix) full_name)
    else none
