-- ===== src/Rmw/Graph/NodeReports.antt =====
-- rmw_get_node_names as a whole: what it reports, and when.
use rmw_iceoryx.Rmw.Graph.Collections.{readable, Lists, collected_eq, collected_iff}
use rmw_iceoryx.Common.{
  Bool, List, Option-cases, [], arith, false, inl, inr, refl, some, ◌&&◌, ◌∷◌, ◌≡◌, Option, err,
  guard, length, none, ok, sym, true, ◌>>◌, ◌↔◌, ◌∙◌, ◌≢◌, lift, get_elem?, suc, zero, ℕ,
}
use mathlib.Core.Path.{ap₂}
use rmw_iceoryx.Names.Order.{node_order}
use rmw_iceoryx.Names.RoundTrip.{HasNoSlash, text_of, parse_name-node}
use rmw_iceoryx.Names.{node, NodeName}
use rmw_iceoryx.OrderedSet.{emplace_all, emplace}
use rmw_iceoryx.OrderedSet.Laws.{IsAscending, IsIn, emplace_all-IsAscending}
use rmw_iceoryx.Rmw.Graph.{
  alive, NodeState, visit_nodes, name_of, RcutilsPort, RetCode, Listing, NodeHandle, NodeNames,
  rmw_get_node_names, collect_node_names, is_own, is_zero_array, undefined_behaviour, init_code,
  on_names, init_string_array, on_namespaces, fill_node_names,
}
use rmw_iceoryx.Rmw.Graph.Arrays.{
  elements, Ends-ok, Ends-defined, Ends-returns, any_code, NeverRefuses, Ends, Documented, Refusals,
  guarded-Ends,
}
use rmw_iceoryx.Rmw.Graph.Nodes.{copies, init_and_fill-Ends, Reports}

-- The nodes that are reported.
abbrev node_set : List NodeState → List NodeName
node_set ss = emplace_all (readable name_of ss) []

visit_nodes-eq :
    (ss : List NodeState) (names : List NodeName)
    → visit_nodes ss names ≡ emplace_all (readable name_of ss) names
unfolding visit_nodes readable emplace_all
visit_nodes-eq [] names = refl
visit_nodes-eq (s ∷ ss) names = elim (Option-cases (name_of s)) [
  | inl unread ↦ rw unread (visit_nodes-eq ss names)
  | inr (n, r) ↦ rw r (visit_nodes-eq ss (emplace n names))
]

collected_same :
    (nodes nodes' : Listing NodeState)
    → nodes.is_complete ≡ nodes'.is_complete
    → ((t : NodeState) → IsIn t nodes.entries ↔ IsIn t nodes'.entries)
    → collect_node_names nodes [] ≡ collect_node_names nodes' []
unfolding collect_node_names
collected_same nodes nodes' complete same =
    ap₂ (λ b names. guard b RetCode.error names) complete
      (visit_nodes-eq nodes.entries []
        ∙ (collected_eq name_of nodes.entries nodes'.entries same
            ∙ sym (visit_nodes-eq nodes'.entries [])))

module _ {port : RcutilsPort} (d : Documented port) where
  open port use {World}

  module _ (C : RetCode → Type 0) (refused : Refusals port C) (nodes : Listing NodeState)
      (node : NodeHandle) (has_names has_namespaces : Bool) (s : NodeNames port) where
    -- What follows the checks.
    completed :
        (b : Bool)
        → (b ≡ false → C RetCode.error)
        → Ends C (Reports (node_set nodes.entries)) (
            (do
              lift (init_code port (guard b RetCode.error (visit_nodes nodes.entries [])).0)
              on_names port (
                  init_string_array port
                    (length (guard b RetCode.error (visit_nodes nodes.entries [])).1))
              on_namespaces port (
                  init_string_array port
                    (length (guard b RetCode.error (visit_nodes nodes.entries [])).1))
              fill_node_names port 0 (guard b RetCode.error (visit_nodes nodes.entries [])).1)
              s)
    completed true f =
        rw (visit_nodes-eq nodes.entries [])
          (init_and_fill-Ends d C refused (node_set nodes.entries) s)
    completed false f = f refl

    -- Each check either passes or its code is allowed.
    get_node_names-Ends :
        (is_own node.implementation_identifier ≡ false → C RetCode.incorrect_rmw_implementation)
        → ((has_names
                && is_zero_array s.node_names
                && has_namespaces
                && is_zero_array s.node_namespaces)
              ≡ false
            → C RetCode.invalid_argument)
        → (nodes.is_complete ≡ false → C RetCode.error)
        → Ends C
            (Reports (node_set nodes.entries))
            (rmw_get_node_names port nodes (some node) has_names has_namespaces s)
    unfolding rmw_get_node_names collect_node_names
    get_node_names-Ends foreign invalid incomplete =
        guarded-Ends C _ (is_own node.implementation_identifier) _ _ s foreign λ own.
          guarded-Ends C _ has_names _ _ s (λ e. invalid (ground (arith, e)))
            λ e0.
              guarded-Ends C _ (is_zero_array s.node_names) _ _ s (λ e. invalid (ground (arith, e)))
                λ e1.
                  guarded-Ends C _ has_namespaces _ _ s (λ e. invalid (ground (arith, e)))
                    λ e2.
                      guarded-Ends C _ (is_zero_array s.node_namespaces) _ _ s
                        (λ e. invalid (ground (arith, e)))
                        λ e3. completed nodes.is_complete incomplete

  module _ (nodes : Listing NodeState) (rmw_node : Option NodeHandle)
      (has_names has_namespaces : Bool) (s : NodeNames port) where
    Ends-anyhow :
        Ends
          (λ c. Unit)
          (Reports (node_set nodes.entries))
          (rmw_get_node_names port nodes rmw_node has_names has_namespaces s)
    unfolding rmw_get_node_names
    Ends-anyhow = split rmw_node
      where
        split :
            (rmw_node : Option NodeHandle)
            → Ends
                (λ c. Unit)
                (Reports (node_set nodes.entries))
                (rmw_get_node_names port nodes rmw_node has_names has_namespaces s)
        split none = tt
        split (some node) =
            get_node_names-Ends (λ c. Unit) (any_code port) nodes node has_names has_namespaces s
              (λ e. tt) (λ e. tt) (λ e. tt)

    -- With an rcutils that does as documented, a rmw_get_node_names that returns RMW_RET_OK gives
    -- the names and the namespaces of a list of nodes, at the same index: each node that is listed
    -- alive under a name of this implementation, none twice, and no other, in ascending order.
    pub rmw_get_node_names-Reports :
        (rmw_get_node_names port nodes rmw_node has_names has_namespaces s).0 ≡ ok tt
        → (ns : List NodeName) × IsAscending ns
          × ((n : NodeName) → IsIn n ns ↔ Lists name_of nodes.entries n)
          × Reports ns (rmw_get_node_names port nodes rmw_node has_names has_namespaces s).1
    rmw_get_node_names-Reports e = (
      node_set nodes.entries,
      emplace_all-IsAscending (readable name_of nodes.entries) [] tt,
      collected_iff name_of nodes.entries,
      Ends-ok (λ c. Unit) (Reports (node_set nodes.entries)) _ Ends-anyhow e,
    )

    -- With an rcutils that does as documented, no call of rmw_get_node_names writes outside the
    -- arrays that it initialized.
    pub rmw_get_node_names-defined :
        (rmw_get_node_names port nodes rmw_node has_names has_namespaces s).0
        ≢ err undefined_behaviour
    rmw_get_node_names-defined e = Ends-defined (λ c. Unit) _ _ Ends-anyhow e

  -- With an rcutils that does as documented and refuses nothing, rmw_get_node_names returns
  -- RMW_RET_OK for a handle of this implementation, arrays that are zero initialized and a listing
  -- that is complete.
  pub rmw_get_node_names_returns :
      (nodes : Listing NodeState) (node : NodeHandle) (s : NodeNames port)
      → NeverRefuses port
      → is_own node.implementation_identifier ≡ true
      → is_zero_array s.node_names ≡ true
      → is_zero_array s.node_namespaces ≡ true
      → nodes.is_complete ≡ true
      → (rmw_get_node_names port nodes (some node) true true s).0 ≡ ok tt
  rmw_get_node_names_returns nodes node s granted own zero_names zero_namespaces complete =
      Ends-returns _ _ (
        get_node_names-Ends (λ c. ⊥) granted nodes node true true s (λ e. cc)
          (λ e. absurd (ground (arith, e, zero_names, zero_namespaces))) (λ e. cc))

-- The order in which iceoryx2 lists the nodes, and how often it lists one, makes no difference to
-- rmw_get_node_names.
pub rmw_get_node_names_order :
    {port : RcutilsPort} (nodes nodes' : Listing NodeState) (rmw_node : Option NodeHandle)
    (has_names has_namespaces : Bool) (s : NodeNames port)
    → nodes.is_complete ≡ nodes'.is_complete
    → ((t : NodeState) → IsIn t nodes.entries ↔ IsIn t nodes'.entries)
    → rmw_get_node_names port nodes rmw_node has_names has_namespaces s
      ≡ rmw_get_node_names port nodes' rmw_node has_names has_namespaces s
unfolding rmw_get_node_names
rmw_get_node_names_order nodes nodes' rmw_node has_names has_namespaces s complete same =
    rw (collected_same nodes nodes' complete same)

get_elem?-copies :
    {A : Type 0} (f : A → List ℕ) (xs : List A) (i : ℕ) (x : A)
    → get_elem? xs i ≡ some x
    → get_elem? (copies f xs) i ≡ some (some (f x))
get_elem?-copies f [] i x e = absurd (cc)
get_elem?-copies f (y ∷ xs) zero x e = let same : y ≡ x = ground (arith, e) in rw same refl
get_elem?-copies f (y ∷ xs) (suc i) x e = get_elem?-copies f xs i x e

-- With an rcutils that does as documented, a node with the name that names::node writes, listed as
-- alive, is reported by a rmw_get_node_names that returns RMW_RET_OK: its name and its namespace
-- stand at one index, whatever the context, if the name is not empty and has no slash; a null
-- namespace as an empty one.
pub rmw_get_node_names-node :
    {port : RcutilsPort} (d : Documented port) (nodes : Listing NodeState)
    (rmw_node : Option NodeHandle) (has_names has_namespaces : Bool) (s : NodeNames port)
    (context_id c k : ℕ) (cs : List ℕ) (ns : Option (List ℕ))
    → HasNoSlash (c ∷ cs)
    → get_elem? nodes.entries k ≡ some (alive (some (node context_id (c ∷ cs) ns)))
    → (rmw_get_node_names port nodes rmw_node has_names has_namespaces s).0 ≡ ok tt
    → (i : ℕ) × (get_elem?
          (elements
            (rmw_get_node_names port nodes rmw_node has_names has_namespaces s).1.node_names)
          i
        ≡ some (some (c ∷ cs)))
      × (get_elem?
            (elements
              (rmw_get_node_names port nodes rmw_node has_names has_namespaces s).1.node_namespaces)
            i
          ≡ some (some (text_of ns)))
rmw_get_node_names-node d nodes rmw_node has_names has_namespaces s context_id c k cs ns plain
      listed e =
    let (all, ascending, exact, reported) =
      rmw_get_node_names-Reports d nodes rmw_node has_names has_namespaces s e in
    let (i, at_i) = (exact (record { namespace = text_of ns; name = c ∷ cs })).1 (
      k,
      alive (some (node context_id (c ∷ cs) ns)),
      listed,
      parse_name-node context_id c cs ns plain,
    ) in
    (
      i,
      rw (reported.0) (get_elem?-copies (λ n. n.name) all i _ at_i),
      rw (reported.1) (get_elem?-copies (λ n. n.namespace) all i _ at_i),
    )
