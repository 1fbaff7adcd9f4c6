-- ===== src/Rmw/Graph.antt =====
-- src/rmw/graph.cpp: rmw_get_node_names, and the sets that it and rmw_get_topic_names_and_types
-- collect from what iceoryx2 lists. rcutils and rmw are a parameter; `undefined_behaviour` stands
-- for an access that C++ leaves undefined.
pub mod Arrays
pub mod Nodes
pub mod Collections
pub mod NodeReports
pub mod TopicNames
pub mod TopicSteps
pub mod Topics
pub mod TopicReports
pub mod TopicOutcomes
use mathlib.Core.Option
use mathlib.Core.Option.{Option}
use rmw_iceoryx.Errors.{RetCode}
use rmw_iceoryx.Names.{NodeName, parse_name, parse_topic_name}
use rmw_iceoryx.Names.Order.{TopicDetails, node_order, topic_order}
use rmw_iceoryx.OrderedSet.{emplace}
use rmw_iceoryx.Rmw.Ensure.{is_own}
use rmw_iceoryx.Rmw.Handles.{NodeHandle}
use rmw_iceoryx.Common.{
  Bool, Exec, Expected, List, [], err, if◌then◌else◌, is_none, length, none, ok, or_raise, pure,
  guard, some, suc, true, zero, ℕ, ◌&&◌, ◌==◌, ◌>>=◌, ◌>>◌, ◌∷◌, lift, false, or_code, map,
}

pub data Stop : Type 0 where
  code : RetCode → Stop
  undefined_behaviour : Stop

-- `rcutils_string_array_t`: `texts` is `data`, with null for a text that is not set.
pub record StringArray : Type 0 where
  pub size : ℕ
  pub texts : Option (List (Option (List ℕ)))
  pub has_zero_allocator : Bool

-- RMW_IOX2_ENSURE_ZERO_STRING_ARRAY
abbrev pub is_zero_array : StringArray → Bool
is_zero_array a = a.size == 0 && is_none a.texts && a.has_zero_allocator

abbrev pub rcutils_get_zero_initialized_string_array : StringArray
rcutils_get_zero_initialized_string_array = record {
  size = 0;
  texts = none;
  has_zero_allocator = true;
}

-- `rmw_names_and_types_t`: `types` points to an array of arrays.
pub record NamesAndTypes : Type 0 where
  pub names : StringArray
  pub types : Option (List StringArray)

-- A failure of `string_array_init` comes with the code that rmw converts it to. The comparison
-- answers whether the arrays are equal, or nothing if it fails.
pub record RcutilsPort : Type 1 where
  pub World : Type 0
  pub string_array_init :
      StringArray → ℕ → World → Expected RetCode (Unit {0}) × StringArray × World
  pub names_and_types_init :
      NamesAndTypes → ℕ → World → Expected RetCode (Unit {0}) × NamesAndTypes × World
  pub strdup : List ℕ → World → Option (List ℕ) × World
  pub string_array_cmp : Option StringArray → StringArray → Option Bool

-- What iceoryx2 calls the callback with, and whether it lists to the end.
pub record Listing (A : Type 0) : Type 0 where
  pub entries : List A
  pub is_complete : Bool

-- A node that is alive may have details, here its name.
pub data NodeState : Type 0 where
  alive : Option (List ℕ) → NodeState
  not_alive : NodeState

pub data MessagingPattern : Type 0 where
  publish_subscribe event : MessagingPattern

pub record StaticConfig : Type 0 where
  pub name : List ℕ
  pub messaging_pattern : MessagingPattern

abbrev emplace_node : Option NodeName → List NodeName → List NodeName
emplace_node none names = names
emplace_node (some n) names = emplace n names

abbrev pub name_of : NodeState → Option NodeName
name_of (alive (some name)) = parse_name name
name_of (alive none) = none
name_of not_alive = none

unfoldable pub visit_nodes : List NodeState → List NodeName → List NodeName
visit_nodes [] names = names
visit_nodes (s ∷ ss) names = visit_nodes ss (emplace_node (name_of s) names)

unfoldable pub collect_node_names : Listing NodeState → Exec (List NodeName) RetCode (Unit {0})
collect_node_names nodes names =
    guard nodes.is_complete RetCode.error (visit_nodes nodes.entries names)

-- `*topic` of an empty optional is undefined.
abbrev pub emplace_topic : Option (List ℕ) → Exec (List TopicDetails) Stop (Unit {0})
emplace_topic none topics = (err undefined_behaviour, topics)
emplace_topic (some topic) topics = (ok tt, emplace (record { name = topic; type = [] }) topics)

abbrev pub visit_service :
    (StaticConfig → Bool) → StaticConfig → Exec (List TopicDetails) Stop (Unit {0})
visit_service predicate s = if predicate s then emplace_topic (parse_topic_name s.name) else pure tt

unfoldable pub visit_services :
    (StaticConfig → Bool) → List StaticConfig → Exec (List TopicDetails) Stop (Unit {0})
visit_services predicate [] topics = (ok tt, topics)
visit_services predicate (s ∷ ss) topics =
    (do visit_service predicate s; visit_services predicate ss) topics

unfoldable pub collect_topic_names_and_types :
    (StaticConfig → Bool) → Listing StaticConfig → Exec (List TopicDetails) Stop (Unit {0})
collect_topic_names_and_types predicate services = do
  visit_services predicate services.entries
  guard services.is_complete (code RetCode.error)

-- `data[i] = text`
abbrev pub set? {ℓ} : {A : Type ℓ} → List A → ℕ → A → Option (List A)
set? [] i a = none
set? (x ∷ xs) zero a = some (a ∷ xs)
set? (x ∷ xs) (suc i) a = Option.map (◌∷◌ x) (set? xs i a)

abbrev pub set_texts :
    Option (List (Option (List ℕ))) → ℕ → Option (List ℕ) → Option (List (Option (List ℕ)))
set_texts none i text = none
set_texts (some texts) i text = set? texts i text

abbrev pub put_texts : StringArray → Option (List (Option (List ℕ))) → Option StringArray
put_texts a none = none
put_texts a (some texts) = some (record a { texts = some texts })

abbrev pub put : ℕ → Option (List ℕ) → StringArray → Option StringArray
put i text a = put_texts a (set_texts a.texts i text)

abbrev pub ensure : {S : Type 0} → (S → Bool) → RetCode → Exec S Stop (Unit {0})
ensure test c s = guard (test s) (code c) s

module _ (port : RcutilsPort) where
  open port use {World}

  abbrev pub written :
      Option (List ℕ)
      → Option StringArray
      → StringArray × World
      → Expected Stop (Unit {0}) × (StringArray × World)
  written text none (a, w) = (err undefined_behaviour, (a, w))
  written none (some a') (a, w) = (err (code RetCode.bad_alloc), (a', w))
  written (some t) (some a') (a, w) = (ok tt, (a', w))

  -- A copy is written, and then checked for null.
  unfoldable pub copy_into : ℕ → List ℕ → Exec (StringArray × World) Stop (Unit {0})
  copy_into i text (a, w) =
      written (port.strdup text w).0 (put i (port.strdup text w).0 a) (a, (port.strdup text w).1)

  abbrev pub init_code : Expected RetCode (Unit {0}) → Expected Stop (Unit {0})
  init_code (ok u) = ok u
  init_code (err c) = err (code c)

  unfoldable pub init_string_array : ℕ → Exec (StringArray × World) Stop (Unit {0})
  init_string_array size (a, w) =
      let r = port.string_array_init a size w in (init_code r.0, (r.1, r.2))

  pub record NodeNames : Type 0 where
    pub node_names : StringArray
    pub node_namespaces : StringArray
    pub world : World

  abbrev pub on_names : Exec (StringArray × World) Stop (Unit {0}) → Exec NodeNames Stop (Unit {0})
  on_names m s =
      let r = m (s.node_names, s.world) in (r.0, record s { node_names = r.1.0; world = r.1.1 })

  abbrev pub on_namespaces :
      Exec (StringArray × World) Stop (Unit {0}) → Exec NodeNames Stop (Unit {0})
  on_namespaces m s =
      let r = m (s.node_namespaces, s.world) in
      (r.0, record s { node_namespaces = r.1.0; world = r.1.1 })

  unfoldable pub fill_node_names : ℕ → List NodeName → Exec NodeNames Stop (Unit {0})
  fill_node_names i [] s = (ok tt, s)
  fill_node_names i (n ∷ ns) s =
      (do
        on_names (copy_into i n.name)
        on_namespaces (copy_into i n.namespace)
        fill_node_names (suc i) ns)
        s

  -- The arrays of the caller are the state; a flag says whether the pointer to one is not null.
  unfoldable pub rmw_get_node_names :
      Listing NodeState → Option NodeHandle → Bool → Bool → Exec NodeNames Stop (Unit {0})
  rmw_get_node_names nodes rmw_node has_names has_namespaces = do
    node ← or_raise rmw_node (code RetCode.invalid_argument)
    guard (is_own node.implementation_identifier) (code RetCode.incorrect_rmw_implementation)
    guard has_names (code RetCode.invalid_argument)
    ensure (λ s. is_zero_array s.node_names) RetCode.invalid_argument
    guard has_namespaces (code RetCode.invalid_argument)
    ensure (λ s. is_zero_array s.node_namespaces) RetCode.invalid_argument
    let collected = collect_node_names nodes []
    lift (init_code collected.0)
    on_names (init_string_array (length collected.1))
    on_namespaces (init_string_array (length collected.1))
    fill_node_names 0 collected.1
