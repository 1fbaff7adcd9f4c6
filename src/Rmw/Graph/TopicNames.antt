-- ===== src/Rmw/Graph/TopicNames.antt =====
-- rmw_get_topic_names_and_types of src/rmw/graph.cpp.
use rmw_iceoryx.Common.{
  Bool, Expected, List, Option, [], err, false, length, lift, none, ok, or_code, or_raise, some,
  suc, true, ℕ, ◌>>=◌, ◌>>◌, ◌∷◌, Exec, guard, raise,
}
use mathlib.Core.Option
use rmw_iceoryx.Rmw.Graph.{
  publish_subscribe, event, RcutilsPort, NamesAndTypes, init_string_array, Listing, StaticConfig,
  Stop, StringArray, TopicDetails, NodeHandle, code, copy_into, init_code, undefined_behaviour,
  RetCode, is_own, ensure, collect_topic_names_and_types, rcutils_get_zero_initialized_string_array,
}

abbrev pub is_publish_subscribe : StaticConfig → Bool
is_publish_subscribe s = elim (s.messaging_pattern) [ publish_subscribe ↦ true | event ↦ false ]

-- "UNKNOWN"
abbrev pub unknown : List ℕ
unknown = 85 ∷ 78 ∷ 75 ∷ 78 ∷ 79 ∷ 87 ∷ 78 ∷ []

module _ (port : RcutilsPort) where
  open port use {World}

  pub record TopicNames : Type 0 where
    pub names_and_types : NamesAndTypes
    pub world : World

  abbrev pub init_names_and_types : ℕ → Exec TopicNames Stop (Unit {0})
  init_names_and_types size s =
      let r = port.names_and_types_init s.names_and_types size s.world in
      (init_code port r.0, record { names_and_types = r.1; world = r.2 })

  -- The array of names, and the first array of types.
  abbrev pub on_topic_names :
      Exec (StringArray × World) Stop (Unit {0}) → Exec TopicNames Stop (Unit {0})
  on_topic_names m s =
      let r = m (s.names_and_types.names, s.world) in
      (
        r.0,
        record { names_and_types = record (s.names_and_types) { names = r.1.0 }; world = r.1.1 },
      )

  abbrev pub on_head :
      Exec (StringArray × World) Stop (Unit {0})
      → Option (List StringArray)
      → Exec TopicNames Stop (Unit {0})
  on_head m (some (a ∷ as')) s =
      let r = m (a, s.world) in
      (
        r.0,
        record {
          names_and_types = record (s.names_and_types) { types = some (r.1.0 ∷ as') };
          world = r.1.1;
        },
      )
  on_head m (some []) s = (err undefined_behaviour, s)
  on_head m none s = (err undefined_behaviour, s)

  abbrev pub on_types : Exec (StringArray × World) Stop (Unit {0}) → Exec TopicNames Stop (Unit {0})
  on_types m s = on_head m s.names_and_types.types s

  -- rcutils refuses a null array.
  abbrev pub on_array :
      Exec TopicNames Stop (Unit {0}) → Option (List StringArray) → Exec TopicNames Stop (Unit {0})
  on_array m none s = (err (code RetCode.bad_alloc), s)
  on_array m (some as') s = m s

  -- Whatever the code, a failure is reported as RMW_RET_BAD_ALLOC.
  abbrev pub bad_alloc_of :
      Exec (StringArray × World) Stop (Unit {0}) → Exec (StringArray × World) Stop (Unit {0})
  bad_alloc_of m = or_code m (code RetCode.bad_alloc)

  abbrev pub init_types : ℕ → Exec TopicNames Stop (Unit {0})
  init_types size s =
      on_array (on_types (bad_alloc_of (init_string_array port size))) s.names_and_types.types s

  unfoldable pub fill_topic_names : ℕ → List TopicDetails → Exec TopicNames Stop (Unit {0})
  fill_topic_names i [] s = (ok tt, s)
  fill_topic_names i (t ∷ ts) s =
      (do
        on_topic_names (copy_into port i t.name)
        on_types (copy_into port i unknown)
        fill_topic_names (suc i) ts)
        s

  abbrev pub is_equal_zero : Option StringArray → Bool
  is_equal_zero a =
      Option.get_or (port.string_array_cmp a rcutils_get_zero_initialized_string_array) false

  -- The comparison reads the first array of types, which is undefined if there is none.
  abbrev pub ensure_zero_types : Option (List StringArray) → Exec TopicNames Stop (Unit {0})
  ensure_zero_types none = guard (is_equal_zero none) (code RetCode.invalid_argument)
  ensure_zero_types (some []) = raise undefined_behaviour
  ensure_zero_types (some (a ∷ as')) =
      guard (is_equal_zero (some a)) (code RetCode.invalid_argument)

  abbrev pub report_topics : List TopicDetails → Exec TopicNames Stop (Unit {0})
  report_topics topics = do
    init_names_and_types (length topics)
    init_types (length topics)
    fill_topic_names 0 topics

  abbrev pub report_collected :
      Expected Stop (Unit {0}) × List TopicDetails → Exec TopicNames Stop (Unit {0})
  report_collected r = do lift r.0; report_topics r.1

  unfoldable pub rmw_get_topic_names_and_types :
      Listing StaticConfig → Option NodeHandle → Bool → Bool → Exec TopicNames Stop (Unit {0})
  rmw_get_topic_names_and_types services rmw_node has_valid_allocator has_output = do
    node ← or_raise rmw_node (code RetCode.invalid_argument)
    guard has_output (code RetCode.invalid_argument)
    guard (is_own node.implementation_identifier) (code RetCode.incorrect_rmw_implementation)
    guard has_valid_allocator (code RetCode.invalid_argument)
    ensure (λ s. is_equal_zero (some s.names_and_types.names)) RetCode.invalid_argument
    λ s. ensure_zero_types s.names_and_types.types s
    report_collected (collect_topic_names_and_types is_publish_subscribe services [])
