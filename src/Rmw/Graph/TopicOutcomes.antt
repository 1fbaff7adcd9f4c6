-- ===== src/Rmw/Graph/TopicOutcomes.antt =====
-- How rmw_get_topic_names_and_types ends: where it returns, where it is undefined, and where it
-- refuses.
use rmw_iceoryx.Common.{
  Bool, Expected, List, Option, [], ap, arith, continue, err, false, get_elem?, guard, ok, refl,
  some, sym, true, ℕ, ◌↔◌, ◌∙◌, ◌∷◌, ◌≡◌, none,
}
use rmw_iceoryx.Names.Order.{topic_order, TopicDetails}
use rmw_iceoryx.OrderedSet.Laws.{IsIn}
use rmw_iceoryx.Rmw.Graph.{
  undefined_behaviour, Stop, code, RcutilsPort, collect_topic_names_and_types, Listing, NodeHandle,
  StaticConfig, RetCode, is_own, visit_services, StringArray,
}
use rmw_iceoryx.Rmw.Graph.TopicNames.{
  report_collected, is_publish_subscribe, rmw_get_topic_names_and_types, TopicNames, report_topics,
  is_equal_zero, ensure_zero_types,
}
use rmw_iceoryx.Rmw.Graph.Arrays.{Documented, NeverRefuses, Ends-returns}
use rmw_iceoryx.Rmw.Graph.Topics.{report_topics-Ends, report_no_topics}
use rmw_iceoryx.Rmw.Graph.Collections.{Lists, collected_iff, collected_eq}
use rmw_iceoryx.Rmw.Graph.TopicReports.{
  topic_of, topic_set, IsForeign, visit_services-eq, visit_services-foreign, visit_services-defined,
}

-- The first array of types compares equal to a zero-initialized one.
abbrev pub HasZeroTypes : RcutilsPort → Option (List StringArray) → Type 0
HasZeroTypes port none = is_equal_zero port none ≡ true
HasZeroTypes port (some []) = ⊥
HasZeroTypes port (some (a ∷ as')) = is_equal_zero port (some a) ≡ true

zero_types-ok :
    {port : RcutilsPort} (types : Option (List StringArray)) (s : TopicNames port)
    → HasZeroTypes port types
    → ensure_zero_types port types s ≡ (ok tt, s)
zero_types-ok none s h = rw h refl
zero_types-ok (some []) s h = absurd h
zero_types-ok (some (a ∷ as')) s h = rw h refl

-- A call whose arguments pass the checks.
pub record IsAccepted (port : RcutilsPort) (node : NodeHandle) (s : TopicNames port) : Type 0 where
  pub own : is_own node.implementation_identifier ≡ true
  pub zero_names : is_equal_zero port (some s.names_and_types.names) ≡ true
  pub zero_types : HasZeroTypes port s.names_and_types.types

accepted :
    {port : RcutilsPort} (services : Listing StaticConfig) (node : NodeHandle) (s : TopicNames port)
    → IsAccepted port node s
    → rmw_get_topic_names_and_types port services (some node) true true s
      ≡ report_collected port (collect_topic_names_and_types is_publish_subscribe services []) s
unfolding rmw_get_topic_names_and_types
accepted services node s a =
    rw (a.own, a.zero_names, zero_types-ok s.names_and_types.types s a.zero_types) refl

-- A listed service that publishes and subscribes under a name that is not that of a topic makes
-- rmw_get_topic_names_and_types undefined, if it is called with a node of this implementation, a
-- valid allocator and a result that compares equal to a zero-initialized one.
pub rmw_get_topic_names_and_types-foreign :
    {port : RcutilsPort} (services : Listing StaticConfig) (node : NodeHandle) (s : TopicNames port)
    (i : ℕ) (c : StaticConfig)
    → IsAccepted port node s
    → get_elem? services.entries i ≡ some c
    → IsForeign c
    → (rmw_get_topic_names_and_types port services (some node) true true s).0
      ≡ err undefined_behaviour
unfolding collect_topic_names_and_types
rmw_get_topic_names_and_types-foreign {port} services node s i c a e foreign =
    rw (accepted services node s a) (
      split (visit_services is_publish_subscribe services.entries [])
        (visit_services-foreign services.entries [] i c e foreign))
  where
    split :
        (r : Expected Stop (Unit {0}) × List TopicDetails)
        → r.0 ≡ err undefined_behaviour
        → (report_collected port
            (continue r (λ _. guard services.is_complete (code RetCode.error)))
            s).0
          ≡ err undefined_behaviour
    split (ok u, ts) e = absurd (cc)
    split (err f, ts) e = e

-- Without a foreign service the topics of a complete listing are collected.
collected-ok :
    (services : Listing StaticConfig)
    → services.is_complete ≡ true
    → ((i : ℕ) (c : StaticConfig) → get_elem? services.entries i ≡ some c → ¬ IsForeign c)
    → collect_topic_names_and_types is_publish_subscribe services []
      ≡ (ok tt, topic_set services.entries)
unfolding collect_topic_names_and_types
collected-ok services complete own =
    rw (visit_services-eq services.entries [] (visit_services-defined services.entries [] own))
      (rw complete refl)

module _ {port : RcutilsPort} (d : Documented port) (services : Listing StaticConfig)
    (node : NodeHandle) (s : TopicNames port) (a : IsAccepted port node s)
    (complete : services.is_complete ≡ true)
    (own : (i : ℕ) (c : StaticConfig) → get_elem? services.entries i ≡ some c → ¬ IsForeign c) where
  -- With an rcutils that does as documented and refuses nothing, rmw_get_topic_names_and_types,
  -- called with a node of this implementation, a valid allocator and a result that compares equal
  -- to a zero-initialized one, returns RMW_RET_OK if the listing is complete and holds a topic, and
  -- each service that publishes and subscribes in it is a topic.
  pub rmw_get_topic_names_and_types_returns :
      (t : TopicDetails)
      → NeverRefuses port
      → Lists topic_of services.entries t
      → (rmw_get_topic_names_and_types port services (some node) true true s).0 ≡ ok tt
  rmw_get_topic_names_and_types_returns t granted listed = rw (accepted services node s a) (
      rw (collected-ok services complete own)
        (split (topic_set services.entries) ((collected_iff topic_of services.entries t).1 listed)))
    where
      split : (ts : List TopicDetails) → IsIn t ts → (report_topics port ts s).0 ≡ ok tt
      split [] (i, e) = absurd (cc)
      split (u ∷ us) h = Ends-returns _ _ (report_topics-Ends d (λ c. ⊥) u us s granted)

  -- With an rcutils that does as documented, if the listing is complete and no service in it
  -- publishes and subscribes, rmw_get_topic_names_and_types, called with a node of this
  -- implementation, a valid allocator and a result that compares equal to a zero-initialized one,
  -- is undefined once its arrays are initialized.
  pub rmw_get_topic_names_and_types_empty :
      ((i : ℕ) (c : StaticConfig)
        → get_elem? services.entries i ≡ some c
        → is_publish_subscribe c ≡ false)
      → (port.names_and_types_init s.names_and_types 0 s.world).0 ≡ ok tt
      → (rmw_get_topic_names_and_types port services (some node) true true s).0
        ≡ err undefined_behaviour
  rmw_get_topic_names_and_types_empty none_listed given = rw (accepted services node s a) (
      rw (collected-ok services complete own) (
        split (topic_set services.entries)
          (λ t h. (collected_iff topic_of services.entries t).0 h)))
    where
      split :
          (ts : List TopicDetails)
          → ((t : TopicDetails) → IsIn t ts → Lists topic_of services.entries t)
          → (report_topics port ts s).0 ≡ err undefined_behaviour
      split [] h = report_no_topics d s given
      split (t ∷ ts) h =
          let (i, c, e, f) = h t (0, refl) in absurd (ground (arith, f, none_listed i c e))

-- The order in which iceoryx2 lists the services, and how often it lists one, makes no difference,
-- if each that publishes and subscribes is a topic.
pub rmw_get_topic_names_and_types_order :
    {port : RcutilsPort} (services services' : Listing StaticConfig) (rmw_node : Option NodeHandle)
    (has_valid_allocator has_output : Bool) (s : TopicNames port)
    → services.is_complete ≡ true
    → services'.is_complete ≡ true
    → ((c : StaticConfig) → IsIn c services.entries ↔ IsIn c services'.entries)
    → ((i : ℕ) (c : StaticConfig) → get_elem? services.entries i ≡ some c → ¬ IsForeign c)
    → rmw_get_topic_names_and_types port services rmw_node has_valid_allocator has_output s
      ≡ rmw_get_topic_names_and_types port services' rmw_node has_valid_allocator has_output s
unfolding rmw_get_topic_names_and_types
rmw_get_topic_names_and_types_order services services' rmw_node has_valid_allocator has_output s
      complete complete' same own =
    let own' : (i : ℕ) (c : StaticConfig) → get_elem? services'.entries i ≡ some c → ¬ IsForeign c =
      λ i c e. let (k, e') = (same c).1 (i, e) in own k c e' in
    let collected : collect_topic_names_and_types is_publish_subscribe services []
        ≡ collect_topic_names_and_types is_publish_subscribe services' [] =
      collected-ok services complete own
      ∙ (ap (λ ts. (ok tt, ts)) (collected_eq topic_of services.entries services'.entries same)
          ∙ sym (collected-ok services' complete' own')) in
    rw collected
