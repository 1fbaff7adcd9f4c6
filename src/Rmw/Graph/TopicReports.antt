-- ===== src/Rmw/Graph/TopicReports.antt =====
-- rmw_get_topic_names_and_types as a whole: what it reports, and where it is undefined.
use rmw_iceoryx.Rmw.Graph.TopicSteps.{ReportsTopics}
use rmw_iceoryx.OrderedSet.Laws.{IsAscending, IsIn, emplace_all-IsAscending}
use rmw_iceoryx.Rmw.Graph.Topics.{report_no_topics_fails, report_topics-Ends}
use rmw_iceoryx.Rmw.Graph.Arrays.{Documented, Ends-ok, any_code}
use rmw_iceoryx.Common.{
  List, Option, [], err, get_elem?, if◌then◌else◌, none, ok, refl, some, suc, true, zero, ℕ, ◌∷◌,
  ◌≡◌, Bool, Exec, arith, false, pure, ◌>>◌, Expected, continue, guard, ap, sym, ◌↔◌, subst,
}
use rmw_iceoryx.Names.{parse_topic_name}
use rmw_iceoryx.Names.Order.{topic_order, TopicDetails}
use rmw_iceoryx.OrderedSet.{emplace, emplace_all}
use rmw_iceoryx.Rmw.Graph.{
  emplace_topic, StaticConfig, visit_services, undefined_behaviour, Stop, RcutilsPort, NodeHandle,
  collect_topic_names_and_types, Listing, is_own, code, RetCode, StringArray,
}
use rmw_iceoryx.Rmw.Graph.TopicNames.{
  report_collected, ensure_zero_types, is_equal_zero, is_publish_subscribe, TopicNames,
  report_topics, rmw_get_topic_names_and_types,
}
use rmw_iceoryx.Rmw.Graph.Collections.{prepend, readable, Lists, collected_iff}

abbrev pub details : List ℕ → TopicDetails
details topic = record { name = topic; type = [] }

-- The topic of a service that publishes and subscribes, if its name is that of a topic.
abbrev pub read_topic : Bool → Option (List ℕ) → Option TopicDetails
read_topic true (some topic) = some (details topic)
read_topic true none = none
read_topic false topic = none

abbrev pub topic_of : StaticConfig → Option TopicDetails
topic_of s = read_topic (is_publish_subscribe s) (parse_topic_name s.name)

-- A service that publishes and subscribes under another name.
abbrev pub IsForeign : StaticConfig → Type 0
IsForeign s = (is_publish_subscribe s ≡ true) × (parse_topic_name s.name ≡ none)

abbrev pub topic_set : List StaticConfig → List TopicDetails
topic_set ss = emplace_all (readable topic_of ss) []

-- One step of the loop, from the test and the topic of the service.
abbrev visited :
    Bool → Option (List ℕ) → List StaticConfig → Exec (List TopicDetails) Stop (Unit {0})
visited b o ss = do if b then emplace_topic o else pure tt; visit_services is_publish_subscribe ss

visited-eq :
    (b : Bool) (o : Option (List ℕ)) (ss : List StaticConfig) (topics : List TopicDetails)
    → ((topics : List TopicDetails)
        → (visit_services is_publish_subscribe ss topics).0 ≡ ok tt
        → visit_services is_publish_subscribe ss topics
          ≡ (ok tt, emplace_all (readable topic_of ss) topics))
    → (visited b o ss topics).0 ≡ ok tt
    → visited b o ss topics
      ≡ (ok tt, emplace_all (prepend topic_of (read_topic b o) (readable topic_of ss)) topics)
unfolding emplace_all
visited-eq true none ss topics ih e = absurd (cc)
visited-eq true (some topic) ss topics ih e = ih (emplace (details topic) topics) e
visited-eq false o ss topics ih e = ih topics e

pub visit_services-eq :
    (ss : List StaticConfig) (topics : List TopicDetails)
    → (visit_services is_publish_subscribe ss topics).0 ≡ ok tt
    → visit_services is_publish_subscribe ss topics
      ≡ (ok tt, emplace_all (readable topic_of ss) topics)
unfolding visit_services readable emplace_all
visit_services-eq [] topics e = refl
visit_services-eq (s ∷ ss) topics e =
    visited-eq (is_publish_subscribe s) (parse_topic_name s.name) ss topics (visit_services-eq ss) e

visited-foreign :
    (b : Bool) (o : Option (List ℕ)) (ss : List StaticConfig) (topics : List TopicDetails)
    → ((topics : List TopicDetails)
        → (visit_services is_publish_subscribe ss topics).0 ≡ err undefined_behaviour)
    → (visited b o ss topics).0 ≡ err undefined_behaviour
visited-foreign true none ss topics ih = refl
visited-foreign true (some topic) ss topics ih = ih (emplace (details topic) topics)
visited-foreign false o ss topics ih = ih topics

pub visit_services-foreign :
    (ss : List StaticConfig) (topics : List TopicDetails) (i : ℕ) (s : StaticConfig)
    → get_elem? ss i ≡ some s
    → IsForeign s
    → (visit_services is_publish_subscribe ss topics).0 ≡ err undefined_behaviour
unfolding visit_services
visit_services-foreign [] topics i s e f = absurd (cc)
visit_services-foreign (t ∷ ss) topics zero s e f =
    let same : t ≡ s = ground (arith, e) in rw same (rw (f.0, f.1))
visit_services-foreign (t ∷ ss) topics (suc i) s e f =
    visited-foreign (is_publish_subscribe t) (parse_topic_name t.name) ss topics
      (λ topics. visit_services-foreign ss topics i s e f)

-- Without a foreign service the loop is defined throughout.
visited-defined :
    (b : Bool) (o : Option (List ℕ)) (ss : List StaticConfig) (topics : List TopicDetails)
    → ¬ ((b ≡ true) × (o ≡ none))
    → ((topics : List TopicDetails) → (visit_services is_publish_subscribe ss topics).0 ≡ ok tt)
    → (visited b o ss topics).0 ≡ ok tt
visited-defined true none ss topics own ih = absurd (own (refl, refl))
visited-defined true (some topic) ss topics own ih = ih (emplace (details topic) topics)
visited-defined false o ss topics own ih = ih topics

pub visit_services-defined :
    (ss : List StaticConfig) (topics : List TopicDetails)
    → ((i : ℕ) (s : StaticConfig) → get_elem? ss i ≡ some s → ¬ IsForeign s)
    → (visit_services is_publish_subscribe ss topics).0 ≡ ok tt
unfolding visit_services
visit_services-defined [] topics own = refl
visit_services-defined (s ∷ ss) topics own =
    visited-defined (is_publish_subscribe s) (parse_topic_name s.name) ss topics (own 0 s refl)
      (λ topics. visit_services-defined ss topics (λ i t. own (suc i) t))

-- What holds of the state if the call returns RMW_RET_OK.
abbrev IfOk : {S : Type 0} → (S → Type 0) → Expected Stop (Unit {0}) × S → Type 0
IfOk Q r = r.0 ≡ ok tt → Q r.1

guarded-IfOk :
    {S : Type 0} (Q : S → Type 0) (b : Bool) (c : Stop) (f : Unit {0} → Exec S Stop (Unit {0}))
    (s : S)
    → IfOk Q (f tt s)
    → IfOk Q (continue (guard b c s) f)
guarded-IfOk Q true c f s rest = rest
guarded-IfOk Q false c f s rest = λ e. absurd (cc)

module _ {port : RcutilsPort} (d : Documented port) where
  open port use {World}

  topics-IfOk :
      (ts : List TopicDetails) (s : TopicNames port)
      → IfOk (ReportsTopics ts) (report_topics port ts s)
  topics-IfOk [] s = λ e. absurd (report_no_topics_fails d s e)
  topics-IfOk (t ∷ ts) s =
      Ends-ok (λ c. Unit) (ReportsTopics (t ∷ ts)) _
        (report_topics-Ends d (λ c. Unit) t ts s (any_code port))

  collected-IfOk :
      (services : Listing StaticConfig) (s : TopicNames port)
      → IfOk
          (ReportsTopics (topic_set services.entries))
          (report_collected port (collect_topic_names_and_types is_publish_subscribe services []) s)
  unfolding collect_topic_names_and_types
  collected-IfOk services s =
      split (visit_services is_publish_subscribe services.entries []) services.is_complete
        (visit_services-eq services.entries [])
    where
      split :
          (r : Expected Stop (Unit {0}) × List TopicDetails) (complete : Bool)
          → (r.0 ≡ ok tt → r ≡ (ok tt, topic_set services.entries))
          → IfOk
              (ReportsTopics (topic_set services.entries))
              (report_collected port (continue r (λ _. guard complete (code RetCode.error))) s)
      split (err e, ts) complete same = λ e. absurd (cc)
      split (ok u, ts) false same = λ e. absurd (cc)
      split (ok u, ts) true same =
          subst (λ ts. IfOk (ReportsTopics (topic_set services.entries)) (report_topics port ts s))
            (sym (ap (λ r. r.1) (same refl))) (topics-IfOk (topic_set services.entries) s)

  zero_types-IfOk :
      (goal : TopicNames port → Type 0) (types : Option (List StringArray))
      (m : Exec (TopicNames port) Stop (Unit {0})) (s : TopicNames port)
      → IfOk goal (m s)
      → IfOk goal ((ensure_zero_types port types >> m) s)
  zero_types-IfOk goal none m s h =
      guarded-IfOk goal (is_equal_zero port none) (code RetCode.invalid_argument) (λ _. m) s h
  zero_types-IfOk goal (some []) m s h = λ e. absurd (cc)
  zero_types-IfOk goal (some (a ∷ as')) m s h =
      guarded-IfOk goal (is_equal_zero port (some a)) (code RetCode.invalid_argument) (λ _. m) s h

  -- With an rcutils that does as documented, a rmw_get_topic_names_and_types that returns
  -- RMW_RET_OK gives the topics of the listed services that publish and subscribe, none twice, and
  -- no other, in ascending order. Their types are all "UNKNOWN" and stand in the first array of
  -- types, while the arrays of the other topics stay as they were initialized.
  pub rmw_get_topic_names_and_types-ReportsTopics :
      (services : Listing StaticConfig) (rmw_node : Option NodeHandle)
      (has_valid_allocator has_output : Bool) (s : TopicNames port)
      → (rmw_get_topic_names_and_types port services rmw_node has_valid_allocator has_output s).0
        ≡ ok tt
      → (ts : List TopicDetails) × IsAscending ts
        × ((t : TopicDetails) → IsIn t ts ↔ Lists topic_of services.entries t)
        × ReportsTopics ts
            (rmw_get_topic_names_and_types port services rmw_node has_valid_allocator has_output
              s).1
  unfolding rmw_get_topic_names_and_types
  rmw_get_topic_names_and_types-ReportsTopics services rmw_node has_valid_allocator has_output s e =
      (
        topic_set services.entries,
        emplace_all-IsAscending (readable topic_of services.entries) [] tt,
        collected_iff topic_of services.entries,
        split rmw_node e,
      )
    where
      split :
          (rmw_node : Option NodeHandle)
          → IfOk (ReportsTopics (topic_set services.entries)) (
              rmw_get_topic_names_and_types port services rmw_node has_valid_allocator has_output s)
      split none = λ e. absurd (cc)
      split (some node) =
          let goal : TopicNames port → Type 0 = ReportsTopics (topic_set services.entries) in
          let bad : Stop = code RetCode.invalid_argument in
          let types : Option (List StringArray) = s.names_and_types.types in
          guarded-IfOk goal has_output bad _ s (
            guarded-IfOk goal (is_own node.implementation_identifier)
              (code RetCode.incorrect_rmw_implementation) _ s
              (guarded-IfOk goal has_valid_allocator bad _ s (
                guarded-IfOk goal (is_equal_zero port (some s.names_and_types.names)) bad _ s
                  (zero_types-IfOk goal types _ s (collected-IfOk services s)))))
