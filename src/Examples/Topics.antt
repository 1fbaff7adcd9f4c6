-- ===== src/Examples/Topics.antt =====
-- Runs of rmw_get_topic_names_and_types, over an rcutils that refuses nothing.
use rmw_iceoryx.Rmw.Graph.TopicSteps.{ReportsTopics}
use rmw_iceoryx.Rmw.Graph.Collections.{Lists}
use rmw_iceoryx.OrderedSet.Laws.{IsAscending, IsIn}
use rmw_iceoryx.Rmw.Graph.TopicReports.{
  IsForeign, details, topic_of, rmw_get_topic_names_and_types-ReportsTopics,
}
use rmw_iceoryx.Names.Order.{TopicDetails}
use rmw_iceoryx.Rmw.Graph.TopicOutcomes.{
  IsAccepted, rmw_get_topic_names_and_types_returns, rmw_get_topic_names_and_types-foreign,
}
use rmw_iceoryx.Rmw.Graph.{
  Listing, MessagingPattern, StaticConfig, event, publish_subscribe,
  rcutils_get_zero_initialized_string_array, undefined_behaviour,
}
use rmw_iceoryx.Rmw.Graph.TopicNames.{
  TopicNames, rmw_get_topic_names_and_types, is_publish_subscribe,
}
use rmw_iceoryx.Common.{
  List, ok, refl, ℕ, ◌++◌, [], arith, err, false, get_elem?, none, some, suc, true, zero, ◌↔◌, ◌∷◌,
  ◌≡◌, subst, ap, is_some,
}
use rmw_iceoryx.Names.Order.{topic_order}
use rmw_iceoryx.Names.{topics_prefix, parse_topic_name, starts_with}
use rmw_iceoryx.Examples.Graphs.{rcutils, documented, granted, own_node}

abbrev service : MessagingPattern → List ℕ → StaticConfig
service pattern name = record { name = name; messaging_pattern = pattern }

abbrev chatter : StaticConfig
chatter = service publish_subscribe (topics_prefix ++ 47 ∷ 99 ∷ [])

abbrev clock : StaticConfig
clock = service publish_subscribe (topics_prefix ++ 47 ∷ 98 ∷ [])

abbrev wakeup : StaticConfig
wakeup = service event (topics_prefix ++ 47 ∷ 99 ∷ [])

abbrev foreign : StaticConfig
foreign = service publish_subscribe (99 ∷ [])

-- Two topics, one listed twice, and a service that does not publish.
abbrev services : Listing StaticConfig
services = record { entries = chatter ∷ wakeup ∷ clock ∷ chatter ∷ []; is_complete = true }

abbrev services' : Listing StaticConfig
services' = record { entries = clock ∷ chatter ∷ wakeup ∷ []; is_complete = true }

abbrev events : Listing StaticConfig
events = record { entries = wakeup ∷ []; is_complete = true }

abbrev mixed : Listing StaticConfig
mixed = record { entries = wakeup ∷ foreign ∷ []; is_complete = true }

abbrev empty_topics : TopicNames rcutils
empty_topics = record {
  names_and_types = record {
    names = rcutils_get_zero_initialized_string_array;
    types = some (rcutils_get_zero_initialized_string_array ∷ []);
  };
  world = tt;
}

IsAccepted-call : IsAccepted rcutils own_node empty_topics
IsAccepted-call = record { own = refl; zero_names = refl; zero_types = refl }

-- A service that is listed as one with a topic is not foreign.
topic_names :
    (s c : StaticConfig)
    → is_some (parse_topic_name s.name) ≡ true
    → some s ≡ some c
    → ¬ (parse_topic_name c.name ≡ none)
topic_names s c h e g =
    let same : s ≡ c = ground (arith, e) in
    absurd (ground (arith, h, g, ap (λ c. is_some (parse_topic_name c.name)) same))

-- Every service that publishes and subscribes in the listing is a topic.
own_services : (i : ℕ) (c : StaticConfig) → get_elem? services.entries i ≡ some c → ¬ IsForeign c
unfolding parse_topic_name starts_with
own_services zero c e (f, g) = absurd (topic_names chatter c refl e g)
own_services (suc zero) c e (f, g) =
    let same : wakeup ≡ c = ground (arith, e) in
    absurd (ground (arith, f, ap is_publish_subscribe same))
own_services (suc (suc zero)) c e (f, g) = absurd (topic_names clock c refl e g)
own_services (suc (suc (suc zero))) c e (f, g) = absurd (topic_names chatter c refl e g)
own_services (suc (suc (suc (suc i)))) c e f = absurd (cc)

rmw_get_topic_names_and_types_returns_example :
    (rmw_get_topic_names_and_types rcutils services (some own_node) true true empty_topics).0
    ≡ ok tt
unfolding parse_topic_name starts_with
rmw_get_topic_names_and_types_returns_example =
    rmw_get_topic_names_and_types_returns documented services own_node empty_topics IsAccepted-call
      refl own_services (details (47 ∷ 99 ∷ [])) granted (0, chatter, refl, refl)

rmw_get_topic_names_and_types-ReportsTopics_example :
    (ts : List TopicDetails) × IsAscending ts
    × ((t : TopicDetails) → IsIn t ts ↔ Lists topic_of services.entries t)
    × ReportsTopics ts
        (rmw_get_topic_names_and_types rcutils services (some own_node) true true empty_topics).1
rmw_get_topic_names_and_types-ReportsTopics_example =
    rmw_get_topic_names_and_types-ReportsTopics documented services (some own_node) true true
      empty_topics rmw_get_topic_names_and_types_returns_example

rmw_get_topic_names_and_types-foreign_example :
    (rmw_get_topic_names_and_types rcutils mixed (some own_node) true true empty_topics).0
    ≡ err undefined_behaviour
unfolding parse_topic_name starts_with
rmw_get_topic_names_and_types-foreign_example =
    rmw_get_topic_names_and_types-foreign mixed own_node empty_topics 1 foreign IsAccepted-call refl
      (refl, refl)

only_events :
    (i : ℕ) (c : StaticConfig)
    → get_elem? events.entries i ≡ some c
    → is_publish_subscribe c ≡ false
only_events zero c e =
    let same : wakeup ≡ c = ground (arith, e) in
    subst (λ c. is_publish_subscribe c ≡ false) same refl
only_events (suc i) c e = absurd (cc)

no-IsForeign : (i : ℕ) (c : StaticConfig) → get_elem? events.entries i ≡ some c → ¬ IsForeign c
no-IsForeign i c e (f, g) = absurd (ground (arith, f, only_events i c e))
