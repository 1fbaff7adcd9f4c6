-- ===== src/Rmw/Queries/Counting.antt =====
-- The functions of src/rmw/graph.cpp that count publishers and subscriptions, and what they do.
use rmw_iceoryx.Common.{
  Bool, Bool-cases, Exec, List, Option, if◌then◌else◌, inl, inr, is_some, none, ok, or_raise, refl,
  some, true, ℕ, ◌>>=◌, ◌>>◌, ◌≡◌, err, guard, raise,
}
use rmw_iceoryx.Names
use rmw_iceoryx.Errors.{RetCode}
use rmw_iceoryx.Rmw.Graph.{Stop, code}
use rmw_iceoryx.Rmw.Queries.{ensure_node, ensure_valid, ensure_given, Validators, is_valid, is_own}
use rmw_iceoryx.Rmw.Handles.{NodeHandle}

-- What counting asks of iceoryx2.
pub record ServicePort : Type 1 where
  pub World : Type 0
  pub create_service_name : List ℕ → Bool
  pub open_or_create_pubsub : List ℕ → World → Bool × World

module _ (port : ServicePort) (v : Validators) where
  open port use {World}

  abbrev open_or_create : List ℕ → Exec World Stop Bool
  open_or_create name w =
      (ok (port.open_or_create_pubsub name w).0, (port.open_or_create_pubsub name w).1)

  -- The service is opened, and nothing is counted.
  unfoldable pub rmw_count_publishers :
      Option NodeHandle → Option (List ℕ) → Bool → Exec World Stop (Unit {0})
  rmw_count_publishers rmw_node topic_name has_count = do
    node ← ensure_node rmw_node
    topic ← ensure_valid v.validate_full_topic_name topic_name
    ensure_given has_count
    or_raise node.impl (code RetCode.error)
    guard (port.create_service_name (Names.topic topic)) (code RetCode.error)
    service ← open_or_create (Names.topic topic)
    guard service (code RetCode.error)
    raise (code RetCode.unsupported)

  unfoldable pub rmw_count_subscribers :
      Option NodeHandle → Option (List ℕ) → Bool → Exec World Stop (Unit {0})
  rmw_count_subscribers rmw_node topic_name has_count = do
    node ← ensure_node rmw_node
    topic ← ensure_valid v.validate_full_topic_name topic_name
    ensure_given has_count
    or_raise node.impl (code RetCode.error)
    guard (port.create_service_name (Names.topic topic)) (code RetCode.error)
    service ← open_or_create (Names.topic topic)
    guard service (code RetCode.error)
    raise (code RetCode.unsupported)

-- Arguments with which a topic is counted: a node of this implementation with an object, and a
-- valid name that iceoryx2 takes.
pub record CanCount (port : ServicePort) (v : Validators) (node : NodeHandle) (topic : List ℕ)
    : Type 0 where
  pub own : is_own node.implementation_identifier ≡ true
  pub valid : is_valid (v.validate_full_topic_name topic) ≡ true
  pub placed : is_some node.impl ≡ true
  pub named : port.create_service_name (Names.topic topic) ≡ true

placed_at : (o : Option ℕ) → is_some o ≡ true → (p : ℕ) × (o ≡ some p)
placed_at none h = absurd (cc)
placed_at (some p) h = (p, refl)

-- To count the publishers or the subscriptions of a topic creates the topic's service in iceoryx2 if
-- it is not there, and then fails: with RMW_RET_UNSUPPORTED if the service is opened, and with
-- RMW_RET_ERROR if not.
pub rmw_count_creates :
    (port : ServicePort) (v : Validators) (node : NodeHandle) (topic : List ℕ) (w : port.World)
    → CanCount port v node topic
    → (rmw_count_publishers port v (some node) (some topic) true w ≡ (
      err (
          code (
            if (port.open_or_create_pubsub (Names.topic topic) w).0
            then RetCode.unsupported
            else RetCode.error)),
      (port.open_or_create_pubsub (Names.topic topic) w).1,
    ))
      × (rmw_count_subscribers port v (some node) (some topic) true w ≡ (
        err (
            code (
              if (port.open_or_create_pubsub (Names.topic topic) w).0
              then RetCode.unsupported
              else RetCode.error)),
        (port.open_or_create_pubsub (Names.topic topic) w).1,
      ))
unfolding rmw_count_publishers rmw_count_subscribers
rmw_count_creates port v node topic w c =
    let (p, at_p) = placed_at node.impl c.placed in
    rw (c.own, c.valid, at_p, c.named)
      (elim (Bool-cases (port.open_or_create_pubsub (Names.topic topic) w).0) [
        | inl opened ↦ rw opened (refl, refl)
        | inr refused ↦ rw refused (refl, refl)
      ])
