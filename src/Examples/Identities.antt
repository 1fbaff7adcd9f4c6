-- ===== src/Examples/Identities.antt =====
-- Guard conditions of one context.
use rmw_iceoryx.Names
use rmw_iceoryx.Runtime.{
  Context, GuardCondition, RuntimePort, generate_guard_condition_id, create_guard_condition,
  create_node, create_iceoryx2,
}
use rmw_iceoryx.Runtime.Identity.{creates_node, others, run, step, create_guard_condition_distinct}
use rmw_iceoryx.Common.{none, [], ◌∷◌, arith, refl, suc, true, ℕ, ◌≢◌}

abbrev pub runtime_port : RuntimePort
runtime_port = record {
  World = ℕ;
  create_instance_name = λ name. true;
  create_local = λ name w. (true, w);
  create_ipc = λ name w. (true, w);
  create_service_name = λ name. true;
  open_or_create_event = λ name w. (true, w);
  create_notifier = λ name w. (true, suc w);
  notify_with_custom_event_id = λ name id w. (true, w);
}

abbrev shared_context : Context
shared_context = record { id = 4; guard_condition_counter = 6 }

abbrev numbered : ℕ → GuardCondition
numbered k = record { trigger_id = k; service_name = Names.guard_condition 4 k }

-- A node takes the number between.
create_guard_condition_distinct_example : (numbered 6).service_name ≢ (numbered 8).service_name
unfolding create_guard_condition generate_guard_condition_id run step create_node create_iceoryx2
create_guard_condition_distinct_example =
    create_guard_condition_distinct runtime_port shared_context 0
      (creates_node (110 ∷ []) none ∷ others 5 ∷ []) (numbered 6) (numbered 8) (omega arith)
      (omega arith) (omega arith) refl refl
