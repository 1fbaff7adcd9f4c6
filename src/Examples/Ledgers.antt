-- ===== src/Examples/Ledgers.antt =====
-- Runs of a publisher whose middleware keeps a ledger.
use rmw_iceoryx.Common.{◌≡◌, refl, [], sym}
use mathlib.Mathlib.Data.Multiset.AddSub.{add, zero-add}
use rmw_iceoryx.Registry
use rmw_iceoryx.Publisher.{Session}
use rmw_iceoryx.Publisher.Loans.{loans, publishes, step, run, LendsFresh}
use rmw_iceoryx.Publisher.Ledger.{
  audited, view, Move, Step, Reach, calls, here, next, IsBalanced, held_samples, return_all,
}
use rmw_iceoryx.Publisher.Ledger.Moves.{Step-Move, Reach-IsBalanced, return_all_ends}
use rmw_iceoryx.Examples.Ports.{publisher_port, byte_support}

abbrev start : Session (audited publisher_port)
start = record {
  self = record {
    topic = [];
    typesupport = byte_support;
    unserialized_size = 1;
    service_name = [];
    registry = Registry.empty;
  };
  world = ((7, []), record { lent = []; sent = []; dropped = [] });
}

start-IsBalanced : IsBalanced (view publisher_port start)
start-IsBalanced = sym (zero-add _)

first_loan : LendsFresh start
unfolding Registry.retrieve Registry.find
first_loan n sample e = refl

abbrev lent_one : Session (audited publisher_port)
lent_one = step (loans 1) start

lent_one-Step : Step publisher_port start lent_one
lent_one-Step = calls (loans 1) first_loan

-- The loan is published.
abbrev published_one : Session (audited publisher_port)
published_one = step (publishes 7) lent_one

published_one-Reach : Reach publisher_port start published_one
published_one-Reach = next (next here lent_one-Step) (calls (publishes 7) tt)

Step-Move_example : Move (view publisher_port start) (view publisher_port lent_one)
Step-Move_example = Step-Move publisher_port lent_one-Step

Reach-IsBalanced_example : IsBalanced (view publisher_port published_one)
Reach-IsBalanced_example = Reach-IsBalanced publisher_port start-IsBalanced published_one-Reach

return_all_ends_example :
    (held_samples publisher_port
        (run (return_all publisher_port lent_one.registry.samples) lent_one)
      ≡ [])
    × ((view publisher_port
          (run (return_all publisher_port lent_one.registry.samples) lent_one)).lent
        ≡ add
            (view publisher_port
              (run (return_all publisher_port lent_one.registry.samples) lent_one)).sent
            (view publisher_port
              (run (return_all publisher_port lent_one.registry.samples) lent_one)).dropped)
return_all_ends_example = return_all_ends publisher_port start-IsBalanced (next here lent_one-Step)
