-- ===== src/Examples/Naming.antt =====
-- Names written and parsed.
use rmw_iceoryx.Names.{node, parse_name}
use rmw_iceoryx.Names.RoundTrip.{parse_name-node}
use rmw_iceoryx.Common.{[], refl, some, ◌∷◌, ◌≡◌}

-- Node "ab" in the namespace "/c".
parse_name-node_example :
    parse_name (node 7 (97 ∷ 98 ∷ []) (some (47 ∷ 99 ∷ [])))
    ≡ some (record { namespace = 47 ∷ 99 ∷ []; name = 97 ∷ 98 ∷ [] })
parse_name-node_example = parse_name-node 7 97 (98 ∷ []) (some (47 ∷ 99 ∷ [])) (refl, (refl, tt))
