-- ===== src/Rmw/Handles/GraphGuard.antt =====
-- The handle of a node's graph guard condition, which nothing frees.
use rmw_iceoryx.Common.{
  Option, arith, eq_refl, false, none, ok, or_raise, refl, some, true, ℕ, ◌∙◌, ◌≡◌, subst,
}
use rmw_iceoryx.Memory.Balance.{Allocator, is_at}
use rmw_iceoryx.Memory.{MemoryPort, deallocate, destruct, allocate, Block, nullptr}
use rmw_iceoryx.Rmw.Handles.{
  rmw_node_get_graph_guard_condition, cleanup_node, rmw_destroy_node, Pointer, NodeHandle,
  ObjectHandle, is_own,
}
use rmw_iceoryx.Rmw.Handles.Nodes.{node_blocks}

module _ {port : MemoryPort} (a : Allocator port) where
  open port use {World}

  deallocate-live :
      (o : Option ℕ) (w : World) (q : ℕ)
      → is_at o q ≡ false
      → a.live (deallocate port o w) q ≡ a.live w q
  deallocate-live none w q e = refl
  deallocate-live (some p) w q e = ground (arith, e, a.freed-live p w q)

  destruct-live : (o : Option ℕ) (w : World) (q : ℕ) → a.live (destruct port o w) q ≡ a.live w q
  destruct-live none w q = refl
  destruct-live (some p) w q = a.destructor-live p w q

  -- The cleanup frees the blocks of the node only.
  cleanup_node-live :
      (h : Pointer NodeHandle) (w : World) (q : ℕ)
      → node_blocks h q ≡ false
      → a.live (cleanup_node port h w) q ≡ a.live w q
  unfolding cleanup_node
  cleanup_node-live (address, n) w q e =
      deallocate-live (some address) _ q (ground (arith, e))
      ∙ (deallocate-live n.impl _ q (ground (arith, e))
          ∙ (destruct-live n.impl _ q
              ∙ (deallocate-live n.namespace _ q (ground (arith, e))
                  ∙ deallocate-live n.name w q (ground (arith, e)))))

  allocated_block :
      (b : Block) (w : World) (p : ℕ)
      → (allocate port b w).0 ≡ ok p
      → (a.live w p ≡ false) × (a.live (allocate port b w).1 p ≡ true)
  unfolding allocate
  allocated_block b w p = split (port.rmw_allocate b w) refl
    where
      split :
          (r : Option ℕ × World)
          → port.rmw_allocate b w ≡ r
          → (or_raise {S = World} r.0 nullptr r.1).0 ≡ ok p
          → (a.live w p ≡ false) × (a.live (or_raise {S = World} r.0 nullptr r.1).1 p ≡ true)
      split (none, w') e g = absurd (cc)
      split (some q, w') e g =
          let same : q ≡ p = ground (arith, g) in
          subst (λ q. (a.live w q ≡ false) × (a.live w' q ≡ true)) same
            (a.allocated-fresh b w w' q e, ground (arith, a.allocated-live b w w' q q e, eq_refl q))

  given_by :
      (f : ℕ → ℕ) (n : NodeHandle) (w : World) (g : Pointer ObjectHandle)
      → (rmw_node_get_graph_guard_condition port f (some n) w).0 ≡ ok g
      → (is_own n.implementation_identifier ≡ true)
        × ((allocate port Block.handle w).0 ≡ ok g.0)
        × ((rmw_node_get_graph_guard_condition port f (some n) w).1
            ≡ (allocate port Block.handle w).1)
  unfolding rmw_node_get_graph_guard_condition
  given_by f n w g e = (ground (arith, e), ground (arith, e), ground (arith, e))

  -- The handle that rmw_node_get_graph_guard_condition gives for a node stays allocated when the
  -- node is destroyed, if the blocks of the node were allocated.
  pub rmw_destroy_node_leaks :
      (graph_guard_condition : ℕ → ℕ) (h : Pointer NodeHandle) (w : World)
      (g : Pointer ObjectHandle)
      → ((q : ℕ) → node_blocks h q ≡ true → a.live w q ≡ true)
      → (rmw_node_get_graph_guard_condition port graph_guard_condition (some h.1) w).0 ≡ ok g
      → a.live
          (rmw_destroy_node port
            (some h)
            (rmw_node_get_graph_guard_condition port graph_guard_condition (some h.1) w).1).1
          g.0
        ≡ true
  unfolding rmw_destroy_node
  rmw_destroy_node_leaks graph_guard_condition h w g owned e =
      let (own, given, after) = given_by graph_guard_condition h.1 w g e in
      let (fresh, live) = allocated_block Block.handle w g.0 given in
      let other : node_blocks h g.0 ≡ false = ground (arith, owned g.0, fresh) in
      rw (own, after) (cleanup_node-live h _ g.0 other ∙ live)
