-- ===== src/Rmw/Handles/Nodes.antt =====
-- The blocks of nodes, which are a handle, two texts and an object.
use rmw_iceoryx.Memory.Builds.{
  Undoes, Builds, then-Builds, checked-Builds, guard-Builds, handle-Builds, allocate-Builds,
  create_in_place-Builds, Leaves-err, Leaves-ok, Leaves,
}
use rmw_iceoryx.Memory.Balance.{
  Allocator, Owns-same, freed, nothing, destructed, is_at, freed_option, destructed_option, Owns,
  Owns-nothing,
}
use rmw_iceoryx.Memory.{
  Block, Instance, MemoryPort, deallocate, create_in_place, destruct, allocate, nullptr,
}
use rmw_iceoryx.Rmw.Handles.{
  Pointer, ContextHandle, is_own, NodeHandle, cleanup_node, rmw_create_node, rmw_destroy_node,
  rmw_get_implementation_identifier,
}
use rmw_iceoryx.Common.{
  Bool, Option, arith, eq_refl, false, some, ℕ, ◌==◌, ◌||◌, List, err, ok, true, ◌≡◌, ap, none, sym,
  ◌∙◌,
}

abbrev pub node_blocks : Pointer NodeHandle → ℕ → Bool
node_blocks (address, n) q =
    is_at n.impl q || (is_at n.namespace q || (is_at n.name q || address == q))

-- A handle whose memory was filled with zeros.
abbrev pub zeroed : NodeHandle
zeroed = record {
  implementation_identifier = rmw_get_implementation_identifier;
  context = none;
  name = none;
  namespace = none;
  impl = none;
}

module _ {port : MemoryPort} (a : Allocator port) where
  open port use {World, Message}

  module _ {w0 : World} where
    cleanup_node-clears :
        {own : ℕ → Bool} (h : Pointer NodeHandle) (w : World)
        → ((q : ℕ) → own q ≡ true → node_blocks h q ≡ true)
        → ((q : ℕ) → node_blocks h q ≡ true → a.live w0 q ≡ false)
        → Owns a w0 own w
        → Owns a w0 nothing (cleanup_node port h w)
    unfolding cleanup_node
    cleanup_node-clears (address, n) w within fresh o =
        Owns-same a (λ q. ground (arith, within q))
          (freed a address _ (fresh address (ground (arith, eq_refl address))) (
            freed_option a n.impl _ (λ q h. fresh q (ground (arith, h)))
              (destructed_option a n.impl _ (
                freed_option a n.namespace _ (λ q h. fresh q (ground (arith, h)))
                  (freed_option a n.name _ (λ q h. fresh q (ground (arith, h))) o)))))

    cleanup_node-Undoes :
        (h : Pointer NodeHandle) → Undoes a w0 (node_blocks h) (cleanup_node port h)
    cleanup_node-Undoes h w o = cleanup_node-clears h w (λ q e. e) (λ q e. o.new_to q e) o

    drop_node-Undoes :
        (h : Pointer NodeHandle) (object : ℕ)
        → Undoes a w0
            (λ q. object == q || node_blocks h q)
            (λ w.
              cleanup_node port h (deallocate port (some object) (destruct port (some object) w)))
    drop_node-Undoes h object w o =
        cleanup_node-clears h _ (λ q e. ground (arith, e)) (λ q e. o.new_to q (ground (arith, e)))
          (freed a object _ (o.new_to object (ground (arith, eq_refl object)))
            (destructed a object w o))

    create_node-Builds :
        (valid_name valid_namespace : List ℕ → Bool) (context : Option ContextHandle)
        (name namespace : Option (List ℕ))
        → Builds a w0 nothing
            (rmw_create_node port zeroed valid_name valid_namespace context name namespace)
            node_blocks
    unfolding rmw_create_node
    create_node-Builds valid_name valid_namespace context name namespace =
        then-Builds a _ node_blocks _ _ (checked-Builds a context) λ c.
          then-Builds a _ node_blocks _ _ (checked-Builds a name) λ node_name.
            then-Builds a _ node_blocks _ _ (guard-Builds a (valid_name node_name)) λ _.
              then-Builds a _ node_blocks _ _ (checked-Builds a namespace) λ node_namespace.
                then-Builds a _ node_blocks _ _ (guard-Builds a (valid_namespace node_namespace))
                  λ _. then-Builds a _ node_blocks _ _ (checked-Builds a c.impl) λ context_impl.
                    then-Builds a _ node_blocks _ _
                      (guard-Builds a (is_own c.implementation_identifier))
                      λ _. then-Builds a _ node_blocks _ _ (handle-Builds a Block.handle) λ handle.
                        then-Builds a _ node_blocks _ _
                          (allocate-Builds a (Block.text node_name) _
                            (cleanup_node-Undoes (handle, _)))
                          λ name_ptr.
                            then-Builds a _ node_blocks _ _
                              (allocate-Builds a (Block.text node_namespace) _
                                (cleanup_node-Undoes (handle, _)))
                              λ namespace_ptr.
                                then-Builds a _ node_blocks _ _
                                  (allocate-Builds a Block.object _
                                    (cleanup_node-Undoes (handle, _)))
                                  λ object.
                                    then-Builds a _ node_blocks _ _
                                      (create_in_place-Builds a
                                        (Instance.node context_impl node_name node_namespace) object
                                        _ (drop_node-Undoes (handle, _) object))
                                      λ _. λ w o. o

  node-IsOwn :
      (allocated : NodeHandle) (valid_name valid_namespace : List ℕ → Bool)
      (context : Option ContextHandle) (name namespace : Option (List ℕ)) (w : World)
      (h : Pointer NodeHandle)
      → (rmw_create_node port allocated valid_name valid_namespace context name namespace w).0
        ≡ ok h
      → is_own h.1.implementation_identifier ≡ true
  unfolding rmw_create_node create_in_place allocate
  node-IsOwn allocated valid_name valid_namespace context name namespace w h e = ground (arith, e)

  -- What a creation that succeeds leaves does not depend on what the memory held.
  create_node-zeroed :
      (allocated : NodeHandle) (valid_name valid_namespace : List ℕ → Bool)
      (context : Option ContextHandle) (name namespace : Option (List ℕ)) (w : World)
      (h : Pointer NodeHandle)
      → (rmw_create_node port allocated valid_name valid_namespace context name namespace w).0
        ≡ ok h
      → rmw_create_node port allocated valid_name valid_namespace context name namespace w
        ≡ rmw_create_node port zeroed valid_name valid_namespace context name namespace w
  unfolding rmw_create_node create_in_place allocate
  create_node-zeroed allocated valid_name valid_namespace context name namespace w h e =
      ground (arith, e)

  destroy_node-Undoes :
      {w0 : World} (h : Pointer NodeHandle)
      → is_own h.1.implementation_identifier ≡ true
      → Undoes a w0 (node_blocks h) (λ w. (rmw_destroy_node port (some h) w).1)
  unfolding rmw_destroy_node
  destroy_node-Undoes h own w o = rw own (cleanup_node-Undoes h w o)

  module _ (valid_name valid_namespace : List ℕ → Bool) (context : Option ContextHandle)
      (name namespace : Option (List ℕ)) (w : World) where
    created :
        Leaves a w node_blocks
          (rmw_create_node port zeroed valid_name valid_namespace context name namespace w)
    created =
        create_node-Builds valid_name valid_namespace context name namespace w (Owns-nothing a)

    -- A node that cannot be created leaves no block behind, wherever the creation fails, if the
    -- memory of the handle was zeroed.
    pub rmw_create_node_null :
        (q : ℕ)
        → (rmw_create_node port zeroed valid_name valid_namespace context name namespace w).0
          ≡ err nullptr
        → a.live
            (rmw_create_node port zeroed valid_name valid_namespace context name namespace w).1
            q
          ≡ a.live w q
    rmw_create_node_null q e = Leaves-err a node_blocks w _ created e q

    -- A node that is created and destroyed leaves no block allocated and frees no other.
    pub rmw_destroy-rmw_create_node :
        (allocated : NodeHandle) (h : Pointer NodeHandle) (q : ℕ)
        → (rmw_create_node port allocated valid_name valid_namespace context name namespace w).0
          ≡ ok h
        → a.live
            (rmw_destroy_node port
              (some h)
              (rmw_create_node port allocated valid_name valid_namespace context name namespace
                w).1).1
            q
          ≡ a.live w q
    rmw_destroy-rmw_create_node allocated h q e =
        let same =
          create_node-zeroed allocated valid_name valid_namespace context name namespace w h e in
        let own = node-IsOwn allocated valid_name valid_namespace context name namespace w h e in
        rw same (
          (destroy_node-Undoes h own _
              (Leaves-ok a node_blocks w _ h created (sym (ap (λ r. r.0) same) ∙ e))).held
            q)
