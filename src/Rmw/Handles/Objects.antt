-- ===== src/Rmw/Handles/Objects.antt =====
-- The blocks of guard conditions and wait sets, which are a handle and an object.
use rmw_iceoryx.Memory.Builds.{
  Undoes, Builds, then-Builds, checked-Builds, guard-Builds, handle-Builds, allocate-Builds,
  create_in_place-Builds, Leaves-err, Leaves-ok,
}
use rmw_iceoryx.Memory.Balance.{
  Allocator, Owns-same, freed, nothing, destructed, is_at, freed_option, destructed_option,
  Owns-nothing,
}
use rmw_iceoryx.Memory.{Block, Instance, MemoryPort, deallocate, create_in_place, allocate, nullptr}
use rmw_iceoryx.Rmw.Handles.{
  Pointer, ObjectHandle, rmw_create_guard_condition, ContextHandle, drop_object, is_own,
  rmw_create_wait_set, rmw_destroy_guard_condition,
}
use rmw_iceoryx.Common.{Bool, Option, arith, eq_refl, some, ℕ, ◌==◌, ◌||◌, err, ok, true, ◌≡◌}

abbrev object_blocks : Pointer ObjectHandle → ℕ → Bool
object_blocks (address, h) q = is_at h.impl q || address == q

module _ {port : MemoryPort} (a : Allocator port) where
  open port use {World, Message}

  module _ {w0 : World} where
    pub free_handle-Undoes :
        (handle : ℕ) → Undoes a w0 (λ q. handle == q) (deallocate port (some handle))
    free_handle-Undoes handle w o =
        Owns-same a (λ q. ground arith) (freed a handle w (o.new_to handle (eq_refl handle)) o)

    drop_object-Undoes :
        (handle object : ℕ)
        → Undoes a w0 (λ q. object == q || handle == q) (drop_object port handle object)
    drop_object-Undoes handle object w o =
        Owns-same a (λ q. ground arith)
          (freed a handle _ (o.new_to handle (ground (arith, eq_refl handle))) (
            freed a object _ (o.new_to object (ground (arith, eq_refl object)))
              (destructed a object w o)))

    create_guard_condition-Builds :
        (context : Option ContextHandle)
        → Builds a w0 nothing (rmw_create_guard_condition port context) object_blocks
    unfolding rmw_create_guard_condition
    create_guard_condition-Builds context =
        then-Builds a _ object_blocks _ _ (checked-Builds a context) λ c.
          then-Builds a _ object_blocks _ _ (guard-Builds a (is_own c.implementation_identifier))
            λ _. then-Builds a _ object_blocks _ _ (checked-Builds a c.impl) λ context_impl.
              then-Builds a _ object_blocks _ _ (handle-Builds a Block.handle) λ handle.
                then-Builds a _ object_blocks _ _
                  (allocate-Builds a Block.object (deallocate port (some handle))
                    (free_handle-Undoes handle))
                  λ object.
                    then-Builds a _ object_blocks _ _
                      (create_in_place-Builds a (Instance.guard_condition context_impl) object _
                        (drop_object-Undoes handle object))
                      λ _. λ w o. o

    create_wait_set-Builds :
        (context : Option ContextHandle) (n : ℕ)
        → Builds a w0 nothing (rmw_create_wait_set port context n) object_blocks
    unfolding rmw_create_wait_set
    create_wait_set-Builds context n =
        then-Builds a _ object_blocks _ _ (checked-Builds a context) λ c.
          then-Builds a _ object_blocks _ _ (checked-Builds a c.impl) λ context_impl.
            then-Builds a _ object_blocks _ _ (guard-Builds a (is_own c.implementation_identifier))
              λ _. then-Builds a _ object_blocks _ _ (handle-Builds a Block.handle) λ handle.
                then-Builds a _ object_blocks _ _
                  (allocate-Builds a Block.object (deallocate port (some handle))
                    (free_handle-Undoes handle))
                  λ object.
                    then-Builds a _ object_blocks _ _
                      (create_in_place-Builds a (Instance.wait_set context_impl) object _
                        (drop_object-Undoes handle object))
                      λ _. λ w o. o

  guard_condition-IsOwn :
      (context : Option ContextHandle) (w : World) (h : Pointer ObjectHandle)
      → (rmw_create_guard_condition port context w).0 ≡ ok h
      → is_own h.1.implementation_identifier ≡ true
  unfolding rmw_create_guard_condition create_in_place allocate
  guard_condition-IsOwn context w h e = ground (arith, e)

  destroy_guard_condition-Undoes :
      {w0 : World} (h : Pointer ObjectHandle)
      → is_own h.1.implementation_identifier ≡ true
      → Undoes a w0 (object_blocks h) (λ w. (rmw_destroy_guard_condition port (some h) w).1)
  unfolding rmw_destroy_guard_condition
  destroy_guard_condition-Undoes (address, h) own w o = rw own (
      Owns-same a (λ q. ground arith)
        (freed a address _ (o.new_to address (ground (arith, eq_refl address))) (
          freed_option a h.impl _ (λ q e. o.new_to q (ground (arith, e)))
            (destructed_option a h.impl _ o))))

  -- A guard condition that cannot be created leaves no block behind, wherever the creation fails.
  pub rmw_create_guard_condition_null :
      (context : Option ContextHandle) (w : World) (q : ℕ)
      → (rmw_create_guard_condition port context w).0 ≡ err nullptr
      → a.live (rmw_create_guard_condition port context w).1 q ≡ a.live w q
  rmw_create_guard_condition_null context w q e =
      Leaves-err a object_blocks w _ (create_guard_condition-Builds context w (Owns-nothing a)) e q

  -- A guard condition that is created and destroyed leaves no block behind and frees no other.
  pub rmw_destroy-rmw_create_guard_condition :
      (context : Option ContextHandle) (w : World) (h : Pointer ObjectHandle) (q : ℕ)
      → (rmw_create_guard_condition port context w).0 ≡ ok h
      → a.live
          (rmw_destroy_guard_condition port
            (some h)
            (rmw_create_guard_condition port context w).1).1
          q
        ≡ a.live w q
  rmw_destroy-rmw_create_guard_condition context w h q e =
      (destroy_guard_condition-Undoes h (guard_condition-IsOwn context w h e) _ (
          Leaves-ok a object_blocks w _ h (create_guard_condition-Builds context w (Owns-nothing a))
            e)).held
        q

  -- A wait set that cannot be created leaves no block behind.
  pub rmw_create_wait_set_null :
      (context : Option ContextHandle) (n : ℕ) (w : World) (q : ℕ)
      → (rmw_create_wait_set port context n w).0 ≡ err nullptr
      → a.live (rmw_create_wait_set port context n w).1 q ≡ a.live w q
  rmw_create_wait_set_null context n w q e =
      Leaves-err a object_blocks w _ (create_wait_set-Builds context n w (Owns-nothing a)) e q
