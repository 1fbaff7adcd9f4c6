-- ===== src/WaitSet.antt =====
-- include/rmw_iceoryx2_cxx/impl/runtime/waitset.hpp and src/impl/runtime/waitset.cpp: the stored
-- listeners and the mapping of waitable entities to the indices of the rmw layer. `Waiting` has
-- the wait. The two instances of a template over the listener's type are the two values of
-- `WaitableEntity`; so `INVALID_WAITABLE_TYPE`, the default of switches over them, cannot arise.
pub mod Storage
pub mod Mapping
pub mod Waiting
pub mod Sharing
pub mod Indices
use rmw_iceoryx.Common.{
  Bool, Exec, Expected, List, Option, [], err, false, guard, if◌then◌else◌, length, map, none,
  or_raise, pure, some, suc, true, ℕ, ◌&&◌, ◌*◌, ◌++◌, ◌==◌, ◌>>=◌, ◌>>◌, ◌||◌, ◌∷◌, ok,
}
use mathlib.Core.Option
use rmw_iceoryx.Errors.{WaitSetError}

pub data WaitableEntity : Type 0 where
  subscriber guard_condition : WaitableEntity

abbrev pub same_entity : WaitableEntity → WaitableEntity → Bool
same_entity subscriber subscriber = true
same_entity guard_condition guard_condition = true
same_entity _ _ = false

-- iceoryx2 as the class uses it. An attachment is a guard, whose destructor is `detach`.
pub record WaitSetPort : Type 1 where
  pub World : Type 0
  pub Listener : Type 0
  pub Guard : Type 0
  pub create : World → Bool × World
  pub open_or_create_event : WaitableEntity → List ℕ → World → Bool × World
  pub create_listener : WaitableEntity → List ℕ → World → Option Listener × World
  pub attach_notification : Listener → World → Option Guard × World
  pub attach_interval : ℕ → World → Option Guard × World
  pub detach : Guard → World → World
  -- the `AttachmentId`
  pub from_guard : Guard → ℕ
  -- The ids for which the callback is called, if none of its calls stops the processing. `none` is
  -- an error. A timeout is in nanoseconds.
  pub wait_and_process_once : Option ℕ → World → Option (List ℕ) × World
  pub try_wait_all : Listener → World → Bool × World

pub record RmwMapping : Type 0 where
  pub waitable_type : WaitableEntity
  pub storage_index : ℕ
  pub rmw_index : ℕ

pub record ListenerDetails (Listener : Type 0) : Type 0 where
  pub service_name : List ℕ
  pub listener : Listener

module _ (port : WaitSetPort) where
  open port use {World, Listener}

  pub record WaitSet : Type 0 where
    pub guard_condition_listeners : List (ListenerDetails Listener)
    pub subscriber_listeners : List (ListenerDetails Listener)
    pub mapping : List RmwMapping

  -- One wait set and the middleware that it talks to.
  pub record Session : Type 0 where
    pub self : WaitSet
    pub open self use *
    pub world : World

  -- The constructor, whose `error` is the failure here.
  unfoldable pub construct : World → Expected WaitSetError WaitSet × World
  construct w = (
    if (port.create w).0
        then ok (record { guard_condition_listeners = []; subscriber_listeners = []; mapping = [] })
        else err WaitSetError.waitset_creation_failure,
    (port.create w).1,
  )

-- Two service names are the same text.
unfoldable pub name_eq : List ℕ → List ℕ → Bool
name_eq [] [] = true
name_eq (a ∷ as') (b ∷ bs) = a == b && name_eq as' bs
name_eq _ _ = false

-- `std::find_if` by service name, as an index.
unfoldable pub find_listener : {L : Type 0} → List ℕ → List (ListenerDetails L) → Option ℕ
find_listener name [] = none
find_listener name (d ∷ ds) =
    if name_eq d.service_name name then some 0 else Option.map suc (find_listener name ds)

-- `std::find_if` by entity and storage index.
unfoldable pub is_mapped : WaitableEntity → ℕ → List RmwMapping → Bool
is_mapped e i [] = false
is_mapped e i (m ∷ ms) = (same_entity m.waitable_type e && m.storage_index == i) || is_mapped e i ms

module _ {port : WaitSetPort} where
  open port use {World, Listener}

  abbrev pub listener_storage : WaitableEntity → WaitSet port → List (ListenerDetails Listener)
  listener_storage guard_condition s = s.guard_condition_listeners
  listener_storage subscriber s = s.subscriber_listeners

  abbrev pub with_storage :
      WaitableEntity → List (ListenerDetails Listener) → WaitSet port → WaitSet port
  with_storage guard_condition ds s = record s { guard_condition_listeners = ds }
  with_storage subscriber ds s = record s { subscriber_listeners = ds }

  abbrev call : {A : Type 0} → (World → A × World) → Exec (Session port) WaitSetError A
  call f s = (ok (f s.world).0, record s { world = (f s.world).1 })

  unfoldable pub emplace_back :
      WaitableEntity → List ℕ → Listener → Exec (Session port) WaitSetError ℕ
  emplace_back e name listener s = (
    ok (length (listener_storage e s.self)),
    record s {
      self =
          with_storage e
            (listener_storage e s.self ++ record { service_name = name; listener = listener } ∷ [])
            s.self;
    },
  )

  -- The index of the listener of a service, which is created on the first request.
  unfoldable pub create_listener : WaitableEntity → List ℕ → Exec (Session port) WaitSetError ℕ
  create_listener e name = do
    service ← call (port.open_or_create_event e name)
    guard service WaitSetError.service_creation_failure
    answer ← call (port.create_listener e name)
    listener ← or_raise answer WaitSetError.listener_creation_failure
    emplace_back e name listener

  unfoldable pub or_create : WaitableEntity → List ℕ → Option ℕ → Exec (Session port) WaitSetError ℕ
  or_create e name none = create_listener e name
  or_create e name (some i) = pure i

  unfoldable pub get_storage_index : WaitableEntity → List ℕ → Exec (Session port) WaitSetError ℕ
  get_storage_index e name s = or_create e name (find_listener name (listener_storage e s.self)) s

  unfoldable pub map_stored_listener : WaitableEntity → ℕ → ℕ → WaitSet port → WaitSet port
  map_stored_listener e storage_index rmw_index s =
      if is_mapped e storage_index s.mapping then s else record s {
        mapping =
            s.mapping
            ++ record { waitable_type = e; storage_index = storage_index; rmw_index = rmw_index }
              ∷ [];
      }

  abbrev map_index : WaitableEntity → ℕ → ℕ → Exec (Session port) WaitSetError (Unit {0})
  map_index e rmw_index i s = (ok tt, record s { self = map_stored_listener e i rmw_index s.self })

  -- Both overloads of `map`: by the entity's kind and its service name.
  unfoldable pub map_waitable :
      WaitableEntity → ℕ → List ℕ → Exec (Session port) WaitSetError (Unit {0})
  map_waitable e rmw_index name = do i ← get_storage_index e name; map_index e rmw_index i

  unfoldable pub unmap_all : Session port → Session port
  unmap_all s = record s { self = record (s.self) { mapping = [] } }
