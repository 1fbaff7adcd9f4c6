-- ===== src/WaitSet/Waiting/Attaching.antt =====
-- The attachments of a wait that starts, as they stand one after the other: what each knows of
-- its listener, and an event that stays pending meanwhile.
use rmw_iceoryx.WaitSet.Waiting.Exact.{mappings_of, mappings_of-append}
use rmw_iceoryx.Common.{
  All, List, [], none, some, ok, ◌++◌, ◌∷◌, ◌≡◌, refl, arith, sym, subst, ◌∙◌, get_elem?,
  get_elem?-is_some, All-append, All-imp, Expected,
}
use mathlib.Core.List.{append_assoc, append-nil}
use rmw_iceoryx.Errors.{WaitSetError}
use rmw_iceoryx.WaitSet.{WaitSetPort, RmwMapping, WaitSet, ListenerDetails, listener_storage}
use rmw_iceoryx.WaitSet.Mapping.{IsStored}
use rmw_iceoryx.WaitSet.Waiting.{
  AttachmentDetails, WaitContext, find_attachment, id_of, attach_mapped_listener,
  attach_mapped_listeners, add_attachment,
}
use rmw_iceoryx.WaitSet.Waiting.Events.{
  Events, find_attachment-append_some, find_attachment-append_new,
}

module _ {port : WaitSetPort} where
  open port use {World, Listener, Guard}

  module _ (events : Events port) (w : WaitSet port) (l : Listener) where
    open events use {IsPending, IsAttached}

    -- An attachment of the listener that its mapping refers to.
    abbrev pub IsHeld : World → AttachmentDetails port → Type 0
    IsHeld v a =
        (d : ListenerDetails Listener) × (get_elem? (listener_storage a.mapping.waitable_type w)
            a.mapping.storage_index
          ≡ some d)
        × IsAttached a.attached d.listener v

    pub record Tracks (ms : List RmwMapping) (ctx : WaitContext port) : Type 0 where
      pub same : ctx.session.self ≡ w
      pub no_timeout : ctx.attached_timeout ≡ none
      pub no_result : ctx.result ≡ []
      pub listed : mappings_of ctx.attached_listeners ≡ ms
      pub held : All (IsHeld ctx.session.world) ctx.attached_listeners
      pub found :
          All
            (λ a. find_attachment (id_of a) ctx.attached_listeners ≡ some a)
            ctx.attached_listeners
      pub pending : IsPending l ctx.session.world

    module _ (m : RmwMapping) (ctx : WaitContext port) (g : Guard)
        (d : ListenerDetails Listener) where
      abbrev new : AttachmentDetails port
      new = record { attached = g; mapping = m }

      abbrev moved : WaitContext port
      moved = record ctx {
        session = record (ctx.session) {
          world = (port.attach_notification d.listener ctx.session.world).1;
        };
      }

      attach_mapped_listener-eq :
          ctx.session.self ≡ w
          → get_elem? (listener_storage m.waitable_type w) m.storage_index ≡ some d
          → (port.attach_notification d.listener ctx.session.world).0 ≡ some g
          → attach_mapped_listener m ctx ≡ (ok new, moved)
      unfolding attach_mapped_listener
      attach_mapped_listener-eq same stored made = ground (arith, same, stored, made)

      add_attachment-Tracks :
          (ms : List RmwMapping)
          → Tracks ms ctx
          → get_elem? (listener_storage m.waitable_type w) m.storage_index ≡ some d
          → (port.attach_notification d.listener ctx.session.world).0 ≡ some g
          → IsAttached g d.listener moved.session.world
          → Tracks (ms ++ m ∷ []) (add_attachment new moved).1
      add_attachment-Tracks ms v stored made attached = record {
        same = v.same;
        no_timeout = v.no_timeout;
        no_result = v.no_result;
        listed = mappings_of-append ctx.attached_listeners (new ∷ []) ∙ rw (v.listed) refl;
        held =
            All-append (IsHeld moved.session.world) ctx.attached_listeners (new ∷ [])
              (All-imp (IsHeld ctx.session.world) (IsHeld moved.session.world)
                ctx.attached_listeners
                (λ a (e, at, h).
                  (e, at, events.keeps_attached a.attached e.listener d.listener _ h))
                v.held)
              ((d, stored, attached), tt);
        found =
            All-append
              (λ a. find_attachment (id_of a) (ctx.attached_listeners ++ new ∷ []) ≡ some a)
              ctx.attached_listeners (new ∷ [])
              (All-imp _ _ ctx.attached_listeners
                (λ a f. find_attachment-append_some (id_of a) ctx.attached_listeners (new ∷ []) a f)
                v.found)
              (
                find_attachment-append_new new ctx.attached_listeners (
                    All-imp (IsHeld ctx.session.world) _ ctx.attached_listeners
                      (λ a (e, at, h).
                        events.own_id a.attached g e.listener d.listener ctx.session.world h made)
                      v.held),
                tt,
              );
        pending = events.keeps_pending l d.listener ctx.session.world v.pending;
      }

    -- Every stored listener that is mapped is attached.
    abbrev pub AttachesAll :
        List RmwMapping → Expected WaitSetError (Unit {0}) × WaitContext port → Type 0
    AttachesAll ms r = (r.0 ≡ ok tt) × Tracks ms r.1

    pub attach_mapped_listeners-AttachesAll :
        (before ms : List RmwMapping) (ctx : WaitContext port)
        → All (IsStored w) ms
        → Tracks before ctx
        → AttachesAll (before ++ ms) (attach_mapped_listeners ms ctx)
    unfolding attach_mapped_listeners
    attach_mapped_listeners-AttachesAll before [] ctx stored v =
        subst (λ ms. AttachesAll ms (attach_mapped_listeners [] ctx)) (sym (append-nil before))
          (refl, v)
    attach_mapped_listeners-AttachesAll before (m ∷ ms) ctx stored v =
        let (d, at) =
          get_elem?-is_some (listener_storage m.waitable_type w) m.storage_index stored.0 in
        let (g, made, attached) = events.attaches d.listener ctx.session.world in
        subst (λ all. AttachesAll all (attach_mapped_listeners (m ∷ ms) ctx))
          (append_assoc before (m ∷ []) ms)
          (rw (attach_mapped_listener-eq m ctx g d v.same at made) (
            attach_mapped_listeners-AttachesAll (before ++ m ∷ []) ms
              (add_attachment (new m ctx g d) (moved m ctx g d)).1 stored.1
              (add_attachment-Tracks m ctx g d before v at made attached)))
