-- ===== src/Rmw/Wait/Wakes.antt =====
-- `rmw_wait` over an entry on whose listener an event is pending.
use rmw_iceoryx.WaitSet.Waiting.Triggers.{Among}
use rmw_iceoryx.WaitSet.Indices.{HasIndex}
use rmw_iceoryx.Rmw.Wait.Reports.{HasReady, rmw_wait-HasReady, All-Among}
use rmw_iceoryx.Common.{
  List, [], none, some, ok, ℕ, ◌∷◌, ◌≡◌, refl, arith, true, sym, subst, is_some, All, eq_refl, inl,
  inr, ◌<◌, ◌∙◌, ◌≢◌, ap, Bool, false, ◌||◌,
}
use mathlib.Core.Option
use rmw_iceoryx.Rmw.Ensure.{is_own}
use rmw_iceoryx.WaitSet.{
  WaitSetPort, WaitableEntity, Session, ListenerDetails, is_mapped, guard_condition, subscriber,
  RmwMapping,
}
use rmw_iceoryx.WaitSet.Mapping.{IsValid, same_entity_refl}
use rmw_iceoryx.WaitSet.Waiting.{TriggeredWaitable, wait, triggered}
use rmw_iceoryx.WaitSet.Waiting.Events.{Events, IsOneOf}
use rmw_iceoryx.WaitSet.Waiting.Wakes.{wait-IsWoken}
use rmw_iceoryx.WaitSet.Waiting.Mapped.{Among-is_mapped}
use rmw_iceoryx.Rmw.Wait.{
  Waiter, WaitSetHandle, all_given, map_array, map_guard_conditions, map_subscriptions,
  wait_and_finish, wait_on, rmw_wait, after_wait, is_triggered,
}
use rmw_iceoryx.Rmw.Wait.Entries.{entry, array_of, after_wait-entry, kept, is_empty}
use rmw_iceoryx.Rmw.Wait.Mappings.{mapped-IsValid}
use rmw_iceoryx.Rmw.Wait.Listening.{
  IsListening, IsKept, map_array-IsKept, map_array-maps, HasFirst, HasIndices, map_array-HasIndices,
}

or_true : (b : Bool) → (b || true) ≡ true
or_true true = refl
or_true false = refl

-- A waitable that is among the triggered ones.
IsOneOf-is_triggered :
    (m : RmwMapping) (ts : List TriggeredWaitable)
    → IsOneOf (triggered m) ts
    → is_triggered m.waitable_type m.rmw_index ts ≡ true
unfolding is_triggered
IsOneOf-is_triggered m [] one = absurd one
IsOneOf-is_triggered m (t ∷ ts) (inl same) =
    ground (arith, same, same_entity_refl m.waitable_type, eq_refl m.rmw_index)
IsOneOf-is_triggered m (t ∷ ts) (inr later) = ground (arith, IsOneOf-is_triggered m ts later)

module _ {port : WaitSetPort} (events : Events port) (service_name : ℕ → List ℕ)
    (e : WaitableEntity) (p j : ℕ) (d : ListenerDetails port.Listener) where
  finished-ok :
      (v : Waiter port) (s : Session port) (t : TriggeredWaitable) (ts : List TriggeredWaitable)
      → (wait none s).0 ≡ ok ts
      → IsOneOf t ts
      → (wait_and_finish none (record v { session = s })).0 ≡ ok tt
  unfolding wait_and_finish
  finished-ok v s t [] done one = absurd one
  finished-ok v s t (u ∷ us) done one = ground (arith, done)

  finished-arrays :
      (v : Waiter port) (s : Session port) (ts : List TriggeredWaitable)
      → (wait none s).0 ≡ ok ts
      → (wait_and_finish none (record v { session = s })).1.arrays ≡ after_wait ts v.arrays
  unfolding wait_and_finish
  finished-arrays v s ts done = ground (arith, done)

  IsValid-unmapped : (s : Session port) → s.mapping ≡ [] → IsValid s.self
  IsValid-unmapped s none_mapped = record {
    in_range = rw none_mapped tt;
    distinct = rw none_mapped tt;
  }

  module _ (v : Waiter port) (i : ℕ) (listening : IsListening events service_name e p j d v.session)
      (none_mapped : v.session.mapping ≡ []) (guards : all_given v.arrays.guard_conditions ≡ true)
      (subscribers : all_given v.arrays.subscribers ≡ true)
      (at : entry e v.arrays i ≡ some (some (some p))) where
    abbrev guarded : Session port
    guarded = (map_array service_name guard_condition v.arrays.guard_conditions v.session).1

    abbrev subscribed : Session port
    subscribed = (map_array service_name subscriber v.arrays.subscribers guarded).1

    guarded-IsKept :
        IsKept events service_name e p j d v.session
          (map_array service_name guard_condition v.arrays.guard_conditions v.session)
    guarded-IsKept =
        map_array-IsKept events service_name e p j d guard_condition v.arrays.guard_conditions
          v.session guards listening

    subscribed-IsKept :
        IsKept events service_name e p j d guarded
          (map_array service_name subscriber v.arrays.subscribers guarded)
    subscribed-IsKept =
        map_array-IsKept events service_name e p j d subscriber v.arrays.subscribers guarded
          subscribers guarded-IsKept.1

    subscribed-IsValid : IsValid subscribed.self
    subscribed-IsValid = mapped-IsValid service_name subscriber v.arrays.subscribers guarded (
        mapped-IsValid service_name guard_condition v.arrays.guard_conditions v.session
          (IsValid-unmapped v.session none_mapped))

    -- The wait ends with the waitable of the listener among the triggered ones.
    subscribed-IsWoken :
        is_mapped e j subscribed.mapping ≡ true
        → (m : RmwMapping) × (ts : List TriggeredWaitable) × Among m subscribed.mapping
          × (m.waitable_type ≡ e)
          × (m.storage_index ≡ j)
          × ((wait none subscribed).0 ≡ ok ts)
          × IsOneOf (triggered m) ts
    subscribed-IsWoken mapped =
        let (m, among, is_e, at_j) = Among-is_mapped e j subscribed.mapping mapped in
        let (ts, done, one) =
          wait-IsWoken events subscribed m d subscribed-IsValid among
            (rw (is_e, at_j) subscribed-IsKept.1.stored) subscribed-IsKept.1.pending in
        (m, ts, among, is_e, at_j, done, one)

    given : (f : WaitableEntity) → all_given (array_of f v.arrays) ≡ true
    given subscriber = subscribers
    given guard_condition = guards

    array-is_mapped :
        (f : WaitableEntity) (s : Session port)
        → f ≡ e
        → IsListening events service_name e p j d s
        → is_mapped e j (map_array service_name f (array_of f v.arrays) s).1.mapping ≡ true
    array-is_mapped f s same h =
        subst
          (λ f. is_mapped e j (map_array service_name f (array_of f v.arrays) s).1.mapping ≡ true)
          (sym same)
          (map_array-maps events service_name e p j d i (array_of e v.arrays) s (given e) at h)

    subscribed-is_mapped : (f : WaitableEntity) → f ≡ e → is_mapped e j subscribed.mapping ≡ true
    subscribed-is_mapped guard_condition same =
        subscribed-IsKept.2 e j (array-is_mapped guard_condition v.session same listening)
    subscribed-is_mapped subscriber same = array-is_mapped subscriber guarded same guarded-IsKept.1

    wait_on-finish :
        wait_on service_name none v ≡ wait_and_finish none (record v { session = subscribed })
    unfolding wait_on map_guard_conditions map_subscriptions
    wait_on-finish = ground (arith, guarded-IsKept.0, subscribed-IsKept.0)

    wait_checked :
        (h : WaitSetHandle)
        → is_own h.implementation_identifier ≡ true
        → is_some h.impl ≡ true
        → rmw_wait service_name (some h) none v ≡ wait_on service_name none v
    unfolding rmw_wait
    wait_checked h own in_place = ground (arith, own, in_place, guards, subscribers)

    -- Without a timeout, a wait over arrays with no null entry returns RMW_RET_OK if an event is
    -- pending on the listener of one of their entries, and leaves some entry for the caller to
    -- serve. The handle is of this implementation, with its wait set in place; nothing is mapped
    -- before; the entry's listener is stored from an earlier wait; and iceoryx2 opens services,
    -- creates and attaches listeners, and reports pending events.
    pub rmw_wait-wakes :
        (h : WaitSetHandle)
        → is_own h.implementation_identifier ≡ true
        → is_some h.impl ≡ true
        → ((rmw_wait service_name (some h) none v).0 ≡ ok tt)
          × HasReady (rmw_wait service_name (some h) none v).1.arrays
    rmw_wait-wakes h own in_place =
        let (m, ts, _, _, _, woken, one) = subscribed-IsWoken (subscribed-is_mapped e refl) in
        let done : (rmw_wait service_name (some h) none v).0 ≡ ok tt =
          ap (λ r. r.0) (wait_checked h own in_place ∙ wait_on-finish)
          ∙ finished-ok v subscribed (triggered m) ts woken one in
        (done, rmw_wait-HasReady service_name (some h) none v none_mapped done)

    module _
        (first : (u q : ℕ)
          → u < i
          → entry e v.arrays u ≡ some (some (some q))
          → service_name q ≢ service_name p) where
      HasFirst-array :
          (f : WaitableEntity) → HasFirst events service_name e p j d i f (array_of f v.arrays)
      HasFirst-array f same =
          subst
            (λ f.
              (entry f v.arrays i ≡ some (some (some p)))
              × ((u q : ℕ)
                  → u < i
                  → entry f v.arrays u ≡ some (some (some q))
                  → service_name q ≢ service_name p))
            (sym same) (at, first)

      subscribed-HasIndices : HasIndices events service_name e p j d i subscribed
      subscribed-HasIndices =
          map_array-HasIndices events service_name e p j d i subscriber v.arrays.subscribers guarded
            subscribers (HasFirst-array subscriber) guarded-IsKept.1
            (map_array-HasIndices events service_name e p j d i guard_condition
              v.arrays.guard_conditions v.session guards (HasFirst-array guard_condition) listening
              (subst (All (HasIndex e j i)) (sym none_mapped) tt))

      -- Without a timeout, a wait over arrays with no null entry returns RMW_RET_OK if an event is
      -- pending on the listener of one of their entries, and leaves that entry for the caller to
      -- serve if it is the first of its array for its service. The handle is of this
      -- implementation, with its wait set in place; nothing is mapped before; the listener of the
      -- entry is stored from an earlier wait; and iceoryx2 opens services, creates and attaches
      -- listeners, and reports pending events.
      pub rmw_wait_leaves :
          (h : WaitSetHandle)
          → is_own h.implementation_identifier ≡ true
          → is_some h.impl ≡ true
          → ((rmw_wait service_name (some h) none v).0 ≡ ok tt)
            × (entry e (rmw_wait service_name (some h) none v).1.arrays i ≡ some (some (some p)))
      rmw_wait_leaves h own in_place =
          let (m, ts, among, is_e, at_j, woken, one) =
            subscribed-IsWoken (subscribed-is_mapped e refl) in
          let runs = wait_checked h own in_place ∙ wait_on-finish in
          let index : m.rmw_index ≡ i =
            All-Among (HasIndex e j i) m subscribed.mapping among subscribed-HasIndices
              (rw (is_e, at_j, same_entity_refl e, eq_refl j) refl) in
          let hit : is_triggered e i ts ≡ true =
            subst (λ f. is_triggered f i ts ≡ true) is_e
              (subst (λ n. is_triggered m.waitable_type n ts ≡ true) index
                (IsOneOf-is_triggered m ts one)) in
          (
            (rmw_wait-wakes h own in_place).0,
            ap (λ r. entry e r.1.arrays i) runs
                ∙ (ap (λ a. entry e a i) (finished-arrays v subscribed ts woken)
                    ∙ (after_wait-entry ts v.arrays e i
                        ∙ (ap (λ b. Option.map (kept b) (entry e v.arrays i))
                              (ap (λ b. is_empty ts || b) hit ∙ or_true (is_empty ts))
                            ∙ ap (Option.map (kept true)) at))),
          )
