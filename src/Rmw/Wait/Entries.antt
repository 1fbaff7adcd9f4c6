-- ===== src/Rmw/Wait/Entries.antt =====
-- The arrays after the triggers were processed, entry by entry.

use rmw_iceoryx.Rmw.Wait.{null_others, is_triggered, Arrays, after_wait, Handles}
use mathlib.Core.Option
use rmw_iceoryx.WaitSet.{WaitableEntity, guard_condition, subscriber}
use rmw_iceoryx.WaitSet.Waiting.{TriggeredWaitable, triggered}
use rmw_iceoryx.Common.{
  Bool, List, Option, [], arith, get_elem?, if◌then◌else◌, none, refl, some, suc, ℕ, ◌+◌, ◌∷◌, ◌≡◌,
  zero, ◌||◌, ap, false, sym, true, ◌∙◌,
}

-- The entry of an array after the others were set to null.
abbrev pub kept : Bool → Option (Option ℕ) → Option (Option ℕ)
kept triggered none = none
kept triggered (some h) = some (if triggered then h else none)

null_others-get :
    (e : WaitableEntity) (ts : List TriggeredWaitable) (k i : ℕ) (hs : List (Option ℕ))
    → get_elem? (null_others e ts k hs) i ≡ kept (is_triggered e (k + i) ts) (get_elem? hs i)
unfolding null_others
null_others-get e ts k i [] = refl
null_others-get e ts k zero (h ∷ hs) = let z : k + 0 ≡ k = omega arith in rw z refl
null_others-get e ts k (suc i) (h ∷ hs) =
    let z : k + suc i ≡ suc k + i = omega arith in rw z (null_others-get e ts (suc k) i hs)

abbrev pub array_of : WaitableEntity → Arrays → Handles
array_of subscriber a = a.subscribers
array_of guard_condition a = a.guard_conditions

abbrev pub entry : WaitableEntity → Arrays → ℕ → Option (Option (Option ℕ))
entry e a i = Option.map (λ hs. get_elem? hs i) (array_of e a)

kept-true : (o : Option (Option (Option ℕ))) → Option.map (kept true) o ≡ o
kept-true none = refl
kept-true (some none) = refl
kept-true (some (some h)) = refl

nulled-entry :
    (e : WaitableEntity) (ts : List TriggeredWaitable) (hs : Handles) (i : ℕ)
    → Option.map (λ hs. get_elem? hs i) (Option.map (null_others e ts 0) hs)
      ≡ Option.map (kept (is_triggered e i ts)) (Option.map (λ hs. get_elem? hs i) hs)
nulled-entry e ts none i = refl
nulled-entry e ts (some hs) i =
    let z : 0 + i ≡ i = omega arith in
    ap some (null_others-get e ts 0 i hs ∙ ap (λ n. kept (is_triggered e n ts) (get_elem? hs i)) z)

abbrev pub is_empty : List TriggeredWaitable → Bool
is_empty [] = true
is_empty (t ∷ ts) = false

-- An array keeps its length. With no trigger its entries stay as they are, and otherwise entry `i`
-- stays if and only if a trigger of its kind has index `i`, and is null if not.
pub after_wait-entry :
    (ts : List TriggeredWaitable) (a : Arrays) (e : WaitableEntity) (i : ℕ)
    → entry e (after_wait ts a) i
      ≡ Option.map (kept (is_empty ts || is_triggered e i ts)) (entry e a i)
unfolding after_wait
after_wait-entry [] a subscriber i = sym (kept-true (entry subscriber a i))
after_wait-entry [] a guard_condition i = sym (kept-true (entry guard_condition a i))
after_wait-entry (t ∷ ts) a subscriber i = nulled-entry subscriber (t ∷ ts) a.subscribers i
after_wait-entry (t ∷ ts) a guard_condition i =
    nulled-entry guard_condition (t ∷ ts) a.guard_conditions i
