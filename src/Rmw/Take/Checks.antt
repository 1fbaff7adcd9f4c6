-- ===== src/Rmw/Take/Checks.antt =====
-- Arguments that a subscription function refuses.
use rmw_iceoryx.Common.{Bool, Option, arith, err, none, refl, some, ℕ, ◌≡◌, inr}
use rmw_iceoryx.Errors.{RetCode}
use rmw_iceoryx.Subscriber.{SubscriberPort}
use rmw_iceoryx.Rmw.Ensure.{RefusesCleanly, IsCleanAt, clean_at}
use rmw_iceoryx.Rmw.Serialize.{SerializedMessage}
use rmw_iceoryx.Rmw.Take.{
  SubscriptionHandle, Caller, take_unserialized, take_serialized, rmw_take, rmw_take_with_info,
  rmw_take_loaned_message, rmw_return_loaned_message_from_subscription, rmw_take_serialized_message,
  rmw_take_loaned_message_with_info, rmw_take_sequence, rmw_take_serialized_message_with_info,
}

module _ {port : SubscriberPort} where
  take_unserialized-fails :
      (c : Caller port) (code : RetCode) → (take_unserialized c).0 ≡ err code → code ≡ RetCode.error
  unfolding take_unserialized
  take_unserialized-fails c code e = ground arith

  take_serialized-fails :
      (c : Caller port) (code : RetCode) → (take_serialized c).0 ≡ err code → code ≡ RetCode.error
  unfolding take_serialized
  take_serialized-fails c code e = ground arith

  rmw_take-RefusesCleanly :
      (h : Option SubscriptionHandle) (m t : Bool) → RefusesCleanly (rmw_take {port = port} h m t)
  unfolding rmw_take
  rmw_take-RefusesCleanly none m t c code e n = refl
  rmw_take-RefusesCleanly (some h) m t c code e n =
      ground (arith, take_unserialized-fails c code, take_serialized-fails c code)

  rmw_take_with_info-RefusesCleanly :
      (h : Option SubscriptionHandle) (m t i : Bool)
      → RefusesCleanly (rmw_take_with_info {port = port} h m t i)
  unfolding rmw_take_with_info
  rmw_take_with_info-RefusesCleanly h m t i c code e n =
      ground (arith, rmw_take-RefusesCleanly h m t c code)

  rmw_take_loaned-RefusesCleanly :
      (h : Option SubscriptionHandle) (l t : Bool)
      → RefusesCleanly (rmw_take_loaned_message {port = port} h l t)
  unfolding rmw_take_loaned_message
  rmw_take_loaned-RefusesCleanly h l t c code e n = ground arith

  rmw_return-RefusesCleanly :
      (h : Option SubscriptionHandle) (p : Option ℕ)
      → RefusesCleanly (rmw_return_loaned_message_from_subscription {port = port} h p)
  unfolding rmw_return_loaned_message_from_subscription
  rmw_return-RefusesCleanly h p c code e n = ground arith

  rmw_take_serialized-RefusesCleanly :
      (resize : SerializedMessage → ℕ → Option SerializedMessage) (h : Option SubscriptionHandle)
      (m t : Bool)
      → RefusesCleanly (rmw_take_serialized_message {port = port} resize h m t)
  unfolding rmw_take_serialized_message
  rmw_take_serialized-RefusesCleanly resize h m t c code e n = ground arith

  rmw_take_loaned_with_info-RefusesCleanly :
      (h : Option SubscriptionHandle) (l t : Bool)
      → RefusesCleanly (rmw_take_loaned_message_with_info {port = port} h l t)
  unfolding rmw_take_loaned_message_with_info
  rmw_take_loaned_with_info-RefusesCleanly h l t c code e n =
      ground (arith, rmw_take_loaned-RefusesCleanly h l t c code)

  rmw_take_sequence_self :
      (h : Option SubscriptionHandle) (count : ℕ) (messages infos : Option ℕ) (t : Bool)
      (c : Caller port)
      → (rmw_take_sequence h count messages infos t c).1 ≡ c
  unfolding rmw_take_sequence
  rmw_take_sequence_self h count messages infos t c = ground arith

  rmw_take_serialized_with_info_self :
      (h : Option SubscriptionHandle) (m t i : Bool) (c : Caller port)
      → (rmw_take_serialized_message_with_info h m t i c).1 ≡ c
  unfolding rmw_take_serialized_message_with_info
  rmw_take_serialized_with_info_self h m t i c = ground arith

  -- Whatever the arguments, rmw_take, rmw_take_sequence, rmw_take_loaned_message,
  -- rmw_take_serialized_message, each of their variants with info, and the return of a loaned
  -- message, if they fail with a code other than RMW_RET_ERROR, leave the subscriber, its loans,
  -- the middleware and the memory of the caller as before.
  pub subscription_functions_clean :
      (h : Option SubscriptionHandle) (m t i l : Bool) (p : Option ℕ)
      (resize : SerializedMessage → ℕ → Option SerializedMessage) (count : ℕ)
      (messages infos : Option ℕ) (c : Caller port)
      → IsCleanAt c (rmw_take h m t c)
        × IsCleanAt c (rmw_take_with_info h m t i c)
        × IsCleanAt c (rmw_take_sequence h count messages infos t c)
        × IsCleanAt c (rmw_take_loaned_message h l t c)
        × IsCleanAt c (rmw_take_loaned_message_with_info h l t c)
        × IsCleanAt c (rmw_return_loaned_message_from_subscription h p c)
        × IsCleanAt c (rmw_take_serialized_message resize h m t c)
        × IsCleanAt c (rmw_take_serialized_message_with_info h m t i c)
  subscription_functions_clean h m t i l p resize count messages infos c = (
    clean_at (rmw_take h m t) c (rmw_take-RefusesCleanly h m t),
    clean_at (rmw_take_with_info h m t i) c (rmw_take_with_info-RefusesCleanly h m t i),
    inr (rmw_take_sequence_self h count messages infos t c),
    clean_at (rmw_take_loaned_message h l t) c (rmw_take_loaned-RefusesCleanly h l t),
    clean_at (rmw_take_loaned_message_with_info h l t) c
        (rmw_take_loaned_with_info-RefusesCleanly h l t),
    clean_at (rmw_return_loaned_message_from_subscription h p) c (rmw_return-RefusesCleanly h p),
    clean_at (rmw_take_serialized_message resize h m t) c
        (rmw_take_serialized-RefusesCleanly resize h m t),
    inr (rmw_take_serialized_with_info_self h m t i c),
  )
