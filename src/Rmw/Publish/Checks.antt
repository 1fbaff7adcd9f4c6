-- ===== src/Rmw/Publish/Checks.antt =====
-- Arguments that a publisher function refuses.
use rmw_iceoryx.Common.{refl, ◌≡◌, err, arith, ℕ, Option, none, some, false}
use rmw_iceoryx.Errors.{RetCode}
use rmw_iceoryx.Message.{TypeSupport}
use rmw_iceoryx.Publisher.{PublisherPort, Session}
use rmw_iceoryx.Rmw.Ensure.{is_own, RefusesCleanly, IsCleanAt, clean_at}
use rmw_iceoryx.Rmw.Serialize.{SerializedMessage}
use rmw_iceoryx.Rmw.Publish.{
  PublisherHandle, rmw_publish, rmw_borrow_loaned_message, rmw_return_loaned_message_from_publisher,
  rmw_publish_loaned_message, rmw_publish_serialized_message, publish_serialized,
  publish_unserialized,
}

module _ {port : PublisherPort} where
  open port use {Message}

  publish_serialized-fails :
      (m : Message) (s : Session port) (c : RetCode)
      → (publish_serialized m s).0 ≡ err c
      → c ≡ RetCode.error
  unfolding publish_serialized
  publish_serialized-fails m s c e = ground arith

  publish_unserialized-fails :
      (m : Message) (s : Session port) (c : RetCode)
      → (publish_unserialized m s).0 ≡ err c
      → c ≡ RetCode.error
  unfolding publish_unserialized
  publish_unserialized-fails m s c e = ground arith

  rmw_publish-RefusesCleanly :
      (h : Option PublisherHandle) (msg : Option Message)
      → RefusesCleanly (rmw_publish {port = port} h msg)
  unfolding rmw_publish
  rmw_publish-RefusesCleanly none msg s c e n = refl
  rmw_publish-RefusesCleanly (some h) none s c e n = ground arith
  rmw_publish-RefusesCleanly (some h) (some m) s c e n =
      ground (arith, publish_serialized-fails m s c, publish_unserialized-fails m s c)

  rmw_borrow-RefusesCleanly :
      (h : Option PublisherHandle) (ts : Option (TypeSupport Message)) (out : Option (Option ℕ))
      → RefusesCleanly (rmw_borrow_loaned_message {port = port} h ts out)
  unfolding rmw_borrow_loaned_message
  rmw_borrow-RefusesCleanly h ts out s c e n = ground arith

  rmw_return-RefusesCleanly :
      (h : Option PublisherHandle) (p : Option ℕ)
      → RefusesCleanly (rmw_return_loaned_message_from_publisher {port = port} h p)
  unfolding rmw_return_loaned_message_from_publisher
  rmw_return-RefusesCleanly h p s c e n = ground arith

  rmw_publish_loaned-RefusesCleanly :
      (h : Option PublisherHandle) (p : Option ℕ)
      → RefusesCleanly (rmw_publish_loaned_message {port = port} h p)
  unfolding rmw_publish_loaned_message
  rmw_publish_loaned-RefusesCleanly h p s c e n = ground arith

  rmw_publish_serialized-RefusesCleanly :
      (h : Option PublisherHandle) (m : Option SerializedMessage)
      → RefusesCleanly (rmw_publish_serialized_message {port = port} h m)
  unfolding rmw_publish_serialized_message
  rmw_publish_serialized-RefusesCleanly h m s c e n = ground arith

  -- Whatever the arguments, a function that publishes, borrows or returns and fails with a code
  -- other than RMW_RET_ERROR leaves the publisher, its loans and the middleware as before.
  pub publisher_functions_clean :
      (h : Option PublisherHandle) (msg : Option Message) (p : Option ℕ)
      (ts : Option (TypeSupport Message)) (out : Option (Option ℕ)) (m : Option SerializedMessage)
      (s : Session port)
      → IsCleanAt s (rmw_publish h msg s)
        × IsCleanAt s (rmw_borrow_loaned_message h ts out s)
        × IsCleanAt s (rmw_return_loaned_message_from_publisher h p s)
        × IsCleanAt s (rmw_publish_loaned_message h p s)
        × IsCleanAt s (rmw_publish_serialized_message h m s)
  publisher_functions_clean h msg p ts out m s = (
    clean_at (rmw_publish h msg) s (rmw_publish-RefusesCleanly h msg),
    clean_at (rmw_borrow_loaned_message h ts out) s (rmw_borrow-RefusesCleanly h ts out),
    clean_at (rmw_return_loaned_message_from_publisher h p) s (rmw_return-RefusesCleanly h p),
    clean_at (rmw_publish_loaned_message h p) s (rmw_publish_loaned-RefusesCleanly h p),
    clean_at (rmw_publish_serialized_message h m) s (rmw_publish_serialized-RefusesCleanly h m),
  )

  -- A null or foreign publisher is refused by the functions that publish, with the code for it.
  pub publish-wrong_handle :
      (h : PublisherHandle) (msg : Option Message) (p : Option ℕ) (s : Session port)
      → is_own h.implementation_identifier ≡ false
      → (rmw_publish none msg s ≡ (err RetCode.invalid_argument, s))
        × (rmw_publish (some h) msg s ≡ (err RetCode.incorrect_rmw_implementation, s))
        × (rmw_publish_loaned_message none p s ≡ (err RetCode.invalid_argument, s))
        × (rmw_publish_loaned_message (some h) p s ≡ (err RetCode.incorrect_rmw_implementation, s))
  unfolding rmw_publish rmw_publish_loaned_message
  publish-wrong_handle h msg p s e = ground arith
