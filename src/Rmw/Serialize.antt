-- ===== src/Rmw/Serialize.antt =====
-- src/rmw/serialize.cpp. A serialized message is its buffer's content, as long as the capacity,
-- and the length in use.
use rmw_iceoryx.Common.{
  ℕ, Option, none, some, List, length, Expected, ok, err, ◌≡◌, drop, ◌++◌, arith, Option-cases, inl,
  inr, [], ◌∷◌,
}
use rmw_iceoryx.Errors.{RetCode}
use rmw_iceoryx.Message.{Callbacks, TypeSupport}
use rmw_iceoryx.Subscriber.{memcpy}

pub record SerializedMessage : Type 0 where
  pub buffer : List ℕ
  pub buffer_length : ℕ

-- "iceoryx2"
abbrev pub rmw_get_serialization_format : List ℕ
rmw_get_serialization_format = 105 ∷ 99 ∷ 101 ∷ 111 ∷ 114 ∷ 121 ∷ 120 ∷ 50 ∷ []

abbrev pub rmw_serialization_support_init : Expected RetCode (Unit {0})
rmw_serialization_support_init = err RetCode.unsupported

written : SerializedMessage → Option (List ℕ) → Expected RetCode SerializedMessage
written m none = err RetCode.error
written m (some bytes) =
    ok (record { buffer = memcpy m.buffer bytes; buffer_length = length bytes })

module _ {Message : Type 0} where
  serialize_with :
      Option (Option (Callbacks Message))
      → Message
      → SerializedMessage
      → Expected RetCode SerializedMessage
  unfolding written
  serialize_with none msg m = err RetCode.error
  serialize_with (some none) msg m = err RetCode.error
  serialize_with (some (some callbacks)) msg m =
      written m (callbacks.cdr_serialize msg (length m.buffer))

  -- What an exception has written to the buffer before is not modelled.
  unfoldable pub rmw_serialize :
      Option Message
      → Option (TypeSupport Message)
      → Option SerializedMessage
      → Expected RetCode SerializedMessage
  unfolding serialize_with
  rmw_serialize none ts m = err RetCode.invalid_argument
  rmw_serialize (some msg) none m = err RetCode.invalid_argument
  rmw_serialize (some msg) (some ts) none = err RetCode.invalid_argument
  rmw_serialize (some msg) (some ts) (some m) = serialize_with ts.fastrtps msg m

  parsed : Option Message → Expected RetCode Message
  parsed none = err RetCode.error
  parsed (some msg) = ok msg

  deserialize_with :
      Option (Option (Callbacks Message)) → SerializedMessage → Expected RetCode Message
  unfolding parsed
  deserialize_with none m = err RetCode.error
  deserialize_with (some none) m = err RetCode.error
  deserialize_with (some (some callbacks)) m = parsed (callbacks.cdr_deserialize m.buffer)

  -- The whole buffer is read, whatever its length in use. The result is written to `ros_message`,
  -- which is only checked.
  unfoldable pub rmw_deserialize :
      Option SerializedMessage
      → Option (TypeSupport Message)
      → Option Message
      → Expected RetCode Message
  unfolding deserialize_with
  rmw_deserialize m ts none = err RetCode.invalid_argument
  rmw_deserialize m none (some msg) = err RetCode.invalid_argument
  rmw_deserialize none (some ts) (some msg) = err RetCode.invalid_argument
  rmw_deserialize (some m) (some ts) (some msg) = deserialize_with ts.fastrtps m

  -- A message that fits is read back as it was from the buffer that it was written to, if the
  -- callbacks read back what they wrote, whatever bytes follow it.
  pub rmw_deserialize-rmw_serialize :
      (ts : TypeSupport Message) (callbacks : Callbacks Message) (msg old : Message)
      (m m' : SerializedMessage)
      → ts.fastrtps ≡ some (some callbacks)
      → ((bytes rest : List ℕ)
          → callbacks.cdr_serialize msg (length m.buffer) ≡ some bytes
          → callbacks.cdr_deserialize (bytes ++ rest) ≡ some msg)
      → rmw_serialize (some msg) (some ts) (some m) ≡ ok m'
      → rmw_deserialize (some m') (some ts) (some old) ≡ ok msg
  unfolding rmw_serialize rmw_deserialize memcpy
  rmw_deserialize-rmw_serialize ts callbacks msg old m m' e readable h =
      elim (Option-cases (callbacks.cdr_serialize msg (length m.buffer))) [
        | inl f ↦ absurd (ground (arith, e, f, h))
        | inr (bytes, f) ↦ ground (arith, e, f, h, readable bytes (drop (length bytes) m.buffer))
      ]
