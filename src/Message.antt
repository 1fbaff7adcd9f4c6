-- ===== src/Message.antt =====
-- include/rmw_iceoryx2_cxx/impl/message/introspection.hpp and src/impl/message/introspection.cpp.
-- The members of a message type are a tree: a member of message type leads to the members of that
-- type, or to a null pointer on the way. The C and the C++ descriptions have the same shape and the
-- same functions. The numbers of the field types are rosidl's, a parameter.
pub mod SelfContained
use rmw_iceoryx.Common.{
  ℕ, ◌+◌, ◌%◌, ◌^◌, Bool, true, false, not, ◌&&◌, ◌||◌, Option, none, some, List, ltb, ◌==◌,
  if◌then◌else◌,
}

-- `ROS_TYPE_MESSAGE` and `ROS_TYPE_STRING`
pub record FieldTypes : Type 0 where
  pub ros_type_message : ℕ
  pub ros_type_string : ℕ

-- The fields of a `MessageMember` that the program reads, but the nested type support.
pub record MemberInfo : Type 0 where
  pub type_id : ℕ
  pub is_array : Bool
  pub array_size : ℕ
  pub is_upper_bound : Bool

mutual
  pub data MessageMembers : Type 0 where
    members : ℕ → MemberList → MessageMembers

  pub data MemberList : Type 0 where
    nil : MemberList
    cons : MemberInfo → Nested → MemberList → MemberList

  -- `members_`, which may be null, and its `data`, which may be null
  pub data Nested : Type 0 where
    null_support null_data : Nested
    nested : MessageMembers → Nested

unfoldable pub size_of : MessageMembers → ℕ
size_of (members size ms) = size

module _ (types : FieldTypes) where
  open types use {ros_type_message, ros_type_string}

  unfoldable pub is_message : MemberInfo → Bool
  is_message member = member.type_id == ros_type_message

  unfoldable pub is_dynamic_string : MemberInfo → Bool
  is_dynamic_string member = member.type_id == ros_type_string

unfoldable pub is_fixed_array : MemberInfo → Bool
is_fixed_array member = member.is_array && ltb 0 member.array_size && not member.is_upper_bound

unfoldable pub is_dynamic_array : MemberInfo → Bool
is_dynamic_array member = member.is_array && (member.array_size == 0 || member.is_upper_bound)

-- The loop over the members, with its early returns, and the recursion into nested messages.
unfoldable mutual
  unfolding is_dynamic_array is_dynamic_string is_message

  pub is_pod_members : FieldTypes → MessageMembers → Bool
  is_pod_members types (members size ms) = is_pod_list types ms

  pub is_pod_list : FieldTypes → MemberList → Bool
  is_pod_list types nil = true
  is_pod_list types (cons member below ms) =
      if is_dynamic_array member || is_dynamic_string types member
      then false
      else if is_message types member && not (is_pod_nested types below)
      then false
      else is_pod_list types ms

  pub is_pod_nested : FieldTypes → Nested → Bool
  is_pod_nested types null_support = false
  is_pod_nested types null_data = false
  is_pod_nested types (nested ms) = is_pod_members types ms

-- The serialization callbacks of rosidl_typesupport_fastrtps_cpp, by the message in memory.
pub record Callbacks (Message : Type 0) : Type 0 where
  pub get_serialized_size : Message → ℕ
  -- The bytes written to a buffer of a capacity; `none` is an exception.
  pub cdr_serialize : Message → ℕ → Option (List ℕ)
  pub cdr_deserialize : List ℕ → Option Message

-- `rosidl_message_type_support_t`, by what `get_message_typesupport_handle` finds for the three
-- identifiers that the program asks for. The `data` of an introspection handle is not null here;
-- that of a fastrtps handle may be.
pub record TypeSupport (Message : Type 0) : Type 0 where
  pub has_data : Bool
  pub introspection_cpp : Option MessageMembers
  pub introspection_c : Option MessageMembers
  pub fastrtps : Option (Option (Callbacks Message))

pub is_pod_pointer : FieldTypes → Option MessageMembers → Bool
unfolding is_pod_members
is_pod_pointer types none = false
is_pod_pointer types (some ms) = is_pod_members types ms

size_or : Option MessageMembers → ℕ → ℕ
unfolding size_of
size_or none n = n
size_or (some ms) n = size_of ms

module _ {Message : Type 0} where
  -- Only the C++ description is asked for.
  unfoldable pub is_pod : FieldTypes → TypeSupport Message → Bool
  unfolding is_pod_pointer
  is_pod types ts = is_pod_pointer types ts.introspection_cpp

  unfoldable pub message_size : TypeSupport Message → ℕ
  unfolding size_or
  message_size ts = size_or ts.introspection_cpp (size_or ts.introspection_c 0)

  serialized_size_of : Option (Option (Callbacks Message)) → Message → ℕ
  serialized_size_of (some (some callbacks)) m = (4 + callbacks.get_serialized_size m) % 2 ^ 64
  serialized_size_of _ m = 0

  -- 4 bytes for the header. Null callbacks, which the source would follow, count as no handle.
  unfoldable pub serialized_message_size : Message → Option (TypeSupport Message) → ℕ
  unfolding serialized_size_of
  serialized_message_size m none = 0
  serialized_message_size m (some ts) = if ts.has_data then serialized_size_of ts.fastrtps m else 0
