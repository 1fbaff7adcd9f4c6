-- ===== src/Message/SelfContained.antt =====
-- What makes a message type self-contained: introspection.cpp against an inductive description.
use rmw_iceoryx.Common.{
  ℕ, ◌≡◌, refl, ◌↔◌, ◌⊎◌, inl, inr, true, false, Option, none, some, Bool-cases, arith,
}
use rmw_iceoryx.Message.{
  FieldTypes, MemberInfo, MessageMembers, members, MemberList, nil, cons, Nested, null_support,
  null_data, nested, TypeSupport, is_message, is_dynamic_string, is_dynamic_array, is_pod_members,
  is_pod_list, is_pod_nested, is_pod_pointer, is_pod,
}

-- What rosidl documents of a member's fields: an array of size 0 is a sequence, and one with an
-- upper bound is a sequence of at most so many elements; an array of another size is a part of the
-- message.
abbrev pub IsSequence : MemberInfo → Type 0
IsSequence member =
    (member.is_array ≡ true) × ((member.array_size ≡ 0) ⊎ (member.is_upper_bound ≡ true))

is_dynamic_array-IsSequence :
    (member : MemberInfo) → (is_dynamic_array member ≡ true) ↔ IsSequence member
unfolding is_dynamic_array
is_dynamic_array-IsSequence member = (
  λ e. elim (Bool-cases member.is_upper_bound) [
    | inl bounded ↦ (ground (arith, e), inr bounded)
    | inr free ↦ (ground (arith, e), inl (ground (arith, e, free)))
  ],
  λ (array, h). elim h [
    | inl unbounded ↦ ground (arith, array, unbounded)
    | inr bounded ↦ ground (arith, array, bounded)
  ],
)

is_dynamic_string-eq :
    (types : FieldTypes) (member : MemberInfo)
    → is_dynamic_string types member ≡ true
    → member.type_id ≡ types.ros_type_string
unfolding is_dynamic_string
is_dynamic_string-eq types member e = ground (arith, e)

is_message-eq :
    (types : FieldTypes) (member : MemberInfo)
    → is_message types member ≡ true
    → member.type_id ≡ types.ros_type_message
unfolding is_message
is_message-eq types member e = ground (arith, e)

-- Somewhere in the tree is a sequence, a string of narrow characters, or a nested message without
-- description.
mutual
  pub data Unfit (types : FieldTypes) : MemberList → Type 0 where
    dynamic :
        {member : MemberInfo} {below : Nested} {ms : MemberList}
        → IsSequence member ⊎ (member.type_id ≡ types.ros_type_string)
        → Unfit types (cons member below ms)
    inside :
        {member : MemberInfo} {below : Nested} {ms : MemberList}
        → member.type_id ≡ types.ros_type_message
        → UnfitNested types below
        → Unfit types (cons member below ms)
    later :
        {member : MemberInfo} {below : Nested} {ms : MemberList}
        → Unfit types ms
        → Unfit types (cons member below ms)

  pub data UnfitNested (types : FieldTypes) : Nested → Type 0 where
    no_support : UnfitNested types null_support
    no_data : UnfitNested types null_data
    deeper :
        {size : ℕ} {ms : MemberList} → Unfit types ms → UnfitNested types (nested (members size ms))

module _ (types : FieldTypes) where
  mutual
    unfolding is_pod_list

    Unfit-not_pod : {ms : MemberList} → Unfit types ms → is_pod_list types ms ≡ false
    Unfit-not_pod (dynamic d) = ground arith
    Unfit-not_pod (inside m u) = ground (arith, UnfitNested-not_pod u)
    Unfit-not_pod (later u) = ground (arith, Unfit-not_pod u)

    UnfitNested-not_pod :
        {below : Nested} → UnfitNested types below → is_pod_nested types below ≡ false
    UnfitNested-not_pod no_support = refl
    UnfitNested-not_pod no_data = refl
    UnfitNested-not_pod (deeper u) = Unfit-not_pod u

  mutual
    unfolding is_pod_list

    not_pod-Unfit : (ms : MemberList) → is_pod_list types ms ≡ false → Unfit types ms
    not_pod-Unfit nil e = absurd (cc)
    not_pod-Unfit (cons member below ms) e = elim (Bool-cases (is_dynamic_array member)) [
      | inl a ↦ dynamic (inl ((is_dynamic_array-IsSequence member).0 a))
      | inr a ↦ elim (Bool-cases (is_dynamic_string types member)) [
        | inl b ↦ dynamic (inr (is_dynamic_string-eq types member b))
        | inr b ↦ elim (Bool-cases (is_pod_list types ms)) [
          | inl c ↦
              inside (is_message-eq types member (ground (arith, a, b, c)))
                (not_pod-UnfitNested below (ground (arith, a, b, c)))
          | inr c ↦ later (not_pod-Unfit ms c)
        ]
      ]
    ]

    not_pod-UnfitNested :
        (below : Nested) → is_pod_nested types below ≡ false → UnfitNested types below
    not_pod-UnfitNested null_support e = no_support
    not_pod-UnfitNested null_data e = no_data
    not_pod-UnfitNested (nested ms) e = not_pod-UnfitMembers ms e

    not_pod-UnfitMembers :
        (ms : MessageMembers) → is_pod_members types ms ≡ false → UnfitNested types (nested ms)
    not_pod-UnfitMembers (members size ms) e = deeper (not_pod-Unfit ms e)

-- There is a description, and nothing unfit in it.
abbrev pub IsSelfContained : FieldTypes → Option MessageMembers → Type 0
IsSelfContained types none = ⊥
IsSelfContained types (some (members size ms)) = ¬ Unfit types ms

pod_pointer :
    (types : FieldTypes) (o : Option MessageMembers)
    → (is_pod_pointer types o ≡ true) ↔ IsSelfContained types o
unfolding is_pod_pointer
pod_pointer types none = (λ e. absurd (cc), λ h. absurd h)
pod_pointer types (some (members size ms)) = (
  λ e u. absurd (cc (Unfit-not_pod types u)),
  λ fit. elim (Bool-cases (is_pod_list types ms)) [
    | inl pod ↦ pod
    | inr not_pod ↦ absurd (fit (not_pod-Unfit types ms not_pod))
  ],
)

-- is_pod answers true exactly for the types whose description is given and whose members, at any
-- depth, have no sequence, which is an array of size 0 or with an upper bound, no member of
-- ROS_TYPE_STRING and no nested message without description. Wide strings do not count.
pub is_pod_iff :
    {Message : Type 0} (types : FieldTypes) (ts : TypeSupport Message)
    → (is_pod types ts ≡ true) ↔ IsSelfContained types ts.introspection_cpp
unfolding is_pod
is_pod_iff types ts = pod_pointer types ts.introspection_cpp
