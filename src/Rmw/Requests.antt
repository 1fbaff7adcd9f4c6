-- ===== src/Rmw/Requests.antt =====
-- The functions of src/rmw/service.cpp and client.cpp on existing handles, and those of event.cpp,
-- qos.cpp and feature.cpp. What a caller passes to be written is the state, and a flag says whether
-- a pointer that is only compared with null is not null.
pub mod Unsupported
use rmw_iceoryx.Common.{
  Bool, Exec, List, Option, [], err, false, ok, or_raise, raise, ℕ, ◌>>=◌, ◌>>◌, ◌∷◌, guard,
}
use rmw_iceoryx.Errors.{RetCode}
use rmw_iceoryx.Rmw.Ensure.{Identifier, is_own}
use rmw_iceoryx.Rmw.Graph.{Stop, code, undefined_behaviour}
use rmw_iceoryx.Rmw.Handles.{NodeHandle}
use rmw_iceoryx.Rmw.Handles.Services.{ServiceHandle}
use rmw_iceoryx.Rmw.Publish.{PublisherHandle}
use rmw_iceoryx.Rmw.Take.{SubscriptionHandle}

module _ {S : Type 0} where
  abbrev ensure_given : Bool → Exec S RetCode (Unit {0})
  ensure_given given = guard given RetCode.invalid_argument

  -- A service or a client that is not null and of this implementation.
  abbrev ensure_handle : Option ServiceHandle → Exec S RetCode (Unit {0})
  ensure_handle handle = do
    h ← or_raise handle RetCode.invalid_argument
    guard (is_own h.implementation_identifier) RetCode.incorrect_rmw_implementation

  abbrev unsupported : Exec S RetCode (Unit {0})
  unsupported = raise RetCode.unsupported

  unfoldable pub rmw_send_request : Option ServiceHandle → Bool → Bool → Exec S RetCode (Unit {0})
  rmw_send_request rmw_client ros_request sequence_id = do
    ensure_handle rmw_client
    ensure_given ros_request
    ensure_given sequence_id
    unsupported

  unfoldable pub rmw_take_response :
      Option ServiceHandle → Bool → Bool → Bool → Exec S RetCode (Unit {0})
  rmw_take_response rmw_client request_header ros_response taken = do
    ensure_handle rmw_client
    ensure_given request_header
    ensure_given ros_response
    ensure_given taken
    unsupported

  unfoldable pub rmw_client_set_on_new_response_callback :
      Option ServiceHandle → Bool → Exec S RetCode (Unit {0})
  rmw_client_set_on_new_response_callback rmw_client user_data = do
    ensure_handle rmw_client
    ensure_given user_data
    unsupported

  unfoldable pub rmw_service_server_is_available :
      Option NodeHandle → Option ServiceHandle → Bool → Exec S RetCode (Unit {0})
  rmw_service_server_is_available rmw_node rmw_client is_available = do
    node ← or_raise rmw_node RetCode.invalid_argument
    guard (is_own node.implementation_identifier) RetCode.incorrect_rmw_implementation
    ensure_handle rmw_client
    ensure_given is_available
    unsupported

  unfoldable pub rmw_take_request :
      Option ServiceHandle → Bool → Bool → Bool → Exec S RetCode (Unit {0})
  rmw_take_request rmw_service request_header ros_request taken = do
    ensure_handle rmw_service
    ensure_given request_header
    ensure_given ros_request
    ensure_given taken
    unsupported

  unfoldable pub rmw_send_response : Option ServiceHandle → Bool → Bool → Exec S RetCode (Unit {0})
  rmw_send_response rmw_service request_header ros_response = do
    ensure_handle rmw_service
    ensure_given request_header
    ensure_given ros_response
    unsupported

  unfoldable pub rmw_service_set_on_new_request_callback :
      Option ServiceHandle → Bool → Exec S RetCode (Unit {0})
  rmw_service_set_on_new_request_callback rmw_service user_data = do
    ensure_handle rmw_service
    ensure_given user_data
    unsupported

  -- A foreign publisher is an invalid argument here.
  unfoldable pub rmw_publisher_event_init : Option PublisherHandle → Exec S RetCode (Unit {0})
  rmw_publisher_event_init rmw_publisher = do
    p ← or_raise rmw_publisher RetCode.invalid_argument
    guard (is_own p.implementation_identifier) RetCode.invalid_argument
    unsupported

  unfoldable pub rmw_subscription_event_init : Option SubscriptionHandle → Exec S RetCode (Unit {0})
  rmw_subscription_event_init rmw_subscription = do
    s ← or_raise rmw_subscription RetCode.invalid_argument
    guard (is_own s.implementation_identifier) RetCode.invalid_argument
    unsupported

  unfoldable pub rmw_take_event : Bool → Bool → Exec S RetCode (Unit {0})
  rmw_take_event event_info taken = do ensure_given event_info; ensure_given taken; unsupported

  unfoldable pub rmw_event_fini : Exec S RetCode (Unit {0})
  rmw_event_fini = unsupported

  unfoldable pub rmw_event_set_callback : Bool → Exec S RetCode (Unit {0})
  rmw_event_set_callback user_data = do ensure_given user_data; unsupported

-- `*qos` becomes `rmw_qos_profile_services_default`, a constant of rmw.
module _ {Qos : Type 0} (rmw_qos_profile_services_default : Qos) where
  unfoldable pub rmw_client_request_publisher_get_actual_qos :
      Option ServiceHandle → Bool → Exec Qos RetCode (Unit {0})
  rmw_client_request_publisher_get_actual_qos rmw_client qos = do
    ensure_handle rmw_client
    ensure_given qos
    λ _. (ok tt, rmw_qos_profile_services_default)

  unfoldable pub rmw_client_response_subscription_get_actual_qos :
      Option ServiceHandle → Bool → Exec Qos RetCode (Unit {0})
  rmw_client_response_subscription_get_actual_qos rmw_client qos = do
    ensure_handle rmw_client
    ensure_given qos
    λ _. (ok tt, rmw_qos_profile_services_default)

  unfoldable pub rmw_service_request_subscription_get_actual_qos :
      Option ServiceHandle → Bool → Exec Qos RetCode (Unit {0})
  rmw_service_request_subscription_get_actual_qos rmw_service qos = do
    ensure_handle rmw_service
    ensure_given qos
    λ _. (ok tt, rmw_qos_profile_services_default)

  unfoldable pub rmw_service_response_publisher_get_actual_qos :
      Option ServiceHandle → Bool → Exec Qos RetCode (Unit {0})
  rmw_service_response_publisher_get_actual_qos rmw_service qos = do
    ensure_handle rmw_service
    ensure_given qos
    λ _. (ok tt, rmw_qos_profile_services_default)

pub data Compatibility : Type 0 where
  compatible warning incompatible : Compatibility

-- `*compatibility` and the characters of `reason`.
pub record Verdict : Type 0 where
  pub compatibility : Compatibility
  pub reason : List ℕ

-- `reason[0] = 0`, whatever the size of the buffer.
abbrev terminate : Exec Verdict Stop (Unit {0})
terminate v = elim (v.reason) [
  | [] ↦ (err undefined_behaviour, record v { compatibility = compatible })
  | c ∷ cs ↦ (ok tt, record { compatibility = compatible; reason = 0 ∷ cs })
]

unfoldable pub rmw_qos_profile_check_compatible :
    {Qos : Type 0} → Qos → Qos → Bool → Bool → Exec Verdict Stop (Unit {0})
rmw_qos_profile_check_compatible publisher_profile subscription_profile compatibility reason = do
  guard compatibility (code RetCode.invalid_argument)
  guard reason (code RetCode.invalid_argument)
  terminate

abbrev pub rmw_feature_supported : {Feature : Type 0} → Feature → Bool
rmw_feature_supported rmw_feature = false
