-- ===== src/Rmw/Requests/Unsupported.antt =====
-- How the functions on services, clients and events end.
use rmw_iceoryx.Common.{
  Bool, Expected, Option, err, false, none, ok, some, true, ◌&&◌, ◌↔◌, ◌≡◌, ◌≢◌, arith, refl,
}
use rmw_iceoryx.Rmw.Requests.{
  rmw_send_request, rmw_take_response, rmw_take_request, rmw_send_response, RetCode, is_own,
}
use rmw_iceoryx.Rmw.Handles.Services.{ServiceHandle}

-- A service or a client of this implementation.
abbrev pub is_usable : Option ServiceHandle → Bool
is_usable none = false
is_usable (some h) = is_own h.implementation_identifier

-- What a call gives that is unsupported where its arguments are valid.
abbrev UnsupportedIff : {S : Type 0} → Bool → S → Expected RetCode (Unit {0}) × S → Type 0
UnsupportedIff valid s r =
    ((r.0 ≡ err RetCode.unsupported) ↔ (valid ≡ true)) × (r.0 ≢ ok tt) × (r.1 ≡ s)

module _ {S : Type 0} (h : ServiceHandle) (s : S) where
  send_request_lem :
      (b c : Bool)
      → UnsupportedIff (is_usable (some h) && b && c) s (rmw_send_request (some h) b c s)
  unfolding rmw_send_request
  send_request_lem b c =
      (((λ e. ground (arith, e)), (λ e. ground (arith, e))), (λ e. ground (arith, e)), ground arith)

  take_response_lem :
      (b c d : Bool)
      → UnsupportedIff (is_usable (some h) && b && c && d) s (rmw_take_response (some h) b c d s)
  unfolding rmw_take_response
  take_response_lem b c d =
      (((λ e. ground (arith, e)), (λ e. ground (arith, e))), (λ e. ground (arith, e)), ground arith)

refused : {S : Type 0} {s : S} → UnsupportedIff false s (err RetCode.invalid_argument, s)
refused = (((λ e. absurd (cc)), (λ e. absurd (cc))), (λ e. cc), refl)

-- No request and no response is sent or taken: each of these functions answers RMW_RET_UNSUPPORTED
-- if and only if the handle is of this implementation and no pointer is null, never RMW_RET_OK, and
-- changes nothing.
pub request_functions_unsupported :
    {S : Type 0} (handle : Option ServiceHandle) (b c d : Bool) (s : S)
    → UnsupportedIff (is_usable handle && b && c) s (rmw_send_request handle b c s)
      × UnsupportedIff (is_usable handle && b && c && d) s (rmw_take_response handle b c d s)
      × UnsupportedIff (is_usable handle && b && c && d) s (rmw_take_request handle b c d s)
      × UnsupportedIff (is_usable handle && b && c) s (rmw_send_response handle b c s)
unfolding rmw_send_request rmw_take_response rmw_take_request rmw_send_response
request_functions_unsupported none b c d s = (refused, refused, refused, refused)
request_functions_unsupported (some h) b c d s = (
  send_request_lem h s b c,
  take_response_lem h s b c d,
  take_response_lem h s b c d,
  send_request_lem h s b c,
)
