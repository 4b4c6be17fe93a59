-- ===== src/Facade/Errors.antt =====
-- client/app_core/crates/ffi-bridge/src/diagnostics.rs and the error type of facade.rs
pub mod Codes
use slan.Prelude.{
  String, Bool, true, false, ◌||◌, List, [], ◌∷◌, any, map, Option, none, some, codes, ◌==◌,
  if◌then◌else◌,
}
use slan.Control.Client.{contains, lower}

pub data DataPlaneErrorCode : Type 0 where
  timeout transport relay_auth relay_session relay_protocol unsupported_path unknown :
      DataPlaneErrorCode

unfoldable pub as_str : DataPlaneErrorCode → String
as_str timeout = "probe_timeout"
as_str transport = "probe_transport_error"
as_str relay_auth = "probe_relay_auth_error"
as_str relay_session = "probe_relay_session_error"
as_str relay_protocol = "probe_relay_protocol_error"
as_str unsupported_path = "probe_unsupported_path"
as_str unknown = "probe_failed"

pub record DataPlaneError : Type 0 where
  pub code : DataPlaneErrorCode
  pub message : String

-- `matches!`
abbrev pub one_of : List String → String → Bool
one_of words s = any (λ w. s == w) words

abbrev pub auth_codes : List String
auth_codes =
    "ticket_expired" ∷ "invalid_signature" ∷ "invalid_ticket" ∷ "invalid_timestamp"
    ∷ "unauthorized_peer" ∷ "participant_not_in_ticket" ∷ "clock_skew" ∷ []

abbrev pub session_codes : List String
session_codes =
    "session_not_found" ∷ "session_already_exists" ∷ "session_conflict" ∷ "session_not_attached"
    ∷ "participant_not_attached" ∷ "participant_address_mismatch" ∷ "peer_not_attached" ∷ []

-- the class of a code, where the code has one
unfoldable pub class_of_code : String → Option DataPlaneErrorCode
class_of_code code =
    if one_of auth_codes code
    then some relay_auth
    else if one_of session_codes code
    then some relay_session
    else if one_of ("empty_payload" ∷ []) code
    then some unsupported_path
    else if one_of ("invalid_payload_b64" ∷ "store_error" ∷ []) code
    then some relay_protocol
    else none

-- the class that the text of an error suggests
unfoldable pub class_of_text : String → DataPlaneErrorCode
class_of_text error =
    let text = map lower (codes error) in
    if contains (codes "timed out") text || contains (codes "timeout") text
    then timeout
    else if contains (codes "unsupported") text
    then unsupported_path
    else if contains (codes "transport") text
        || contains (codes "socket") text
        || contains (codes "connection") text
    then transport
    else unknown

abbrev pub class_or_text : Option DataPlaneErrorCode → String → DataPlaneErrorCode
class_or_text (some class) error = class
class_or_text none error = class_of_text error

abbrev pub class_of : Option String → String → DataPlaneErrorCode
class_of none error = class_of_text error
class_of (some code) error = class_or_text (class_of_code code) error

unfoldable pub classify_data_plane_error_parts : Option String → String → DataPlaneError
classify_data_plane_error_parts code error = record { code = class_of code error; message = error }
