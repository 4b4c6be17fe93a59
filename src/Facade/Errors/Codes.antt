-- ===== src/Facade/Errors/Codes.antt =====
-- How client/app_core/crates/ffi-bridge/src/diagnostics.rs takes the errors of the relay
-- (server/server-relay/crates/relay-daemon/src/errors/error_map.rs).
use slan.Prelude.{String, ◌≡◌, refl, some}
use slan.RelayCore.Error.{
  RelayError, invalid_ticket, invalid_signature, invalid_timestamp, ticket_expired,
  session_not_found, session_already_exists, unauthorized_peer, empty_payload, clock_skew, store,
}
use slan.Daemon.Errors.{relay_runtime_error}
use slan.Facade.Errors.{
  DataPlaneErrorCode, relay_auth, relay_session, relay_protocol, unsupported_path, class_of_code,
  classify_data_plane_error_parts,
}

-- what kind of failure an error of the relay is
abbrev kind_of : RelayError → DataPlaneErrorCode
kind_of invalid_ticket = relay_auth
kind_of invalid_signature = relay_auth
kind_of invalid_timestamp = relay_auth
kind_of ticket_expired = relay_auth
kind_of unauthorized_peer = relay_auth
kind_of clock_skew = relay_auth
kind_of session_not_found = relay_session
kind_of session_already_exists = relay_session
kind_of empty_payload = unsupported_path
kind_of (store message) = relay_protocol

-- Every error of the relay is classified by its code, whatever its text says: as one of
-- authentication, of the session, of the payload or of the store.
pub relay_error-kind :
    (e : RelayError) (text : String)
    → (classify_data_plane_error_parts (some (relay_runtime_error e).code) text).code ≡ kind_of e
unfolding classify_data_plane_error_parts class_of_code relay_runtime_error
relay_error-kind invalid_ticket text = refl
relay_error-kind invalid_signature text = refl
relay_error-kind invalid_timestamp text = refl
relay_error-kind ticket_expired text = refl
relay_error-kind unauthorized_peer text = refl
relay_error-kind clock_skew text = refl
relay_error-kind session_not_found text = refl
relay_error-kind session_already_exists text = refl
relay_error-kind empty_payload text = refl
relay_error-kind (store message) text = refl
