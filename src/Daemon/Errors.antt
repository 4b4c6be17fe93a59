-- ===== src/Daemon/Errors.antt =====
-- server/server-relay/crates/relay-daemon/src/errors/error_map.rs, and `RelayRuntimeError` of
-- runtime/mod.rs.
use slan.Prelude.{String, [], ◌∷◌, concat}
use slan.RelayCore.Error.{
  RelayError, invalid_ticket, invalid_signature, invalid_timestamp, ticket_expired,
  session_not_found, session_already_exists, unauthorized_peer, empty_payload, clock_skew, store,
  to_string,
}

pub record RelayRuntimeError : Type 0 where
  pub code : String
  pub message : String

abbrev pub new : String → String → RelayRuntimeError
new code message = record { code = code; message = message }

unfoldable pub relay_runtime_error : RelayError → RelayRuntimeError
unfolding to_string
relay_runtime_error invalid_ticket = new "invalid_ticket" (to_string invalid_ticket)
relay_runtime_error invalid_signature = new "invalid_signature" (to_string invalid_signature)
relay_runtime_error invalid_timestamp = new "invalid_timestamp" (to_string invalid_timestamp)
relay_runtime_error ticket_expired = new "ticket_expired" (to_string ticket_expired)
relay_runtime_error session_not_found = new "session_not_found" (to_string session_not_found)
relay_runtime_error session_already_exists =
    new "session_already_exists" (to_string session_already_exists)
relay_runtime_error unauthorized_peer = new "unauthorized_peer" (to_string unauthorized_peer)
relay_runtime_error empty_payload = new "empty_payload" (to_string empty_payload)
relay_runtime_error clock_skew = new "clock_skew" (to_string clock_skew)
relay_runtime_error (store message) =
    new "store_error" (concat ("session store error: " ∷ message ∷ []))
