-- ===== src/RelayCore/Error.antt =====
-- server/server-relay/crates/relay-core/src/error.rs
use slan.Prelude.{String, [], ◌∷◌, concat}

pub data RelayError : Type 0 where
  invalid_ticket invalid_signature invalid_timestamp ticket_expired : RelayError
  session_not_found session_already_exists unauthorized_peer empty_payload clock_skew : RelayError
  store : String → RelayError

-- `Display`
unfoldable pub to_string : RelayError → String
to_string invalid_ticket = "invalid relay ticket"
to_string invalid_signature = "invalid relay ticket signature"
to_string invalid_timestamp = "invalid timestamp"
to_string ticket_expired = "relay ticket expired"
to_string session_not_found = "relay session not found"
to_string session_already_exists = "relay session already exists"
to_string unauthorized_peer = "device is not a participant of the relay session"
to_string empty_payload = "relay payload is empty"
to_string clock_skew = "system clock is before unix epoch"
to_string (store message) = concat ("session store error: " ∷ message ∷ [])
