-- ===== src/Client/Codes.antt =====
-- The error codes of the relay daemon as the client reads them
-- (client/app_core/crates/relay-client/src/runtime.rs and relay.rs).
use mathlib.Core.Option.{some-injective}
use slan.Prelude.{
  String, Bool, true, false, ◌==◌, eq_iff, ◌≡◌, refl, Option, none, some, [], ◌∷◌, concat, trim,
  is_empty, if◌then◌else◌, if_cases, Bool-cases, inl, inr, sym, ap, ◌∙◌, ◌↔◌,
}

pub data RelayDaemonErrorCode : Type 0 where
  invalid_ticket invalid_signature invalid_timestamp ticket_expired : RelayDaemonErrorCode
  session_not_found session_already_exists unauthorized_peer : RelayDaemonErrorCode
  empty_payload clock_skew store_error participant_not_in_ticket : RelayDaemonErrorCode
  session_conflict session_not_attached participant_not_attached : RelayDaemonErrorCode
  participant_address_mismatch invalid_payload_b64 peer_not_attached : RelayDaemonErrorCode
  unknown : String → RelayDaemonErrorCode

-- the `match` on a trimmed code
unfoldable pub read_code : String → RelayDaemonErrorCode
read_code v =
    if v == "invalid_ticket"
    then invalid_ticket
    else if v == "invalid_signature"
    then invalid_signature
    else if v == "invalid_timestamp"
    then invalid_timestamp
    else if v == "ticket_expired"
    then ticket_expired
    else if v == "session_not_found"
    then session_not_found
    else if v == "session_already_exists"
    then session_already_exists
    else if v == "unauthorized_peer"
    then unauthorized_peer
    else if v == "empty_payload"
    then empty_payload
    else if v == "clock_skew"
    then clock_skew
    else if v == "store_error"
    then store_error
    else if v == "participant_not_in_ticket"
    then participant_not_in_ticket
    else if v == "session_conflict"
    then session_conflict
    else if v == "session_not_attached"
    then session_not_attached
    else if v == "participant_not_attached"
    then participant_not_attached
    else if v == "participant_address_mismatch"
    then participant_address_mismatch
    else if v == "invalid_payload_b64"
    then invalid_payload_b64
    else if v == "peer_not_attached"
    then peer_not_attached
    else unknown v

-- `RelayDaemonErrorCode::parse`
unfoldable pub parse : Option String → Option RelayDaemonErrorCode
parse none = none
parse (some value) = let v = trim value in if is_empty v then none else some (read_code v)

unfoldable pub as_str : RelayDaemonErrorCode → String
as_str invalid_ticket = "invalid_ticket"
as_str invalid_signature = "invalid_signature"
as_str invalid_timestamp = "invalid_timestamp"
as_str ticket_expired = "ticket_expired"
as_str session_not_found = "session_not_found"
as_str session_already_exists = "session_already_exists"
as_str unauthorized_peer = "unauthorized_peer"
as_str empty_payload = "empty_payload"
as_str clock_skew = "clock_skew"
as_str store_error = "store_error"
as_str participant_not_in_ticket = "participant_not_in_ticket"
as_str session_conflict = "session_conflict"
as_str session_not_attached = "session_not_attached"
as_str participant_not_attached = "participant_not_attached"
as_str participant_address_mismatch = "participant_address_mismatch"
as_str invalid_payload_b64 = "invalid_payload_b64"
as_str peer_not_attached = "peer_not_attached"
as_str (unknown value) = value

pub record RelayDaemonError : Type 0 where
  pub code : Option RelayDaemonErrorCode
  pub message : String

unfoldable pub from_wire : Option String → String → RelayDaemonError
from_wire code message = record { code = parse code; message = message }

unfoldable pub format_with_prefix : RelayDaemonError → String → String
format_with_prefix e prefix = elim e.code [
  | some code ↦ concat (prefix ∷ " [" ∷ as_str code ∷ "]: " ∷ e.message ∷ [])
  | none ↦ concat (prefix ∷ ": " ∷ e.message ∷ [])
]

-- `RelayClientError`, and `PathManagerError` of path.rs, which has the same fields
pub record RelayClientError : Type 0 where
  pub code : Option String
  pub message : String

-- `RelayClientError::message`
abbrev pub message_only : String → RelayClientError
message_only text = record { code = none; message = text }

abbrev code_text : Option RelayDaemonErrorCode → Option String
unfolding as_str
code_text none = none
code_text (some code) = some (as_str code)

unfoldable pub into_client_error : RelayDaemonError → String → RelayClientError
unfolding as_str
into_client_error e prefix = record {
  code = code_text e.code;
  message = format_with_prefix e prefix;
}

-- `Display` of a client's error
unfoldable pub display : RelayClientError → String
display e = elim e.code [
  | none ↦ e.message
  | some code ↦
      if is_empty (trim code) then e.message else concat ("[" ∷ code ∷ "] " ∷ e.message ∷ [])
]

named :
    (v k : String) (c rest : RelayDaemonErrorCode)
    → as_str c ≡ k
    → as_str rest ≡ v
    → as_str (if v == k then c else rest) ≡ v
named v k c rest h g =
    if_cases (λ x. as_str x ≡ v) (v == k) c rest (λ same. rw (h, (eq_iff v k).0 same) refl)
      (λ other. g)

-- a code that has been read is written again as it stood
as_str-read_code : (v : String) → as_str (read_code v) ≡ v
unfolding read_code as_str
as_str-read_code v =
    (named v "invalid_ticket" invalid_ticket _ refl (
      named v "invalid_signature" invalid_signature _ refl (
        named v "invalid_timestamp" invalid_timestamp _ refl (
          named v "ticket_expired" ticket_expired _ refl (
            named v "session_not_found" session_not_found _ refl (
              named v "session_already_exists" session_already_exists _ refl (
                named v "unauthorized_peer" unauthorized_peer _ refl (
                  named v "empty_payload" empty_payload _ refl (
                    named v "clock_skew" clock_skew _ refl (
                      named v "store_error" store_error _ refl (
                        named v "participant_not_in_ticket" participant_not_in_ticket _ refl (
                          named v "session_conflict" session_conflict _ refl (
                            named v "session_not_attached" session_not_attached _ refl (
                              named v "participant_not_attached" participant_not_attached _ refl (
                                named v "participant_address_mismatch" participant_address_mismatch
                                  _ refl
                                  (named v "invalid_payload_b64" invalid_payload_b64 _ refl (
                                    named v "peer_not_attached" peer_not_attached _ refl
                                      refl)))))))))))))))))

-- a code that has a name of its own
abbrev pub is_known : RelayDaemonErrorCode → Bool
is_known (unknown value) = false
is_known _ = true

-- the name of a known code is read as that code
parse_trimmed : String → Option RelayDaemonErrorCode
parse_trimmed v = if is_empty v then none else some (read_code v)

parse_trimmed-known :
    (k : RelayDaemonErrorCode) → is_known k ≡ true → parse_trimmed (as_str k) ≡ some k
unfolding parse_trimmed read_code as_str is_empty
parse_trimmed-known invalid_ticket h = refl
parse_trimmed-known invalid_signature h = refl
parse_trimmed-known invalid_timestamp h = refl
parse_trimmed-known ticket_expired h = refl
parse_trimmed-known session_not_found h = refl
parse_trimmed-known session_already_exists h = refl
parse_trimmed-known unauthorized_peer h = refl
parse_trimmed-known empty_payload h = refl
parse_trimmed-known clock_skew h = refl
parse_trimmed-known store_error h = refl
parse_trimmed-known participant_not_in_ticket h = refl
parse_trimmed-known session_conflict h = refl
parse_trimmed-known session_not_attached h = refl
parse_trimmed-known participant_not_attached h = refl
parse_trimmed-known participant_address_mismatch h = refl
parse_trimmed-known invalid_payload_b64 h = refl
parse_trimmed-known peer_not_attached h = refl
parse_trimmed-known (unknown value) h = cc

parse_trimmed-named :
    (k : RelayDaemonErrorCode) (v : String) → parse_trimmed v ≡ some k → v ≡ as_str k
unfolding parse_trimmed
parse_trimmed-named k v h = elim (Bool-cases (is_empty v)) [
  | inl nothing ↦ cc (rw nothing at h)
  | inr text ↦
      (let code : read_code v ≡ k = some-injective (read_code v) k (rw text at h) in
        sym (as_str-read_code v) ∙ ap as_str code)
]

into_client_error-text :
    (v message prefix : String)
    → (into_client_error (record { code = parse_trimmed v; message = message }) prefix).code
      ≡ (if is_empty v then none else some v)
unfolding parse_trimmed into_client_error
into_client_error-text v message prefix = elim (Bool-cases (is_empty v)) [
  | inl nothing ↦ rw nothing refl
  | inr text ↦ rw text (ap some (as_str-read_code v))
]

-- A code on the wire is read as a known code exactly if it is that code's name but for space around it;
-- and any code, known or not, is in the client's error as it stood on the wire but for that space, and
-- none if there was nothing else.
pub from_wire-into_client_error :
    (k : RelayDaemonErrorCode) (v message prefix : String)
    → is_known k ≡ true
    → (((from_wire (some v) message).code ≡ some k) ↔ (trim v ≡ as_str k))
      × ((into_client_error (from_wire (some v) message) prefix).code
          ≡ (if is_empty (trim v) then none else some (trim v)))
unfolding from_wire parse parse_trimmed
from_wire-into_client_error k v message prefix known = (
  (parse_trimmed-named k (trim v), λ e. ap parse_trimmed e ∙ parse_trimmed-known k known),
  into_client_error-text (trim v) message prefix,
)
