-- ===== src/Auth.antt =====
-- server/server-relay/crates/auth: the validation of tickets. HMAC-SHA256 and base64 are libraries
-- that the source calls: they are the fields of `Crypto`.
pub mod Checks
use slan.Prelude.{
  ℕ, String, Bool, true, false, ◌||◌, not, List, Option, none, some, Result, ok, err, ◌>>=◌, ◌>>◌,
  reject_if, ok_or, ◌==◌, trim, is_empty, ◌≡◌, if◌then◌else◌,
}
use text.Mathlib.Text.{starts_with}
use slan.RelayCore.Error.{RelayError, invalid_ticket, invalid_signature, ticket_expired}
use slan.RelayCore.Ticket.{RelayTicket, is_expired, signing_payload}

-- `hmac_sha256 secret payload` is `none` where `new_from_slice` refuses the secret.
pub record Crypto : Type 0 where
  pub hmac_sha256 : String → String → Option (List ℕ)
  pub encode_url_safe_no_pad : List ℕ → String
  pub encode_standard : List ℕ → String
  pub decode_standard : String → Result String (List ℕ)
  pub decode-encode : (b : List ℕ) → decode_standard (encode_standard b) ≡ ok b

pub record HmacTicketSignatureValidator : Type 0 where
  pub secret : String

pub record StaticTicketValidator : Type 0 where
  pub required_relay_url_prefix : Option String
  pub signature_validator : Option HmacTicketSignatureValidator

unfoldable pub with_options : Option String → Option String → StaticTicketValidator
with_options prefix none = record { required_relay_url_prefix = prefix; signature_validator = none }
with_options prefix (some secret) = record {
  required_relay_url_prefix = prefix;
  signature_validator = some (record { secret = secret });
}

-- a field that is empty, or white space alone
unfoldable pub is_blank : String → Bool
is_blank s = is_empty (trim s)

unfoldable pub validate_required_fields : RelayTicket → Result RelayError (Unit {0})
validate_required_fields t =
    reject_if
      (is_blank t.ticket_id
        || is_blank t.signature
        || is_blank t.relay_url
        || is_blank t.expires_at
        || is_blank t.network_id
        || is_blank t.session_id
        || is_blank t.src_node_id
        || is_blank t.dst_node_id)
      invalid_ticket

unfoldable pub validate_relay_prefix : RelayTicket → Option String → Result RelayError (Unit {0})
validate_relay_prefix t none = ok tt
validate_relay_prefix t (some prefix) =
    reject_if (not (starts_with t.relay_url prefix)) invalid_ticket

unfoldable pub validate_expiration : RelayTicket → Option ℕ → Result RelayError (Unit {0})
validate_expiration t clock = do expired ← is_expired t clock; reject_if expired ticket_expired

module _ (c : Crypto) where
  -- `HmacTicketSignatureValidator::validate`
  unfoldable pub validate_hmac :
      HmacTicketSignatureValidator → RelayTicket → Result RelayError (Unit {0})
  validate_hmac v t = do
    tag ← ok_or (c.hmac_sha256 v.secret (signing_payload t)) invalid_ticket
    reject_if (not (c.encode_url_safe_no_pad tag == t.signature)) invalid_signature

  unfoldable pub validate_signature :
      Option HmacTicketSignatureValidator → RelayTicket → Result RelayError (Unit {0})
  unfolding validate_hmac
  validate_signature none t = ok tt
  validate_signature (some v) t = validate_hmac v t

  unfoldable pub validate :
      StaticTicketValidator → Option ℕ → RelayTicket → Result RelayError (Unit {0})
  validate v clock t = do
    validate_required_fields t
    validate_relay_prefix t v.required_relay_url_prefix
    validate_expiration t clock
    validate_signature v.signature_validator t
