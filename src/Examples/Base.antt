-- ===== src/Examples/Base.antt =====
-- A codec for base64's place, a ticket and two addresses, and what runs in a test.
use Prim.Native.Char.{code}
use Prim.Native.String.{String}
use slan.Prelude.{
  ℕ, zero, suc, ◌+◌, ◌≡◌, refl, ap, ◌∙◌, List, [], ◌∷◌, none, some, ok, eqb, arith, if◌then◌else◌,
  trim, bytes,
}
use slan.Prelude.Int.{◌+ℤ◌, ◌-ℤ◌, ◌*ℤ◌}
use slan.Prelude.Sorting.{sort}
use slan.Prelude.Table
use slan.RelayCore.Error.{to_string}
use slan.RelayCore.Session.{same_session, peer_of, involves}
use slan.RelayCore.Ticket.{is_expired, is_expired_at, signing_payload}
use slan.RelayCore.Time.{
  parse_timestamp, parse_signed, parse_u32, parse_rfc3339, digits, get_range, get_from,
  offset_seconds, days_from_civil,
}
use slan.Auth.{
  Crypto, validate, validate_required_fields, validate_relay_prefix, validate_expiration,
  validate_signature, validate_hmac, is_blank, with_options,
}
use slan.SessionStore
use slan.UdpRelay
use slan.Daemon.Errors.{relay_runtime_error}
use slan.Daemon.Protocol.{SocketAddr, RelayTicketWire, to_relay_ticket}
use slan.Daemon.Runtime.{
  RelayRuntime, init, accept_session, bind_endpoint, attach_ticket, handle_attach, authorize,
  handle_forward, handle_detach, remove_participant, handle_request,
}

-- a byte as so many ones and a zero
abbrev ones : ℕ → String → String
ones zero s = String.◌∷◌ "0" s
ones (suc n) s = String.◌∷◌ "1" (ones n s)

abbrev pub encode : List ℕ → String
encode [] = ""
encode (n ∷ ns) = ones n (encode ns)

abbrev pub decode : ℕ → String → List ℕ
decode n String.[] = []
decode n (String.◌∷◌ c s) =
    let more = decode (suc n) s in
    let next = n ∷ decode 0 s in if eqb (code c) b'1' then more else next

decode-ones : (m n : ℕ) (s : String) → decode m (ones n s) ≡ (m + n) ∷ decode 0 s
decode-ones m zero s = ap (λ (k : ℕ). k ∷ decode 0 s) (omega arith)
decode-ones m (suc n) s = decode-ones (suc m) n s ∙ ap (λ (k : ℕ). k ∷ decode 0 s) (omega arith)

pub decode-encode : (b : List ℕ) → decode 0 (encode b) ≡ b
decode-encode [] = refl
decode-encode (n ∷ ns) =
    decode-ones 0 n (encode ns)
    ∙ ap (λ (k : ℕ). k ∷ decode 0 (encode ns)) (omega arith)
    ∙ ap (λ (l : List ℕ). n ∷ l) (decode-encode ns)

abbrev pub crypto : Crypto
crypto = record {
  hmac_sha256 = λ secret payload. some (1 ∷ 2 ∷ []);
  encode_url_safe_no_pad = encode;
  encode_standard = encode;
  decode_standard = λ s. ok (decode 0 s);
  decode-encode = λ b. ap ok (decode-encode b);
}

abbrev pub addr_a : SocketAddr
addr_a = record { host = "127.0.0.1"; port = 30001 }

abbrev pub addr_b : SocketAddr
addr_b = record { host = "127.0.0.1"; port = 30002 }

abbrev pub wire : RelayTicketWire
wire = record {
  ticket_id = "ticket-1";
  network_id = "net-1";
  session_id = "session-1";
  src_node_id = "node-a";
  dst_node_id = "node-b";
  derp_cluster_id = none;
  country_code = none;
  city_code = none;
  allowed_derp_node_ids = [];
  relay_url = "udp://127.0.0.1:9000";
  expires_at = "4102444800";
  session_key = "session-key-1";
  signature = "sig";
}

abbrev pub fresh : RelayRuntime
fresh = init (some "udp://") none

-- what a test of the relay computes with
unfoldable pub runs : ℕ
unfolding to_string same_session peer_of involves is_expired is_expired_at signing_payload
    parse_timestamp parse_signed parse_u32 parse_rfc3339 digits get_range get_from offset_seconds
    days_from_civil validate validate_required_fields validate_relay_prefix validate_expiration
    validate_signature validate_hmac is_blank with_options SessionStore.new SessionStore.create
    SessionStore.get SessionStore.remove UdpRelay.attach UdpRelay.attach_with_ticket
    UdpRelay.find_session UdpRelay.detach UdpRelay.forward relay_runtime_error to_relay_ticket init
    accept_session bind_endpoint attach_ticket handle_attach authorize handle_forward handle_detach
    remove_participant handle_request trim bytes sort Table.get Table.insert Table.remove ◌+ℤ◌ ◌-ℤ◌
    ◌*ℤ◌
runs = 0
