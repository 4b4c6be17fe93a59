-- ===== src/RelayCore/Ticket.antt =====
-- server/server-relay/crates/relay-core/src/model/ticket.rs. The clock is read once for a call:
-- `none` is a clock before the Unix epoch, `some n` the seconds since it.
use slan.Prelude.{
  ℕ, ◌-◌, ◌^◌, String, Bool, List, [], ◌∷◌, Option, Result, ok, ◌>>=◌, ok_or, ltb, unwrap_or, join,
  if◌then◌else◌,
}
use slan.Prelude.Int.{ℤ, pos, negsuc, leb_ℤ}
use slan.Prelude.Sorting.{sort}
use slan.RelayCore.Error.{RelayError, clock_skew}
use slan.RelayCore.Time.{parse_timestamp}

pub record RelayTicket : Type 0 where
  pub ticket_id : String
  pub network_id : String
  pub session_id : String
  pub src_node_id : String
  pub dst_node_id : String
  pub derp_cluster_id : Option String
  pub country_code : Option String
  pub city_code : Option String
  pub allowed_derp_node_ids : List String
  pub relay_url : String
  pub expires_at : String
  pub session_key : String
  pub signature : String

unfoldable pub is_expired_at : RelayTicket → ℤ → Result RelayError Bool
is_expired_at t now = do expires_at ← parse_timestamp t.expires_at; ok (leb_ℤ expires_at now)

-- `as i64` of a u64
abbrev pub as_i64 : ℕ → ℤ
as_i64 n = if ltb n (2 ^ 63) then pos n else negsuc (2 ^ 64 - 1 - n)

unfoldable pub is_expired : RelayTicket → Option ℕ → Result RelayError Bool
is_expired t clock = do now ← ok_or clock clock_skew; is_expired_at t (as_i64 now)

unfoldable pub signing_payload : RelayTicket → String
signing_payload t = join "|" (
    t.ticket_id
    ∷ t.network_id
    ∷ t.session_id
    ∷ t.src_node_id
    ∷ t.dst_node_id
    ∷ unwrap_or t.derp_cluster_id ""
    ∷ unwrap_or t.country_code ""
    ∷ unwrap_or t.city_code ""
    ∷ join "," (sort t.allowed_derp_node_ids)
    ∷ t.relay_url
    ∷ t.expires_at
    ∷ t.session_key
    ∷ [])
