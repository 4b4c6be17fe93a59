-- ===== src/RelayCore/Session.antt =====
-- server/server-relay/crates/relay-core/src/model/session.rs
use slan.Prelude.{
  String, Bool, true, List, [], ◌∷◌, ◌≡◌, arith, ◌&&◌, ◌||◌, ◌==◌, eq_iff, eq_refl, Result, ok, err,
  if◌then◌else◌,
}
use slan.RelayCore.Error.{RelayError, unauthorized_peer}

pub record RelaySession : Type 0 where
  pub session_id : String
  pub source_device_id : String
  pub target_device_id : String
  pub network_id : String

-- the two ends of the session
unfoldable pub participants : RelaySession → List String
participants s = s.source_device_id ∷ s.target_device_id ∷ []

unfoldable pub involves : RelaySession → String → Bool
involves s device_id = s.source_device_id == device_id || s.target_device_id == device_id

unfoldable pub peer_of : RelaySession → String → Result RelayError String
peer_of s device_id =
    if s.source_device_id == device_id
    then ok s.target_device_id
    else if s.target_device_id == device_id
    then ok s.source_device_id
    else err unauthorized_peer

-- the derived `PartialEq`
unfoldable pub same_session : RelaySession → RelaySession → Bool
same_session s t =
    s.session_id == t.session_id
    && s.source_device_id == t.source_device_id
    && s.target_device_id == t.target_device_id
    && s.network_id == t.network_id

pub same_session→eq : (s t : RelaySession) → same_session s t ≡ true → s ≡ t
unfolding same_session
same_session→eq s t h = ground (
  arith,
  eq_iff s.session_id t.session_id,
  eq_iff s.source_device_id t.source_device_id,
  eq_iff s.target_device_id t.target_device_id,
  eq_iff s.network_id t.network_id,
)

pub same_session_refl : (s : RelaySession) → same_session s s ≡ true
unfolding same_session
same_session_refl s = simp eq_refl
