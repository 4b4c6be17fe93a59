-- ===== src/Client/Path.antt =====
-- `InMemoryPathManager` (client/app_core/crates/relay-client/src/runtime.rs and path.rs): which of
-- DERP, relay and peer-to-peer carries the packets. Its three parts are interfaces, each with its
-- own state; the path manager's state stands beside theirs.
pub mod Routing
pub mod Failover
use slan.Prelude.{
  ℕ, String, Bool, true, false, List, null, Option, none, some, Result, ok, err, map_err,
  if◌then◌else◌,
}
use slan.AppCore.Derp.{DerpLinkSnapshot}
use slan.AppCore.Connection.{ActivePath, p2p, relay, derp}
use slan.Client.Codes.{RelayClientError, message_only, display}

-- the calls of a `DerpPool` that the path manager makes
pub record PoolCalls : Type 1 where
  pub Pool : Type 0
  pub active_link : Pool → Option DerpLinkSnapshot
  pub send_via_active : Pool → List ℕ → Result String (Unit {0}) × Pool
  pub poll_via_active : Pool → Result String (Option (List ℕ)) × Pool

-- those of a `RelayClient` or a `P2PConnector`, which differ in their errors
pub record Transport (E : Type 0) : Type 1 where
  pub State : Type 0
  pub send : State → List ℕ → Result E (Unit {0}) × State
  pub poll : State → Result E (Option (List ℕ)) × State

abbrev pub PathManagerError : Type 0
PathManagerError = RelayClientError

pub record PathState : Type 0 where
  pub poisoned : Bool
  pub active_path : ActivePath
  pub last_peer_node_id : Option String
  pub last_failure_reason : Option String

abbrev pub no_path : PathManagerError
no_path = message_only "no active path selected"

abbrev pub poisoned_error : PathManagerError
poisoned_error = message_only "path manager state poisoned"

abbrev pub empty_error : PathManagerError
empty_error = message_only "cannot send empty packet through path manager"

-- `PathManagerError::new(err.code.clone(), err.to_string())`
unfoldable pub from_relay : RelayClientError → PathManagerError
from_relay e = record { code = e.code; message = display e }

module _ (D : PoolCalls) (R : Transport RelayClientError) (P : Transport String) where
  open D use {Pool, active_link, send_via_active, poll_via_active}

  pub record Manager : Type 0 where
    pub derp_pool : Pool
    pub relay_client : R.State
    pub p2p_connector : P.State
    pub state : PathState

  unfoldable pub new_manager : Pool → R.State → P.State → Manager
  new_manager d r p = record {
    derp_pool = d;
    relay_client = r;
    p2p_connector = p;
    state = record {
      poisoned = false;
      active_path = ActivePath.none;
      last_peer_node_id = none;
      last_failure_reason = none;
    };
  }

  abbrev pub fallback : Option DerpLinkSnapshot → String → ActivePath
  fallback (some link) peer_node_id = derp link.meta.cluster_id link.meta.node_id
  fallback none peer_node_id = relay peer_node_id

  unfoldable pub on_p2p_failed :
      Manager → String → String → Result PathManagerError (Unit {0}) × Manager
  on_p2p_failed m peer_node_id reason = if m.state.poisoned then (err poisoned_error, m) else (
    ok tt,
    record m {
      state = record m.state {
        active_path = fallback (active_link m.derp_pool) peer_node_id;
        last_peer_node_id = some peer_node_id;
        last_failure_reason = some reason;
      };
    },
  )

  unfoldable pub on_p2p_recovered : Manager → String → Result PathManagerError (Unit {0}) × Manager
  on_p2p_recovered m peer_node_id = if m.state.poisoned then (err poisoned_error, m) else (
    ok tt,
    record m {
      state = record m.state {
        active_path = p2p peer_node_id;
        last_peer_node_id = some peer_node_id;
        last_failure_reason = none;
      };
    },
  )

  unfoldable pub current_path : Manager → ActivePath
  current_path m = if m.state.poisoned then ActivePath.none else m.state.active_path

  module _ {A : Type 0} (m : Manager) where
    abbrev pub from_pool : Result String A × Pool → Result PathManagerError A × Manager
    from_pool (r, d) = (map_err message_only r, record m { derp_pool = d })

    abbrev pub from_p2p : Result String A × P.State → Result PathManagerError A × Manager
    from_p2p (r, p) = (map_err message_only r, record m { p2p_connector = p })

    abbrev pub from_relay_client :
        Result RelayClientError A × R.State → Result PathManagerError A × Manager
    from_relay_client (r, s) = (map_err from_relay r, record m { relay_client = s })

  abbrev pub send_on : Manager → List ℕ → ActivePath → Result PathManagerError (Unit {0}) × Manager
  send_on m bytes ActivePath.none = (err no_path, m)
  send_on m bytes (derp cluster node) = from_pool m (send_via_active m.derp_pool bytes)
  send_on m bytes (p2p peer) = from_p2p m (P.send m.p2p_connector bytes)
  send_on m bytes (relay peer) = from_relay_client m (R.send m.relay_client bytes)

  unfoldable pub send_transport_packet :
      Manager → List ℕ → Result PathManagerError (Unit {0}) × Manager
  send_transport_packet m bytes =
      if null bytes
      then (err empty_error, m)
      else if m.state.poisoned
      then (err poisoned_error, m)
      else send_on m bytes m.state.active_path

  abbrev pub poll_on : Manager → ActivePath → Result PathManagerError (Option (List ℕ)) × Manager
  poll_on m ActivePath.none = (err no_path, m)
  poll_on m (derp cluster node) = from_pool m (poll_via_active m.derp_pool)
  poll_on m (p2p peer) = from_p2p m (P.poll m.p2p_connector)
  poll_on m (relay peer) = from_relay_client m (R.poll m.relay_client)

  unfoldable pub poll_transport_packet :
      Manager → Result PathManagerError (Option (List ℕ)) × Manager
  poll_transport_packet m =
      if m.state.poisoned then (err poisoned_error, m) else poll_on m m.state.active_path
