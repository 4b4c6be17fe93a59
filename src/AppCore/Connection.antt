-- ===== src/AppCore/Connection.antt =====
-- client/app_core/crates/app-core/src/connection.rs
use slan.Prelude.{String}

pub data ActivePath : Type 0 where
  none : ActivePath
  -- peer_node_id
  p2p relay : String → ActivePath
  -- cluster_id, node_id
  derp : String → String → ActivePath

pub data ConnectionPath : Type 0 where
  p2p_path relay_path derp_path : ConnectionPath

pub data ConnectionState : Type 0 where
  disconnected connecting : ConnectionState
  connected : ConnectionPath → ConnectionState
  failed : String → ConnectionState
