-- ===== src/Tunnel/Backend.antt =====
-- client/app_core/crates/tunnel/src/{config,backend,android_backend}.rs: what a platform does for a
-- tunnel, the backend that keeps its peers in memory, and the one that does nothing yet.
use slan.Prelude.{String, Bool, true, false, List, [], Option, none, map}
use slan.Prelude.Table
use slan.Prelude.Table.{Table}
use slan.Client.Action.{Action, ◌>>=◌, ◌>>◌, pure, fail, gets, modify, fail_if}
use slan.AppCore.Wireguard.{
  TunnelTransport, WireGuardInterfaceConfig, WireGuardPeerConfig, WireGuardRuntimeStats,
}

pub record TunnelConfig : Type 0 where
  pub transport : TunnelTransport
  pub local_virtual_ip : String
  pub peer_virtual_ip : String
  pub wireguard_interface : WireGuardInterfaceConfig
  pub wireguard_peer : WireGuardPeerConfig

abbrev pub Call : Type 0 → Type 0 → Type 0
Call S A = Action S String A

-- the trait
pub record TunnelBackend (S : Type 0) : Type 0 where
  pub apply_interface_config : WireGuardInterfaceConfig → Call S (Unit {0})
  pub apply_peer_config : String → WireGuardPeerConfig → Call S (Unit {0})
  pub remove_peer : String → Call S (Unit {0})
  pub bring_up : Call S (Unit {0})
  pub bring_down : Call S (Unit {0})
  pub runtime_stats : String → Call S (Option WireGuardRuntimeStats)
  pub establish : TunnelConfig → Call S (Unit {0})
  pub close : String → Call S (Unit {0})

-- `establish` of the trait, where a backend does not say otherwise, over its other methods
unfoldable pub establish_by_default :
    {S : Type 0}
    → (WireGuardInterfaceConfig → Call S (Unit {0}))
    → (String → WireGuardPeerConfig → Call S (Unit {0}))
    → Call S (Unit {0})
    → TunnelConfig
    → Call S (Unit {0})
establish_by_default apply_interface_config apply_peer_config bring_up config = do
  apply_interface_config config.wireguard_interface
  apply_peer_config config.peer_virtual_ip config.wireguard_peer
  bring_up

pub record InMemoryTunnelBackend : Type 0 where
  pub poisoned : Bool
  pub state : Table WireGuardPeerConfig

abbrev pub new_memory : InMemoryTunnelBackend
new_memory = record { poisoned = false; state = [] }

abbrev pub established_peer_ips : InMemoryTunnelBackend → List String
established_peer_ips s = elim s.poisoned [ true ↦ [] | false ↦ map (λ e. e.0) s.state ]

abbrev lock : Call InMemoryTunnelBackend (Unit {0})
lock = gets (λ s. s.poisoned) >>= λ p. fail_if p "tunnel backend state poisoned"

abbrev insert_peer : String → WireGuardPeerConfig → InMemoryTunnelBackend → InMemoryTunnelBackend
insert_peer ip peer s = record s { state = Table.insert ip peer s.state }

abbrev drop_peer : String → InMemoryTunnelBackend → InMemoryTunnelBackend
drop_peer ip s = record s { state = Table.remove ip s.state }

unfoldable pub memory_apply_peer :
    String → WireGuardPeerConfig → Call InMemoryTunnelBackend (Unit {0})
memory_apply_peer ip peer = lock >>= λ _. modify (insert_peer ip peer)

unfoldable pub memory_remove_peer : String → Call InMemoryTunnelBackend (Unit {0})
memory_remove_peer ip = lock >>= λ _. modify (drop_peer ip)

abbrev pub memory_backend : TunnelBackend InMemoryTunnelBackend
memory_backend = record {
  apply_interface_config = λ config. pure tt;
  apply_peer_config = memory_apply_peer;
  remove_peer = memory_remove_peer;
  bring_up = pure tt;
  bring_down = pure tt;
  runtime_stats = λ ip. pure none;
  establish = λ config. memory_apply_peer config.peer_virtual_ip config.wireguard_peer;
  close = memory_remove_peer;
}

abbrev pub unsupported : {S : Type 0} → Call S (Unit {0})
unsupported = fail "android wireguard tunnel backend not implemented"

abbrev pub android_backend : TunnelBackend (Unit {0})
android_backend = record {
  apply_interface_config = λ config. pure tt;
  apply_peer_config = λ ip peer. unsupported;
  remove_peer = λ ip. unsupported;
  bring_up = pure tt;
  bring_down = pure tt;
  runtime_stats = λ ip. pure none;
  establish = λ config. unsupported;
  close = λ ip. unsupported;
}
