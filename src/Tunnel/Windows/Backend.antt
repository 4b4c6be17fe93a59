-- ===== src/Tunnel/Windows/Backend.antt =====
-- `WindowsEmbeddableServiceBackend` (client/app_core/crates/tunnel/src/windows_backend.rs)
pub mod Refinement
use slan.Prelude.{
  ℕ, String, Bool, true, false, List, [], ◌∷◌, map, null, Option, none, some, Result, ok, err,
  concat, trim, is_empty, ◌==◌, if◌then◌else◌, reject_if, unwrap_or,
}
use slan.Prelude.Table
use slan.Prelude.Table.{Table}
use slan.Client.Action.{Action, go_on, ◌>>=◌, ◌>>◌, pure, fail, lift, gets, modify, fail_if, need}
use slan.AppCore.Wireguard.{
  WireGuardInterfaceConfig, WireGuardPeerConfig, WireGuardRuntimeStats, p2p, relay,
}
use slan.Tunnel.Backend.{TunnelConfig, TunnelBackend, Call}
use slan.Tunnel.Linux.Mapper.{is_blank}
use slan.Tunnel.Windows.Address.{parse_interface_address}
use slan.Tunnel.Windows.Scripts.{WindowsInterfaceRuntime, Target, filled}
use slan.Tunnel.Windows.Console.{
  WindowsHost, Run, attempt, resolve_interface_target, apply_system_interface,
  remove_system_interface_address,
}

pub record WindowsPeerRuntime : Type 0 where
  pub peer : WireGuardPeerConfig
  pub latest_handshake_at_ms : Option ℕ

pub record WindowsEmbeddableServiceBackend (World : Type 0) : Type 0 where
  pub interface : Option WindowsInterfaceRuntime
  pub peers : Table WindowsPeerRuntime
  pub interface_poisoned : Bool
  pub peers_poisoned : Bool
  pub world : World

abbrev pub needs_address : String
needs_address = "windows backend requires at least one wireguard interface address"

-- checks in their order, each with its text
unfoldable pub check : List (Bool × String) → Result String (Unit {0})
check [] = ok tt
check ((failing, text) ∷ rest) = let later = check rest in if failing then err text else later

unfoldable pub validate_interface : WireGuardInterfaceConfig → Result String (Unit {0})
validate_interface interface = check (
    (
      is_blank interface.key_pair.public_key,
      "windows backend requires non-empty wireguard public key",
    )
    ∷ (
      is_blank interface.key_pair.private_key,
      "windows backend requires non-empty wireguard private key",
    )
    ∷ (null interface.addresses, needs_address)
    ∷ [])

unfoldable pub validate_peer : String → WireGuardPeerConfig → Result String (Unit {0})
validate_peer peer_virtual_ip peer = check (
    (is_blank peer_virtual_ip, "windows backend requires non-empty peer virtual ip")
    ∷ (is_blank peer.public_key, "windows backend requires non-empty peer public key")
    ∷ (null peer.allowed_ips, "windows backend requires at least one allowed ip")
    ∷ [])

unfoldable pub validate_ends : TunnelConfig → Result String (Unit {0})
validate_ends config = check (
    (is_blank config.local_virtual_ip, "windows backend requires non-empty local virtual ip")
    ∷ (is_blank config.peer_virtual_ip, "windows backend requires non-empty peer virtual ip")
    ∷ (
      config.local_virtual_ip == config.peer_virtual_ip,
      "windows backend requires distinct local and peer virtual ip",
    )
    ∷ [])

abbrev pub first_address : List String → Option String
first_address [] = none
first_address (address ∷ rest) = filled (some address)

module _ (H : WindowsHost) where
  abbrev pub Backend : Type 0
  Backend = WindowsEmbeddableServiceBackend H.World

  abbrev pub Method : Type 0 → Type 0
  Method A = Call Backend A

  -- a step of the host
  unfoldable pub on_host : {A : Type 0} → Run H A → Method A
  on_host m s = let (r, world') = m s.world in (r, record s { world = world' })

  abbrev pub lock_interface : Method (Unit {0})
  lock_interface =
      gets (λ s. s.interface_poisoned) >>= λ p. fail_if p "windows backend interface state poisoned"

  abbrev pub lock_peers : Method (Unit {0})
  lock_peers = gets (λ s. s.peers_poisoned) >>= λ p. fail_if p "windows backend peer state poisoned"

  abbrev pub set_interface : Option WindowsInterfaceRuntime → Backend → Backend
  set_interface runtime s = record s { interface = runtime }

  abbrev pub insert_peer : String → WireGuardPeerConfig → Backend → Backend
  insert_peer ip peer s = record s {
    peers = Table.insert ip (record { peer = peer; latest_handshake_at_ms = none }) s.peers;
  }

  abbrev pub drop_peer : String → Backend → Backend
  drop_peer ip s = record s { peers = Table.remove ip s.peers }

  abbrev pub seen_at : ℕ → String × WindowsPeerRuntime → String × WindowsPeerRuntime
  seen_at now (ip, p) = (ip, record p { latest_handshake_at_ms = some now })

  abbrev pub mark_seen : ℕ → Backend → Backend
  mark_seen now s = record s { peers = map (seen_at now) s.peers }

  -- `current_timestamp_ms`
  abbrev pub current_timestamp_ms : Method ℕ
  current_timestamp_ms = gets (λ s. unwrap_or (H.now_ms s.world) 0)

  abbrev pub placed : Target → String × ℕ → WindowsInterfaceRuntime
  placed (name, (index, dedicated)) (ip, prefix_len) = record {
    interface_name = name;
    interface_index = index;
    is_dedicated_adapter = dedicated;
    local_virtual_ip = ip;
    local_prefix_len = prefix_len;
    is_up = false;
  }

  unfoldable pub apply_interface_config : WireGuardInterfaceConfig → Method (Unit {0})
  apply_interface_config interface = do
    lift (validate_interface interface)
    address ← need (first_address interface.addresses) needs_address
    local ← lift (parse_interface_address address)
    lock_interface
    target ← on_host (resolve_interface_target H interface.interface_name)
    modify (set_interface (some (placed target local)))

  unfoldable pub apply_peer_config : String → WireGuardPeerConfig → Method (Unit {0})
  apply_peer_config peer_virtual_ip peer = do
    lift (validate_peer peer_virtual_ip peer)
    lock_peers
    modify (insert_peer peer_virtual_ip peer)

  abbrev pub current_interface : Method WindowsInterfaceRuntime
  current_interface = lock_interface >>= λ _. gets (λ s. s.interface) >>= λ runtime.
      need runtime "windows backend interface runtime unavailable"

  unfoldable pub bring_up : Method (Unit {0})
  bring_up = do
    runtime ← current_interface
    on_host (apply_system_interface H runtime)
    modify (set_interface (some (record runtime { is_up = true })))
    now ← current_timestamp_ms
    lock_peers
    modify (mark_seen now)

  unfoldable pub bring_down : Method (Unit {0})
  bring_down = do
    runtime ← current_interface
    on_host (attempt H (remove_system_interface_address H runtime))
    modify (set_interface (some (record runtime { is_up = false })))

  unfoldable pub establish : TunnelConfig → Method (Unit {0})
  establish config = do
    lift (validate_ends config)
    lift (validate_interface config.wireguard_interface)
    lift (validate_peer config.peer_virtual_ip config.wireguard_peer)
    apply_interface_config config.wireguard_interface
    apply_peer_config config.peer_virtual_ip config.wireguard_peer
    bring_up

  unfoldable pub remove_peer : String → Method (Unit {0})
  remove_peer peer_virtual_ip = lock_peers >>= λ _. modify (drop_peer peer_virtual_ip)

  abbrev pub stats_of :
      WindowsInterfaceRuntime → Option WindowsPeerRuntime → Option WireGuardRuntimeStats
  stats_of runtime none = none
  stats_of runtime (some p) = some (record {
    transport = elim runtime.is_up [ true ↦ p2p | false ↦ relay ];
    peer_public_key = p.peer.public_key;
    selected_endpoint = p.peer.endpoint;
    latest_handshake_at_ms = p.latest_handshake_at_ms;
    bytes_received = elim runtime.is_up [ true ↦ 1 | false ↦ 0 ];
    bytes_sent = elim runtime.is_up [ true ↦ 1 | false ↦ 0 ];
  })

  unfoldable pub runtime_stats : String → Method (Option WireGuardRuntimeStats)
  runtime_stats peer_virtual_ip = do
    runtime ← current_interface
    lock_peers
    p ← gets (λ s. Table.get peer_virtual_ip s.peers)
    pure (stats_of runtime p)

  abbrev pub planned_peer_ips : Backend → List String
  planned_peer_ips s = elim s.peers_poisoned [ true ↦ [] | false ↦ map (λ e. e.0) s.peers ]

  abbrev pub windows_backend : TunnelBackend Backend
  windows_backend = record {
    apply_interface_config = apply_interface_config;
    apply_peer_config = apply_peer_config;
    remove_peer = remove_peer;
    bring_up = bring_up;
    bring_down = bring_down;
    runtime_stats = runtime_stats;
    establish = establish;
    close = remove_peer;
  }
