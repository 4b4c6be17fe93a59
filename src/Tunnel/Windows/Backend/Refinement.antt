-- ===== src/Tunnel/Windows/Backend/Refinement.antt =====
-- The peers of the Windows backend (client/app_core/crates/tunnel/src/windows_backend.rs)
use slan.Prelude.{ℕ, String, ◌≡◌, refl, ap, ◌∙◌, [], ◌∷◌, map, Option, inl, inr, Bool-cases, ◌==◌}
use slan.Prelude.Table
use slan.Prelude.Table.{Table}
use slan.Client.Action.{modify}
use slan.Client.Action.Keeps.{
  Keeps, Keeps-bind, Keeps-pure, Keeps-lift, Keeps-gets, Keeps-fail_if, Keeps-need, Keeps-modify,
}
use slan.AppCore.Wireguard.{WireGuardInterfaceConfig, WireGuardPeerConfig}
use slan.Tunnel.Backend.{TunnelConfig}
use slan.Tunnel.Runtime.{system_tunnel_manager}
use slan.Tunnel.Contract
use slan.Tunnel.Contract.{
  Request, Changes, Changes-modify, Changes-after, Changes-before, KeepsTable, change, answer,
}
use slan.Tunnel.Windows.Scripts.{WindowsInterfaceRuntime}
use slan.Tunnel.Windows.Console.{WindowsHost, Run}
use slan.Tunnel.Windows.Backend.{
  WindowsPeerRuntime, Backend, on_host, set_interface, insert_peer, drop_peer, mark_seen, seen_at,
  apply_interface_config, apply_peer_config, remove_peer, windows_backend, bring_up, lock_peers,
}
use slan.Tunnel.Windows.Backend as WindowsBackend

abbrev config_of : String × WindowsPeerRuntime → String × WireGuardPeerConfig
config_of (ip, p) = (ip, p.peer)

-- the configurations of the peers
abbrev pub configs : Table WindowsPeerRuntime → Table WireGuardPeerConfig
configs m = map config_of m

configs-remove :
    (k : String) (m : Table WindowsPeerRuntime)
    → configs (Table.remove k m) ≡ Table.remove k (configs m)
unfolding Table.remove
configs-remove k [] = refl
configs-remove k ((j, p) ∷ m) = elim (Bool-cases (j == k)) [
  | inl found ↦ rw found (configs-remove k m)
  | inr other ↦ rw other (ap (λ r. (j, p.peer) ∷ r) (configs-remove k m))
]

configs-insert :
    (k : String) (p : WindowsPeerRuntime) (m : Table WindowsPeerRuntime)
    → configs (Table.insert k p m) ≡ Table.insert k p.peer (configs m)
unfolding Table.insert
configs-insert k p m = ap (λ r. (k, p.peer) ∷ r) (configs-remove k m)

configs-seen :
    (H : WindowsHost) (now : ℕ) (m : Table WindowsPeerRuntime)
    → configs (map (seen_at H now) m) ≡ configs m
configs-seen H now [] = refl
configs-seen H now ((ip, p) ∷ m) = ap (λ r. (ip, p.peer) ∷ r) (configs-seen H now m)

module _ (H : WindowsHost) where
  abbrev view : Backend H → Table WireGuardPeerConfig
  view s = configs s.peers

  abbrev Same : Table WireGuardPeerConfig → Backend H → Type 0
  Same v s = view s ≡ v

  module _ (v : Table WireGuardPeerConfig) where
    on_host-Same : {A : Type 0} (m : Run H A) → Keeps (Same v) (on_host H m)
    unfolding on_host
    on_host-Same m = record { holds = λ s h. h }

    interface-Same :
        (r : Option WindowsInterfaceRuntime)
        → Keeps {E = String} (Same v) (modify (set_interface H r))
    interface-Same r = Keeps-modify _ _ (λ s h. h)

    seen-Same : (now : ℕ) → Keeps {E = String} (Same v) (modify (mark_seen H now))
    seen-Same now = Keeps-modify _ _ (λ s h. configs-seen H now s.peers ∙ h)

    ruleset steps = (
      Keeps-bind, Keeps-pure, Keeps-lift, Keeps-gets, Keeps-fail_if, Keeps-need, on_host-Same,
      interface-Same, seen-Same,
    )

    bring_up-Same : Keeps (Same v) (bring_up H)
    unfolding bring_up
    bring_up-Same = search steps depth 14

    apply_interface_config-Same :
        (interface : WireGuardInterfaceConfig) → Keeps (Same v) (apply_interface_config H interface)
    unfolding apply_interface_config
    apply_interface_config-Same interface = search steps depth 14

    lock_peers-Same : Keeps (Same v) (lock_peers H)
    lock_peers-Same = search steps depth 14

  apply_peer_config-Does :
      (ip : String) (p : WireGuardPeerConfig)
      → Changes view (Table.insert ip p) (apply_peer_config H ip p)
  unfolding apply_peer_config
  apply_peer_config-Does ip p =
      Changes-after view _ _ _ (λ v. Keeps-lift _ _)
        (λ u.
          Changes-after view _ _ _ lock_peers-Same
            (λ w. Changes-modify view _ _ (λ s. configs-insert ip _ s.peers)))

  remove_peer-Does : (ip : String) → Changes view (Table.remove ip) (remove_peer H ip)
  unfolding remove_peer
  remove_peer-Does ip =
      Changes-after view _ _ _ lock_peers-Same
        (λ w. Changes-modify view _ _ (λ s. configs-remove ip s.peers))

  establish-Does :
      (config : TunnelConfig)
      → Changes view
          (Table.insert config.peer_virtual_ip config.wireguard_peer)
          (WindowsBackend.establish H config)
  unfolding WindowsBackend.establish
  establish-Does config =
      Changes-after view _ _ _ (λ v. Keeps-lift _ _)
        (λ a.
          Changes-after view _ _ _ (λ v. Keeps-lift _ _)
            (λ b.
              Changes-after view _ _ _ (λ v. Keeps-lift _ _)
                (λ c.
                  Changes-after view _ _ _ (λ v. apply_interface_config-Same v _)
                    (λ d.
                      Changes-before view _ _ _ (apply_peer_config-Does _ _)
                        (λ e v. bring_up-Same v)))))

  -- Each request to the manager over the Windows backend that goes well makes its change to the
  -- configurations of the peers; one that fails makes it or leaves them as they were.
  pub windows_answers :
      (r : Request)
      → Changes
          (λ (s : Backend H). configs s.peers)
          (change (λ p. p) r)
          (answer (system_tunnel_manager (windows_backend H)) r)
  unfolding change
  windows_answers (Contract.establish config) = establish-Does config
  windows_answers (Contract.close ip) = remove_peer-Does ip

  abbrev pub windows_keeps_table : KeepsTable (system_tunnel_manager (windows_backend H))
  windows_keeps_table = record {
    Peer = WireGuardPeerConfig;
    planned = λ p. p;
    peers = view;
    answers = windows_answers;
  }
