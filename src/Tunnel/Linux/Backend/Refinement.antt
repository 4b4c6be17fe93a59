-- ===== src/Tunnel/Linux/Backend/Refinement.antt =====
-- The peers of the Linux backend (client/app_core/crates/tunnel/src/linux_{adapter,backend}.rs)
use slan.Prelude.{
  String, ◌≡◌, refl, sym, ap, List, [], ◌∷◌, inl, inr, Option, none, some, Option-cases, Bool-cases,
  ◌==◌,
}
use slan.Prelude.Table
use slan.Prelude.Table.{Table}
use slan.Client.Action.{◌>>=◌, pure, gets, modify}
use slan.Client.Action.Keeps.{
  Keeps, Keeps-bind, Keeps-pure, Keeps-fail, Keeps-lift, Keeps-gets, Keeps-fail_if, Keeps-need,
  Keeps-modify,
}
use slan.AppCore.Wireguard.{WireGuardInterfaceConfig}
use slan.Tunnel.Backend.{TunnelConfig}
use slan.Tunnel.Runtime.{system_tunnel_manager}
use slan.Tunnel.Contract
use slan.Tunnel.Contract.{
  Request, Changes, Outcome, Leaves, Changes-modify, Changes-after, Changes-before, KeepsTable,
  change, answer,
}
use slan.Tunnel.Linux.Mapper.{LinuxKernelPeerPlan, LinuxKernelRuntime, map_peer}
use slan.Tunnel.Linux.Commands.{LinuxCommandSpec}
use slan.Tunnel.Linux.Execution.{LinuxKernelCommandExecutor}
use slan.Tunnel.Linux.Adapter.{
  runtime_name, lock_peers, Adapter, Method, run_one, run_each, run_all, apply_interface,
  apply_peer, remove_peer, bring_up, record_commands, set_interface, drop_peer, run_removal,
}
use slan.Tunnel.Linux.Backend.{apply_interface_config, apply_peer_config, linux_backend}
use slan.Tunnel.Linux.Backend as LinuxBackend

-- removing an absent key
remove_absent :
    {V : Type 0} (k : String) (m : Table V) → Table.get k m ≡ none → Table.remove k m ≡ m
unfolding Table.get Table.remove
remove_absent k [] h = refl
remove_absent k ((j, v) ∷ m) h = elim (Bool-cases (j == k)) [
  | inl found ↦ cc (rw found at h)
  | inr other ↦ rw other (ap (λ r. (j, v) ∷ r) (remove_absent k m (rw other at h)))
]

module _ (X : LinuxKernelCommandExecutor) where
  abbrev peers_of : Adapter X → Table LinuxKernelPeerPlan
  peers_of s = s.peers

  abbrev Same : Table LinuxKernelPeerPlan → Adapter X → Type 0
  Same v s = s.peers ≡ v

  module _ (v : Table LinuxKernelPeerPlan) where
    run_one-Same : (c : LinuxCommandSpec) → Keeps (Same v) (run_one X c)
    unfolding run_one
    run_one-Same c = record { holds = λ s h. h }

    run_each-Same : (cs : List LinuxCommandSpec) → Keeps (Same v) (run_each X cs)
    unfolding run_each
    run_each-Same [] = Keeps-pure _ tt
    run_each-Same (c ∷ cs) = Keeps-bind _ _ _ (run_one-Same c) (λ u. run_each-Same cs)

    recorded-Same :
        (cs : List LinuxCommandSpec) → Keeps {E = String} (Same v) (modify (record_commands X cs))
    recorded-Same cs = Keeps-modify _ _ (λ s h. h)

    interface-Same :
        (r : Option LinuxKernelRuntime) → Keeps {E = String} (Same v) (modify (set_interface X r))
    interface-Same r = Keeps-modify _ _ (λ s h. h)

    ruleset steps = (
      Keeps-bind, Keeps-pure, Keeps-fail, Keeps-lift, Keeps-gets, Keeps-fail_if, Keeps-need,
      run_one-Same, run_each-Same, recorded-Same, interface-Same,
    )

    run_all-Same : (cs : List LinuxCommandSpec) → Keeps (Same v) (run_all X cs)
    unfolding run_all
    run_all-Same cs = search steps depth 14

    bring_up-Same : Keeps (Same v) (bring_up X)
    unfolding bring_up
    bring_up-Same = search steps depth 14

    apply_interface_config-Same :
        (interface : WireGuardInterfaceConfig) → Keeps (Same v) (apply_interface_config X interface)
    unfolding apply_interface_config apply_interface
    apply_interface_config-Same interface = search (steps, run_all-Same) depth 14

    runtime_name-Same : Keeps (Same v) (runtime_name X)
    runtime_name-Same = search steps depth 14

    lock_peers-Same : Keeps (Same v) (lock_peers X)
    lock_peers-Same = search steps depth 14

  abbrev Does :
      {A : Type 0} → (Table LinuxKernelPeerPlan → Table LinuxKernelPeerPlan) → Method X A → Type 0
  Does f m = Changes peers_of f m

  apply_peer-Does :
      (ip : String) (p : LinuxKernelPeerPlan) → Does (Table.insert ip p) (apply_peer X ip p)
  unfolding apply_peer
  apply_peer-Does ip p = Changes-after peers_of _ _ _ runtime_name-Same (λ name.
      Changes-after peers_of _ _ _ (λ v. run_all-Same v _)
        (λ u.
          Changes-after peers_of _ _ _ lock_peers-Same
            (λ w. Changes-modify peers_of _ _ (λ s. refl))))

  run_removal-Does :
      (name ip : String) (p : LinuxKernelPeerPlan)
      → Does (Table.remove ip) (run_removal X name ip (some p))
  run_removal-Does name ip p =
      Changes-before peers_of _ _ _ (Changes-modify peers_of _ (drop_peer X ip) (λ s. refl))
        (λ u v. run_all-Same v _)

  -- what follows the locks of a removal
  removal : (name ip : String) → Method X (Unit {0})
  removal name ip = gets (λ s. Table.get ip s.peers) >>= λ peer. run_removal X name ip peer

  removal-Does : (name ip : String) → Does (Table.remove ip) (removal name ip)
  unfolding removal ◌>>=◌ gets pure
  removal-Does name ip = record {
    outcome = λ s. elim (Option-cases (Table.get ip s.peers)) [
      | inl absent ↦ rw absent (sym (remove_absent ip s.peers absent))
      | inr (p, found) ↦ rw found ((run_removal-Does name ip p).outcome s)
    ];
  }

  remove_peer-Does : (ip : String) → Does (Table.remove ip) (remove_peer X ip)
  unfolding remove_peer removal
  remove_peer-Does ip =
      Changes-after peers_of _ _ _ runtime_name-Same
        (λ name. Changes-after peers_of _ _ _ lock_peers-Same (λ u. removal-Does name ip))

  establish-Does :
      (config : TunnelConfig)
      → Does
          (Table.insert config.peer_virtual_ip (map_peer config.wireguard_peer))
          (LinuxBackend.establish X config)
  unfolding LinuxBackend.establish apply_peer_config
  establish-Does config =
      Changes-after peers_of _ _ _ (λ v. Keeps-lift _ _)
        (λ u.
          Changes-after peers_of _ _ _ (λ v. apply_interface_config-Same v _)
            (λ w.
              Changes-before peers_of _ _ _
                (Changes-after peers_of _ _ _ (λ v. Keeps-lift _ _) (λ x. apply_peer-Does _ _))
                (λ y v. bring_up-Same v)))

  -- Each request to the manager over the Linux backend that goes well makes its change to the planned
  -- peers; one that fails makes it or leaves them as they were.
  pub linux_answers :
      (r : Request)
      → Changes
          (λ (s : Adapter X). s.peers)
          (change map_peer r)
          (answer (system_tunnel_manager (linux_backend X)) r)
  unfolding change
  linux_answers (Contract.establish config) = establish-Does config
  linux_answers (Contract.close ip) = remove_peer-Does ip

  abbrev pub linux_keeps_table : KeepsTable (system_tunnel_manager (linux_backend X))
  linux_keeps_table = record {
    Peer = LinuxKernelPeerPlan;
    planned = map_peer;
    peers = peers_of;
    answers = linux_answers;
  }
