-- ===== src/Tunnel/Linux/Backend/Failing.antt =====
-- Removals that fail, in the Linux driver
-- (client/app_core/crates/tunnel/src/linux_adapter.rs)
use slan.Prelude.{String, false, ◌≡◌, refl, sym, ap, subst, ◌∙◌, List, [], ◌∷◌, none, some, ok, err}
use slan.Prelude.Table
use slan.Prelude.Table.{Table, get-remove_self}
use slan.Client.Action.{◌>>=◌, pure, gets, modify, fail_if, need}
use slan.Client.Action.Keeps.{
  Keeps, Keeps-bind, Keeps-pure, Keeps-gets, Keeps-fail_if, Keeps-modify,
}
use slan.Tunnel.Linux.Mapper.{LinuxKernelPeerPlan, LinuxKernelRuntime}
use slan.Tunnel.Linux.Commands.{LinuxCommandSpec, interface_name_from_runtime, remove_peer_commands}
use slan.Tunnel.Linux.Execution.{LinuxKernelCommandExecutor}
use slan.Tunnel.Linux.Adapter.{
  Adapter, run_one, run_all, run_each, remove_peer, drop_peer, record_commands,
}

module _ (X : LinuxKernelCommandExecutor) where
  -- no lock is poisoned, and an interface is applied
  pub record IsReady (s : Adapter X) (runtime : LinuxKernelRuntime) : Type 0 where
    pub interface_healthy : s.interface_poisoned ≡ false
    pub peers_healthy : s.peers_poisoned ≡ false
    pub commands_healthy : s.commands_poisoned ≡ false
    pub has_interface : s.interface ≡ some runtime

  -- removing a peer that is not there
  remove-absent :
      (s : Adapter X) (runtime : LinuxKernelRuntime) (ip : String)
      → IsReady s runtime
      → Table.get ip s.peers ≡ none
      → remove_peer X ip s ≡ (ok tt, s)
  unfolding remove_peer ◌>>=◌ gets need fail_if pure
  remove-absent s runtime ip h absent =
      rw (h.interface_healthy, h.has_interface, h.peers_healthy, absent) refl

  -- removing one that is there
  remove-present :
      (s : Adapter X) (runtime : LinuxKernelRuntime) (ip : String) (p : LinuxKernelPeerPlan)
      → IsReady s runtime
      → Table.get ip s.peers ≡ some p
      → remove_peer X ip s
        ≡ run_all X
            (remove_peer_commands (interface_name_from_runtime runtime) p)
            (drop_peer X ip s)
  unfolding remove_peer ◌>>=◌ gets need fail_if pure modify
  remove-present s runtime ip p h present =
      rw (h.interface_healthy, h.has_interface, h.peers_healthy, present) refl

  -- ready, with these peers
  abbrev ReadyWith : LinuxKernelRuntime → Table LinuxKernelPeerPlan → Adapter X → Type 0
  ReadyWith runtime v s = IsReady s runtime × s.peers ≡ v

  module _ (runtime : LinuxKernelRuntime) (v : Table LinuxKernelPeerPlan) where
    run_one-Ready : (c : LinuxCommandSpec) → Keeps (ReadyWith runtime v) (run_one X c)
    unfolding run_one
    run_one-Ready c = record {
      holds = λ s (h, e). (
        record {
          interface_healthy = h.interface_healthy;
          peers_healthy = h.peers_healthy;
          commands_healthy = h.commands_healthy;
          has_interface = h.has_interface;
        },
        e,
      );
    }

    recorded-Ready :
        (cs : List LinuxCommandSpec)
        → Keeps {E = String} (ReadyWith runtime v) (modify (record_commands X cs))
    recorded-Ready cs = Keeps-modify _ _ (λ s (h, e). (
      record {
        interface_healthy = h.interface_healthy;
        peers_healthy = h.peers_healthy;
        commands_healthy = h.commands_healthy;
        has_interface = h.has_interface;
      },
      e,
    ))

    run_each-Ready : (cs : List LinuxCommandSpec) → Keeps (ReadyWith runtime v) (run_each X cs)
    unfolding run_each
    run_each-Ready [] = Keeps-pure _ tt
    run_each-Ready (c ∷ cs) = Keeps-bind _ _ _ (run_one-Ready c) (λ u. run_each-Ready cs)

    run_all-Ready : (cs : List LinuxCommandSpec) → Keeps (ReadyWith runtime v) (run_all X cs)
    unfolding run_all
    run_all-Ready cs =
        search (Keeps-bind, Keeps-gets, Keeps-fail_if, run_each-Ready, recorded-Ready) depth 14

  -- Where an interface is applied and no lock is poisoned, a removal of a planned peer that fails in
  -- one of its commands leaves a driver that answers the next removal of that peer with success and
  -- runs nothing for it.
  pub remove-forgets :
      (s t : Adapter X) (runtime : LinuxKernelRuntime) (ip e : String) (p : LinuxKernelPeerPlan)
      → IsReady s runtime
      → Table.get ip s.peers ≡ some p
      → remove_peer X ip s ≡ (err e, t)
      → remove_peer X ip t ≡ (ok tt, t)
  remove-forgets s t runtime ip e p h present failed =
      let commands = remove_peer_commands (interface_name_from_runtime runtime) p in
      let dropped : IsReady (drop_peer X ip s) runtime = record {
        interface_healthy = h.interface_healthy;
        peers_healthy = h.peers_healthy;
        commands_healthy = h.commands_healthy;
        has_interface = h.has_interface;
      } in
      let same = sym (remove-present s runtime ip p h present) ∙ failed in
      let (ready, left) =
        subst (λ q. ReadyWith runtime (Table.remove ip s.peers) q.1) same
          ((run_all-Ready runtime (Table.remove ip s.peers) commands).holds (drop_peer X ip s)
            (dropped, refl)) in
      remove-absent t runtime ip ready (ap (λ m. Table.get ip m) left ∙ get-remove_self ip s.peers)
