-- ===== src/Tunnel/Linux/Backend/Established.antt =====
-- What an established tunnel of the Linux backend reports
-- (client/app_core/crates/tunnel/src/linux_{adapter,backend}.rs)
use slan.Prelude.{String, true, false, ◌≡◌, List, some}
use slan.Prelude.Table
use slan.Prelude.Table.{Table}
use slan.Client.Action.{modify}
use slan.Client.Action.Keeps.{
  Keeps, Keeps-bind, Keeps-pure, Keeps-lift, Keeps-gets, Keeps-fail_if, Keeps-need, Keeps-modify,
}
use slan.Client.Action.Yields.{Yields}
use slan.Tunnel.Linux.Mapper.{LinuxKernelPeerPlan, LinuxKernelRuntime}
use slan.Tunnel.Linux.Commands.{LinuxCommandSpec}
use slan.Tunnel.Linux.Execution.{LinuxKernelCommandExecutor}
use slan.Tunnel.Linux.Adapter.{Adapter, run_one, record_commands}

module _ (X : LinuxKernelCommandExecutor) where
  abbrev Anything : Adapter X → Type 0
  Anything s = Unit {0}

  -- the peer is planned and can be read
  abbrev Planned : String → LinuxKernelPeerPlan → Adapter X → Type 0
  Planned ip p s = Table.get ip s.peers ≡ some p × s.peers_poisoned ≡ false

  -- ... and the interface can be read
  abbrev Readable : String → LinuxKernelPeerPlan → Adapter X → Type 0
  Readable ip p s = Planned ip p s × s.interface_poisoned ≡ false

  abbrev Up : String → LinuxKernelPeerPlan → Adapter X → Type 0
  Up ip p s = Readable ip p s × ((r : LinuxKernelRuntime) × s.interface ≡ some r × r.is_up ≡ true)

  module _ (ip : String) (p : LinuxKernelPeerPlan) where
    run_one-Readable : (c : LinuxCommandSpec) → Keeps (Readable ip p) (run_one X c)
    unfolding run_one
    run_one-Readable c = record { holds = λ s h. h }

    recorded-Readable :
        (cs : List LinuxCommandSpec)
        → Keeps {E = String} (Readable ip p) (modify (record_commands X cs))
    recorded-Readable cs = Keeps-modify _ _ (λ s h. h)

    ruleset steps = (
      Keeps-bind, Keeps-pure, Keeps-lift, Keeps-gets, Keeps-fail_if, Keeps-need, run_one-Readable,
      recorded-Readable,
    )
