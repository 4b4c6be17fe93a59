-- ===== src/Tunnel/Linux/Adapter.antt =====
-- `LinuxKernelWireGuardAdapter` (client/app_core/crates/tunnel/src/linux_adapter.rs), with its three
-- locks. What runs the commands is a parameter.
use slan.Prelude.{
  ℕ, String, Bool, true, false, List, [], ◌∷◌, ◌++◌, map, length, Option, none, some,
}
use slan.Prelude.Table
use slan.Prelude.Table.{Table}
use slan.Client.Action.{◌>>=◌, ◌>>◌, pure, gets, modify, fail_if, need}
use slan.Tunnel.Backend.{Call}
use slan.Tunnel.Linux.Mapper.{LinuxKernelInterfacePlan, LinuxKernelPeerPlan, LinuxKernelRuntime}
use slan.Tunnel.Linux.Commands.{
  LinuxCommandSpec, interface_name_from_runtime, apply_interface_commands, apply_peer_commands,
  remove_peer_commands, bring_up_command, bring_down_command,
}
use slan.Tunnel.Linux.Execution.{LinuxKernelCommandExecutor}

pub data LinuxExecutionMode : Type 0 where
  system dry_run : LinuxExecutionMode

pub data LinuxExecutionBackend : Type 0 where
  shell native : LinuxExecutionBackend

pub record LinuxDriverDiagnostics : Type 0 where
  pub execution_mode : LinuxExecutionMode
  pub execution_backend : LinuxExecutionBackend
  pub interface_name : Option String
  pub is_up : Bool
  pub planned_peer_count : ℕ
  pub recent_command_count : ℕ

pub record LinuxKernelWireGuardAdapter (World : Type 0) : Type 0 where
  pub execution_mode : LinuxExecutionMode
  pub execution_backend : LinuxExecutionBackend
  pub interface : Option LinuxKernelRuntime
  pub peers : Table LinuxKernelPeerPlan
  pub recent_commands : List LinuxCommandSpec
  pub interface_poisoned : Bool
  pub peers_poisoned : Bool
  pub commands_poisoned : Bool
  pub world : World

module _ (X : LinuxKernelCommandExecutor) where
  abbrev pub Adapter : Type 0
  Adapter = LinuxKernelWireGuardAdapter X.World

  abbrev pub Method : Type 0 → Type 0
  Method A = Call Adapter A

  abbrev pub new_with_executor : X.World → LinuxExecutionMode → LinuxExecutionBackend → Adapter
  new_with_executor world mode backend = record {
    execution_mode = mode;
    execution_backend = backend;
    interface = none;
    peers = [];
    recent_commands = [];
    interface_poisoned = false;
    peers_poisoned = false;
    commands_poisoned = false;
    world = world;
  }

  abbrev pub lock_interface : Method (Unit {0})
  lock_interface =
      gets (λ s. s.interface_poisoned) >>= λ p. fail_if p "linux adapter interface state poisoned"

  abbrev pub lock_peers : Method (Unit {0})
  lock_peers = gets (λ s. s.peers_poisoned) >>= λ p. fail_if p "linux adapter peer state poisoned"

  abbrev pub lock_commands : Method (Unit {0})
  lock_commands =
      gets (λ s. s.commands_poisoned) >>= λ p. fail_if p "linux adapter command state poisoned"

  -- `executor.run`
  unfoldable pub run_one : LinuxCommandSpec → Method (Unit {0})
  run_one c s = let (r, world') = X.run c s.world in (r, record s { world = world' })

  unfoldable pub run_each : List LinuxCommandSpec → Method (Unit {0})
  run_each [] = pure tt
  run_each (c ∷ cs) = run_one c >>= λ _. run_each cs

  abbrev pub record_commands : List LinuxCommandSpec → Adapter → Adapter
  record_commands cs s = record s { recent_commands = s.recent_commands ++ cs }

  abbrev pub set_interface : Option LinuxKernelRuntime → Adapter → Adapter
  set_interface runtime s = record s { interface = runtime }

  abbrev pub set_peers : Table LinuxKernelPeerPlan → Adapter → Adapter
  set_peers peers s = record s { peers = peers }

  abbrev pub insert_peer : String → LinuxKernelPeerPlan → Adapter → Adapter
  insert_peer ip peer s = record s { peers = Table.insert ip peer s.peers }

  abbrev pub drop_peer : String → Adapter → Adapter
  drop_peer ip s = record s { peers = Table.remove ip s.peers }

  unfoldable pub run_all : List LinuxCommandSpec → Method (Unit {0})
  run_all commands = do lock_commands; modify (record_commands commands); run_each commands

  abbrev pub interface_runtime : Adapter → Option LinuxKernelRuntime
  interface_runtime s = elim s.interface_poisoned [ true ↦ none | false ↦ s.interface ]

  abbrev pub peer_runtime : String → Adapter → Option LinuxKernelPeerPlan
  peer_runtime ip s = elim s.peers_poisoned [ true ↦ none | false ↦ Table.get ip s.peers ]

  abbrev pub planned_peer_ips : Adapter → List String
  planned_peer_ips s = elim s.peers_poisoned [ true ↦ [] | false ↦ map (λ e. e.0) s.peers ]

  abbrev pub recent : Adapter → List LinuxCommandSpec
  recent s = elim s.commands_poisoned [ true ↦ [] | false ↦ s.recent_commands ]

  unfoldable pub apply_interface : LinuxKernelInterfacePlan → LinuxKernelRuntime → Method (Unit {0})
  apply_interface interface runtime = do
    run_all (apply_interface_commands interface)
    lock_interface
    modify (set_interface (some runtime))

  abbrev pub runtime_name : Method String
  runtime_name = gets interface_runtime >>= λ runtime.
      need runtime "linux adapter interface runtime unavailable" >>= λ r.
      pure (interface_name_from_runtime r)

  unfoldable pub apply_peer : String → LinuxKernelPeerPlan → Method (Unit {0})
  apply_peer peer_virtual_ip peer = do
    name ← runtime_name
    run_all (apply_peer_commands name peer)
    lock_peers
    modify (insert_peer peer_virtual_ip peer)

  abbrev pub run_removal : String → String → Option LinuxKernelPeerPlan → Method (Unit {0})
  run_removal name ip none = pure tt
  run_removal name ip (some peer) = do
    modify (drop_peer ip)
    run_all (remove_peer_commands name peer)

  unfoldable pub remove_peer : String → Method (Unit {0})
  remove_peer peer_virtual_ip = do
    name ← runtime_name
    lock_peers
    peer ← gets (λ s. Table.get peer_virtual_ip s.peers)
    run_removal name peer_virtual_ip peer

  abbrev pub run_recorded : LinuxCommandSpec → Method (Unit {0})
  run_recorded c = do lock_commands; modify (record_commands (c ∷ [])); run_one c

  unfoldable pub bring_up : Method (Unit {0})
  bring_up = do
    lock_interface
    current ← gets (λ s. s.interface)
    runtime ← need current "linux adapter interface runtime unavailable"
    run_recorded (bring_up_command (interface_name_from_runtime runtime))
    modify (set_interface (some (record runtime { is_up = true })))

  abbrev pub take_down : Option LinuxKernelRuntime → Method (Unit {0})
  take_down none = pure tt
  take_down (some runtime) = do
    run_recorded (bring_down_command (interface_name_from_runtime runtime))
    modify (set_interface (some (record runtime { is_up = false })))

  unfoldable pub bring_down : Method (Unit {0})
  bring_down = lock_interface >>= λ _. (gets (λ s. s.interface) >>= λ current. take_down current)

  abbrev pub name_of : Option LinuxKernelRuntime → Option String
  name_of none = none
  name_of (some runtime) = runtime.interface_name

  abbrev pub up_of : Option LinuxKernelRuntime → Bool
  up_of none = false
  up_of (some runtime) = runtime.is_up

  unfoldable pub diagnostics : Adapter → LinuxDriverDiagnostics
  diagnostics s = record {
    execution_mode = s.execution_mode;
    execution_backend = s.execution_backend;
    interface_name = name_of (interface_runtime s);
    is_up = up_of (interface_runtime s);
    planned_peer_count = length (planned_peer_ips s);
    recent_command_count = length (recent s);
  }
