-- ===== src/Examples/Tunnel.antt =====
-- The theorems about the tunnel drivers, with an executor whose commands succeed a number of times.
use slan.Prelude.{
  ℕ, zero, suc, ◌≡◌, ◌↔◌, ◌⊎◌, refl, String, true, false, [], ◌∷◌, none, some, Result, ok, err,
  is_empty, trim,
}
use slan.Prelude.Table
use slan.Client.Action.{◌>>=◌, pure, fail, lift, gets, modify, fail_if, need}
use slan.Client.System.{decimal, digits_before}
use slan.AppCore.Wireguard.{relay}
use slan.Tunnel.Backend.{TunnelConfig, InMemoryTunnelBackend}
use slan.Tunnel.Runtime.{system_tunnel_manager, in_memory_tunnel_manager}
use slan.Tunnel.Contract
use slan.Tunnel.Contract.{Request, Changes, change, answer}
use slan.Tunnel.Linux.Mapper.{
  LinuxKernelPeerPlan, LinuxKernelInterfacePlan, LinuxKernelRuntime, map_peer, map_interface,
  validate_config, validate_interface, validate_peer, initial_runtime,
}
use slan.Tunnel.Linux.Commands.{
  apply_interface_commands, apply_peer_commands, remove_peer_commands, bring_up_command,
  bring_down_command,
}
use slan.Tunnel.Linux.Execution.{
  LinuxKernelCommandExecutor, Host, classify, create_interface, configure_interface, unknown,
  assign_address, configure_peer, replace_route, remove_peer, delete_route, bring_up, bring_down,
}
use slan.Tunnel.Linux.Execution.Classes.{commands-classes, classes}
use slan.Tunnel.Linux.Adapter
use slan.Tunnel.Linux.Adapter.{
  Adapter, new_with_executor, run_one, run_each, run_all, apply_interface, apply_peer, system,
  shell, dry_run,
}
use slan.Tunnel.Linux.Backend
use slan.Tunnel.Linux.Backend.{linux_backend}
use slan.Tunnel.Linux.Backend.Failing.{IsReady, remove-forgets}
use slan.Tunnel.Windows
use slan.Tunnel.Windows.Console.{WindowsHost}
use slan.Tunnel.Windows.Backend.{windows_backend}
use slan.Tunnel.Windows.Backend.Refinement.{configs}
use slan.Tunnel.Macos
use slan.Tunnel.Macos.{MacosWireGuardKitAdapter, macos_backend}
use slan.Tunnel.Managers.{managers_answer}
use slan.Tunnel.Platform.{
  macos, Environment, is_native, TunnelDriverSelection, linux_kernel, detect_platform_tunnel_driver,
  default_execution, parse,
}
use slan.Tunnel.Platform.Selection.{
  Supported, mode_text, backend_text, executor_told, detected-default_execution,
}

abbrev run_limited : ℕ → Result String (Unit {0}) × ℕ
run_limited zero = (err "permission denied", zero)
run_limited (suc n) = (ok tt, n)

abbrev pub limited : LinuxKernelCommandExecutor
limited = record { World = ℕ; run = λ c n. run_limited n }

abbrev pub config : TunnelConfig
config = record {
  transport = relay;
  local_virtual_ip = "100.64.0.10";
  peer_virtual_ip = "100.64.0.2";
  wireguard_interface = record {
    interface_name = some "wg0";
    key_pair = record { public_key = "self-pk"; private_key = "self-sk" };
    listen_port = some 51820;
    mtu = some 1280;
    addresses = "100.64.0.10/32" ∷ [];
    dns_servers = [];
    peers = [];
  };
  wireguard_peer = record {
    peer_node_id = some "peer-1";
    public_key = "peer-pk";
    preshared_key = none;
    endpoint = some "198.51.100.10:51820";
    allowed_ips = record { cidr = "100.64.0.2/32" } ∷ [];
    persistent_keepalive_seconds = some 15;
  };
}

abbrev pub fresh : Adapter limited
fresh = new_with_executor limited 7 system shell

unfoldable pub tunnel_runs : ℕ
unfolding ◌>>=◌ pure fail lift gets modify fail_if need decimal digits_before is_empty trim
    Table.get Table.insert Table.remove map_peer map_interface validate_config validate_interface
    validate_peer initial_runtime apply_interface_commands apply_peer_commands remove_peer_commands
    bring_up_command bring_down_command run_one run_each run_all apply_interface apply_peer
    Adapter.remove_peer Adapter.bring_up Backend.apply_interface_config Backend.apply_peer_config
    Backend.establish
tunnel_runs = 0

-- the driver after the tunnel is established, which takes seven commands
abbrev established : Adapter limited
established = (Backend.establish limited config fresh).1

-- a build for another system than Windows, where no command is run
abbrev host : WindowsHost
host = record {
  World = ℕ;
  is_windows = false;
  interface_alias = none;
  tunnel_mode = none;
  output = λ program args s. (err "no such program", s);
  now_ms = λ s. some s;
}

managers_answer_example :
    Changes
      (λ (s : InMemoryTunnelBackend). s.state)
      (change (λ p. p) (Contract.establish config))
      (answer in_memory_tunnel_manager (Contract.establish config))
    × Changes
        (λ (s : Adapter limited). s.peers)
        (change map_peer (Contract.establish config))
        (answer (system_tunnel_manager (linux_backend limited)) (Contract.establish config))
    × Changes
        (λ (s : Windows.Backend.Backend host). configs s.peers)
        (change (λ p. p) (Contract.establish config))
        (answer (system_tunnel_manager (windows_backend host)) (Contract.establish config))
    × Changes
        (λ (s : MacosWireGuardKitAdapter). s.peers)
        (change Macos.map_peer (Contract.establish config))
        (answer (system_tunnel_manager macos_backend) (Contract.establish config))
managers_answer_example = managers_answer limited host (Contract.establish config)

abbrev runtime : LinuxKernelRuntime
runtime = record {
  interface_name = some "wg0";
  addresses = "100.64.0.10/32" ∷ [];
  dns_servers = [];
  is_up = true;
}

established-IsReady : IsReady limited established runtime
unfolding tunnel_runs
established-IsReady = record {
  interface_healthy = refl;
  peers_healthy = refl;
  commands_healthy = refl;
  has_interface = refl;
}

-- the driver after a removal whose commands are refused
abbrev forgetful : Adapter limited
forgetful = (Adapter.remove_peer limited "100.64.0.2" established).1

peer_planned : Table.get "100.64.0.2" established.peers ≡ some (map_peer config.wireguard_peer)
unfolding tunnel_runs
peer_planned = refl

removal_refused :
    Adapter.remove_peer limited "100.64.0.2" established ≡ (err "permission denied", forgetful)
unfolding tunnel_runs
removal_refused = refl

remove-forgets_example : Adapter.remove_peer limited "100.64.0.2" forgetful ≡ (ok tt, forgetful)
remove-forgets_example =
    remove-forgets limited established forgetful runtime "100.64.0.2" "permission denied"
      (map_peer config.wireguard_peer) established-IsReady peer_planned removal_refused

abbrev interface_plan : LinuxKernelInterfacePlan
interface_plan = record {
  interface_name = none;
  private_key = "self-sk";
  listen_port = none;
  mtu = some 1280;
  addresses = "100.64.0.10/32" ∷ [];
  dns_servers = [];
}

abbrev peer_plan : LinuxKernelPeerPlan
peer_plan = record {
  peer_node_id = none;
  public_key = "peer-pk";
  preshared_key = some "secret";
  endpoint = none;
  allowed_ips = "100.64.0.2/32" ∷ [];
  persistent_keepalive_seconds = none;
}

commands-classes_example :
    classes (apply_interface_commands interface_plan)
      ≡ create_interface ∷ configure_interface ∷ unknown ∷ assign_address ∷ []
    × classes (apply_peer_commands "wg0" peer_plan) ≡ configure_peer ∷ replace_route ∷ []
    × classes (remove_peer_commands "wg0" peer_plan) ≡ remove_peer ∷ delete_route ∷ []
    × classify (bring_up_command "wg0") ≡ bring_up
    × classify (bring_down_command "wg0") ≡ bring_down
commands-classes_example = commands-classes interface_plan "wg0" peer_plan refl

abbrev environment : Environment
environment = record { tunnel_dry_run = none; linux_executor = none; windows_tunnel_mode = none }

abbrev kernel_on_macos : TunnelDriverSelection
kernel_on_macos = record {
  requested = linux_kernel;
  selected = linux_kernel;
  execution_mode = "system";
  execution_backend = "shell";
  platform = "macos";
}

kernel_detected :
    detect_platform_tunnel_driver macos environment (some "linux") false ≡ ok kernel_on_macos
unfolding detect_platform_tunnel_driver parse is_empty trim
kernel_detected = refl

-- processes that cannot be spawned
abbrev no_processes : Host
no_processes = record {
  World = Unit {0};
  Child = Unit {0};
  spawn = λ program args piped. fail "no such file";
  write_stdin = λ child text. pure none;
  wait_with_output = λ child. fail "no child";
}

detected-default_execution_example :
    ((kernel_on_macos.execution_mode
        ≡ mode_text (default_execution no_processes macos environment).execution_mode)
      ↔ Supported macos environment)
    × ((kernel_on_macos.execution_backend
          ≡ backend_text (default_execution no_processes macos environment).execution_backend)
        ↔ (Supported macos environment ⊎ (is_native environment.linux_executor ≡ false)))
    × ((default_execution no_processes macos environment).executor
        ≡ executor_told no_processes
            (default_execution no_processes macos environment).execution_mode
            (default_execution no_processes macos environment).execution_backend)
detected-default_execution_example =
    detected-default_execution no_processes macos environment (some "linux") kernel_on_macos
      kernel_detected refl
