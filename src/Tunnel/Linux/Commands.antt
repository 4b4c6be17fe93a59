-- ===== src/Tunnel/Linux/Commands.antt =====
-- The commands of client/app_core/crates/tunnel/src/linux_adapter.rs.
use slan.Prelude.{ℕ, String, List, [], ◌∷◌, ◌++◌, map, Option, none, some, join, unwrap_or}
use slan.Client.System.{decimal}
use slan.Tunnel.Linux.Mapper.{LinuxKernelInterfacePlan, LinuxKernelPeerPlan, LinuxKernelRuntime}

pub record LinuxCommandSpec : Type 0 where
  pub program : String
  pub args : List String
  pub stdin : Option String
  pub ignored_stderr_substrings : List String

-- `LinuxCommandSpec::new`
abbrev pub command : String → List String → LinuxCommandSpec
command program args = record {
  program = program;
  args = args;
  stdin = none;
  ignored_stderr_substrings = [];
}

abbrev pub with_stdin : String → LinuxCommandSpec → LinuxCommandSpec
with_stdin text spec = record spec { stdin = some text }

abbrev pub ignore_stderr : String → LinuxCommandSpec → LinuxCommandSpec
ignore_stderr fragment spec = record spec {
  ignored_stderr_substrings = spec.ignored_stderr_substrings ++ fragment ∷ [];
}

-- arguments that stand only with a value
abbrev pub option_args : {A : Type 0} → String → (A → String) → Option A → List String
option_args word text none = []
option_args word text (some a) = word ∷ text a ∷ []

abbrev pub interface_name_from_plan : LinuxKernelInterfacePlan → String
interface_name_from_plan interface = unwrap_or interface.interface_name "wg0"

abbrev pub interface_name_from_runtime : LinuxKernelRuntime → String
interface_name_from_runtime runtime = unwrap_or runtime.interface_name "wg0"

abbrev pub set_mtu : String → Option ℕ → List LinuxCommandSpec
set_mtu name none = []
set_mtu name (some mtu) =
    command "ip" ("link" ∷ "set" ∷ "dev" ∷ name ∷ "mtu" ∷ decimal mtu ∷ []) ∷ []

abbrev pub replace_address : String → String → LinuxCommandSpec
replace_address name address = command "ip" ("address" ∷ "replace" ∷ address ∷ "dev" ∷ name ∷ [])

unfoldable pub apply_interface_commands : LinuxKernelInterfacePlan → List LinuxCommandSpec
apply_interface_commands interface =
    let name = interface_name_from_plan interface in
    ignore_stderr "File exists"
        (command "ip" ("link" ∷ "add" ∷ "dev" ∷ name ∷ "type" ∷ "wireguard" ∷ []))
      ∷ with_stdin interface.private_key (
          command "wg" (
            "set"
            ∷ name
            ∷ "private-key"
            ∷ "/dev/stdin"
            ∷ option_args "listen-port" decimal interface.listen_port))
      ∷ set_mtu name interface.mtu
    ++ map (replace_address name) interface.addresses

abbrev pub peer_args : String → LinuxKernelPeerPlan → List String
peer_args name peer =
    "set" ∷ name ∷ "peer" ∷ peer.public_key ∷ option_args "endpoint" (λ e. e) peer.endpoint
    ++ "allowed-ips"
      ∷ join "," peer.allowed_ips
      ∷ option_args "persistent-keepalive" decimal peer.persistent_keepalive_seconds

abbrev pub set_peer : List String → Option String → LinuxCommandSpec
set_peer args (some preshared_key) =
    with_stdin preshared_key (command "wg" (args ++ "preshared-key" ∷ "/dev/stdin" ∷ []))
set_peer args none = command "wg" args

abbrev pub replace_route : String → String → LinuxCommandSpec
replace_route name allowed_ip = command "ip" ("route" ∷ "replace" ∷ allowed_ip ∷ "dev" ∷ name ∷ [])

unfoldable pub apply_peer_commands : String → LinuxKernelPeerPlan → List LinuxCommandSpec
apply_peer_commands name peer =
    set_peer (peer_args name peer) peer.preshared_key ∷ map (replace_route name) peer.allowed_ips

abbrev pub delete_route : String → String → LinuxCommandSpec
delete_route name allowed_ip = ignore_stderr "Cannot find device" (
    ignore_stderr "No such process"
      (command "ip" ("route" ∷ "del" ∷ allowed_ip ∷ "dev" ∷ name ∷ [])))

unfoldable pub remove_peer_commands : String → LinuxKernelPeerPlan → List LinuxCommandSpec
remove_peer_commands name peer =
    command "wg" ("set" ∷ name ∷ "peer" ∷ peer.public_key ∷ "remove" ∷ [])
    ∷ map (delete_route name) peer.allowed_ips

unfoldable pub bring_up_command : String → LinuxCommandSpec
bring_up_command name = command "ip" ("link" ∷ "set" ∷ "up" ∷ "dev" ∷ name ∷ [])

unfoldable pub bring_down_command : String → LinuxCommandSpec
bring_down_command name = command "ip" ("link" ∷ "set" ∷ "down" ∷ "dev" ∷ name ∷ [])
