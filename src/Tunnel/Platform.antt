-- ===== src/Tunnel/Platform.antt =====
-- client/app_core/crates/tunnel/src/platform.rs, with the target and the environment as arguments, and
-- `Default` of the Linux adapter (linux_adapter.rs), which reads the environment itself.
pub mod Selection
use slan.Prelude.{
  String, Bool, true, false, ◌||◌, List, Option, none, some, Result, ok, err, map_err, concat, [],
  ◌∷◌, trim, is_empty, unwrap_or, ◌==◌, if◌then◌else◌, ◌>>=◌, ◌>>◌,
}
use slan.Tunnel.Linux.Adapter.{
  LinuxExecutionMode, system, dry_run, LinuxExecutionBackend, shell, native,
}
use slan.Tunnel.Linux.Execution.{
  LinuxKernelCommandExecutor, Host, noop_executor, native_executor, system_executor,
}

pub data TargetOs : Type 0 where
  linux macos windows other : TargetOs

-- the variables that are read: SLAN_TUNNEL_DRY_RUN, SLAN_LINUX_EXECUTOR, SLAN_WINDOWS_TUNNEL_MODE
pub record Environment : Type 0 where
  pub tunnel_dry_run : Option String
  pub linux_executor : Option String
  pub windows_tunnel_mode : Option String

pub data TunnelDriverKind : Type 0 where
  auto in_memory linux_kernel windows_embeddable : TunnelDriverKind

pub record TunnelDriverSelection : Type 0 where
  pub requested : TunnelDriverKind
  pub selected : TunnelDriverKind
  pub execution_mode : String
  pub execution_backend : String
  pub platform : String

abbrev parse_name : String → Result String TunnelDriverKind
parse_name name =
    if name == "auto"
    then ok auto
    else if name == "in-memory" || name == "memory" || name == "inmemory"
    then ok in_memory
    else if name == "linux-kernel" || name == "linux" || name == "wg-kernel"
    then ok linux_kernel
    else if name == "windows-embeddable" || name == "windows" || name == "wintun"
    then ok windows_embeddable
    else err (
        concat (
          "unsupported tunnel driver '" ∷ name
          ∷ "'; expected auto, in-memory, linux-kernel, or windows-embeddable" ∷ []))

abbrev or_auto : Option String → String
or_auto none = "auto"
or_auto (some raw) = if is_empty (trim raw) then "auto" else trim raw

-- `TunnelDriverKind::parse`
unfoldable pub parse : Option String → Result String TunnelDriverKind
parse raw = parse_name (or_auto raw)

abbrev default_driver : TargetOs → TunnelDriverKind
default_driver linux = linux_kernel
default_driver windows = windows_embeddable
default_driver macos = in_memory
default_driver other = in_memory

abbrev pub select : TargetOs → TunnelDriverKind → TunnelDriverKind
select os auto = default_driver os
select os in_memory = in_memory
select os linux_kernel = linux_kernel
select os windows_embeddable = windows_embeddable

abbrev pub is_native : Option String → Bool
is_native requested =
    let name = unwrap_or requested "shell" in name == "native" || name == "netlink"

abbrev pub is_dry_run_mode : Option String → Bool
is_dry_run_mode none = false
is_dry_run_mode (some mode) = mode == "dry-run"

abbrev pub mode_name : Environment → Bool → TunnelDriverKind → String
mode_name env dry linux_kernel = if dry then "dry-run" else "system"
mode_name env dry windows_embeddable =
    if is_dry_run_mode env.windows_tunnel_mode then "dry-run" else "system"
mode_name env dry in_memory = "memory"
mode_name env dry auto = "unknown"

abbrev pub backend_name : Environment → TunnelDriverKind → String
backend_name env linux_kernel = if is_native env.linux_executor then "native" else "shell"
backend_name env windows_embeddable =
    if is_dry_run_mode env.windows_tunnel_mode then "embeddable" else "netsh"
backend_name env in_memory = "memory"
backend_name env auto = "unknown"

abbrev platform_name : TargetOs → String
platform_name linux = "linux"
platform_name macos = "macos"
platform_name windows = "windows"
platform_name other = "other"

abbrev pub selection :
    TargetOs → Environment → Bool → TunnelDriverKind → Result String TunnelDriverSelection
selection os env dry kind = ok (record {
  requested = kind;
  selected = select os kind;
  execution_mode = mode_name env dry (select os kind);
  execution_backend = backend_name env (select os kind);
  platform = platform_name os;
})

unfoldable pub detect_platform_tunnel_driver :
    TargetOs → Environment → Option String → Bool → Result String TunnelDriverSelection
detect_platform_tunnel_driver os env requested dry = parse requested >>= selection os env dry

-- the managers that are built
pub data BuiltManager : Type 0 where
  in_memory_manager linux_manager windows_manager : BuiltManager

unfoldable pub build_platform_tunnel_manager : TunnelDriverSelection → Result String BuiltManager
build_platform_tunnel_manager selection = elim selection.selected [
  | in_memory ↦ ok in_memory_manager
  | linux_kernel ↦ ok linux_manager
  | windows_embeddable ↦ ok windows_manager
  | auto ↦ err "auto tunnel driver selection is unresolved"
]

abbrev pub is_set : Option String → Bool
is_set none = false
is_set (some v) = v == "1" || v == "true" || v == "TRUE" || v == "yes" || v == "on"

-- what runs the commands of an adapter, and the labels that it bears
pub record LinuxExecution : Type 1 where
  pub executor : LinuxKernelCommandExecutor
  pub execution_mode : LinuxExecutionMode
  pub execution_backend : LinuxExecutionBackend

-- `LinuxKernelWireGuardAdapter::default`, as to how it runs commands
module _ (H : Host) where
  abbrev dry_execution : Bool → LinuxExecution
  dry_execution true = record {
    executor = native_executor;
    execution_mode = dry_run;
    execution_backend = native;
  }
  dry_execution false = record {
    executor = noop_executor;
    execution_mode = dry_run;
    execution_backend = shell;
  }

  abbrev system_execution : Bool → LinuxExecution
  system_execution true = record {
    executor = native_executor;
    execution_mode = system;
    execution_backend = native;
  }
  system_execution false = record {
    executor = system_executor H;
    execution_mode = system;
    execution_backend = shell;
  }

  abbrev no_execution : LinuxExecution
  no_execution = record {
    executor = noop_executor;
    execution_mode = dry_run;
    execution_backend = shell;
  }

  abbrev target_execution : TargetOs → Bool → LinuxExecution
  target_execution linux requested = system_execution requested
  target_execution macos requested = no_execution
  target_execution windows requested = no_execution
  target_execution other requested = no_execution

  unfoldable pub default_execution : TargetOs → Environment → LinuxExecution
  default_execution os env =
      let requested = is_native env.linux_executor in
      if is_set env.tunnel_dry_run then dry_execution requested else target_execution os requested
