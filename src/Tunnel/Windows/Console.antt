-- ===== src/Tunnel/Windows/Console.antt =====
-- The commands of client/app_core/crates/tunnel/src/windows_backend.rs. The processes, the clock and the
-- environment of the host are the parameter `WindowsHost`.
use slan.Prelude.{
  ℕ, String, Bool, true, false, not, ◌&&◌, ◌||◌, List, [], ◌∷◌, map, Option, none, some, Result, ok,
  err, map_err, concat, join, if◌then◌else◌, unwrap_or,
}
use slan.Client.Action.{Action, ◌>>=◌, pure, fail, lift}
use slan.Tunnel.Windows.Text.{lines, replace}
use slan.Tunnel.Windows.Address.{netmask_from_prefix_len}
use slan.Tunnel.Windows.Scripts.{
  Output, WindowsInterfaceRuntime, detail_of, exit_status, asks_for, is_dry_run, powershell, quoted,
  delete_address, add_address, apply_script, remove_script, kmtest_index, find_alias, Target,
  filled, requested_alias,
}

pub record WindowsHost : Type 1 where
  pub World : Type 0
  -- whether the build is for Windows
  pub is_windows : Bool
  -- SLAN_WINDOWS_TUNNEL_INTERFACE_ALIAS and SLAN_WINDOWS_TUNNEL_MODE
  pub interface_alias : Option String
  pub tunnel_mode : Option String
  -- a program run to its end; an error where it cannot be started
  pub output : String → List String → Action World String Output
  -- the milliseconds since the epoch; `none` before it
  pub now_ms : World → Option ℕ

module _ (H : WindowsHost) where
  abbrev pub Run : Type 0 → Type 0
  Run A = Action H.World String A

  abbrev pub attempt : {A : Type 0} → Run A → Run (Result String A)
  attempt m s = let (r, s') = m s in (ok r, s')

  abbrev pub labelled : {A : Type 0} → String → Run A → Run A
  labelled text m s = let (r, s') = m s in (map_err (λ e. concat (text ∷ e ∷ [])) r, s')

  abbrev pub standard_output : String → List String → Output → Run String
  standard_output program args out =
      if out.success
      then pure out.stdout
      else fail (
          concat
            (program ∷ " " ∷ join " " args ∷ " failed: " ∷ detail_of out (exit_status out) ∷ []))

  unfoldable pub command_stdout : String → List String → Run String
  command_stdout program args =
      labelled (concat ("failed to launch " ∷ program ∷ ": " ∷ [])) (H.output program args)
      >>= λ out. standard_output program args out

  unfoldable pub run_netsh_elevated : List String → Run (Unit {0})
  run_netsh_elevated args = do
    out ← labelled "failed to launch elevated netsh: " (
        H.output "powershell.exe" (
          powershell (
            concat (
              "$p = Start-Process -FilePath 'netsh.exe' -ArgumentList @("
              ∷ join "," (map quoted args)
              ∷ ") -Verb RunAs -WindowStyle Hidden -Wait -PassThru; exit $p.ExitCode"
              ∷ []))))
    lift (
        if out.success
        then ok tt
        else err (
            concat (
              "netsh "
              ∷ join " " args
              ∷ " failed after elevation attempt: "
              ∷ detail_of out "UAC prompt was rejected or the elevated netsh command failed"
              ∷ [])))

  abbrev pub netsh_result : List String → Output → Run (Unit {0})
  netsh_result args out =
      if out.success
      then pure tt
      else if asks_for "requires elevation" out || asks_for "Run as administrator" out
      then run_netsh_elevated args
      else fail
          (concat ("netsh " ∷ join " " args ∷ " failed: " ∷ detail_of out (exit_status out) ∷ []))

  unfoldable pub run_netsh : List String → Run (Unit {0})
  run_netsh args =
      if not H.is_windows || is_dry_run H.tunnel_mode
      then pure tt
      else (labelled "failed to launch netsh: " (H.output "netsh" args) >>= λ out.
          netsh_result args out)

  unfoldable pub run_powershell_script_elevated : String → Run (Unit {0})
  run_powershell_script_elevated script = do
    out ← labelled "failed to launch elevated powershell: " (
        H.output "powershell.exe" (
          powershell (
            concat (
              "$p = Start-Process -FilePath 'powershell.exe' -ArgumentList @('-NoProfile','-ExecutionPolicy','Bypass','-Command','"
              ∷ replace 10 "; " (replace 39 "''" script)
              ∷ "') -Verb RunAs -WindowStyle Hidden -Wait -PassThru; exit $p.ExitCode"
              ∷ []))))
    lift (
        if out.success
        then ok tt
        else err (
            concat (
              "elevated powershell script failed: "
              ∷ detail_of out "UAC prompt was rejected or the elevated PowerShell command failed"
              ∷ [])))

  abbrev pub script_result : String → Output → Run (Unit {0})
  script_result script out =
      if out.success
      then pure tt
      else if asks_for "requires elevation" out || asks_for "Access is denied" out
      then run_powershell_script_elevated script
      else fail (concat ("powershell script failed: " ∷ detail_of out (exit_status out) ∷ []))

  unfoldable pub run_powershell_script : String → Bool → Run (Unit {0})
  run_powershell_script script elevated =
      if not H.is_windows || is_dry_run H.tunnel_mode
      then pure tt
      else if elevated
      then run_powershell_script_elevated script
      else (labelled "failed to launch powershell: " (H.output "powershell.exe" (powershell script))
          >>= λ out. script_result script out)

  abbrev pub named : ℕ → Result String String → Target
  named index (err _) = ("Microsoft KM-TEST Loopback Adapter", (some index, true))
  named index (ok text) = (
    unwrap_or (find_alias index (lines text)) "Microsoft KM-TEST Loopback Adapter",
    (some index, true),
  )

  abbrev pub loopback : Target
  loopback = ("Loopback Pseudo-Interface 1", (none, false))

  abbrev pub adapter_at : Option ℕ → Run Target
  adapter_at none = pure loopback
  adapter_at (some index) =
      attempt (command_stdout "netsh" ("interface" ∷ "ipv4" ∷ "show" ∷ "interfaces" ∷ [])) >>= λ r.
      pure (named index r)

  abbrev pub adapter_from : Result String String → Run Target
  adapter_from (err _) = pure loopback
  adapter_from (ok routes) = adapter_at (kmtest_index (lines routes))

  abbrev pub discover : Run Target
  discover = elim H.is_windows [
    | false ↦ pure loopback
    | true ↦ (attempt (command_stdout "route" ("print" ∷ [])) >>= λ r. adapter_from r)
  ]

  abbrev pub target_of : Option String → Option String → Run Target
  target_of (some configured) requested = pure (configured, (none, false))
  target_of none (some requested) = pure (requested, (none, false))
  target_of none none = discover

  unfoldable pub resolve_interface_target : Option String → Run Target
  resolve_interface_target requested =
      target_of (filled H.interface_alias) (requested_alias requested)

  abbrev pub need_index : Option ℕ → Run ℕ
  need_index none = fail "windows backend dedicated adapter is missing an interface index"
  need_index (some n) = pure n

  unfoldable pub apply_system_interface : WindowsInterfaceRuntime → Run (Unit {0})
  apply_system_interface runtime =
      if H.is_windows && runtime.is_dedicated_adapter
      then (need_index runtime.interface_index >>= λ n.
          run_powershell_script (apply_script runtime n) true)
      else (lift (netmask_from_prefix_len runtime.local_prefix_len) >>= λ netmask.
          attempt (run_netsh (delete_address runtime)) >>= λ _.
          run_netsh (add_address runtime netmask))

  unfoldable pub remove_system_interface_address : WindowsInterfaceRuntime → Run (Unit {0})
  remove_system_interface_address runtime =
      if H.is_windows && runtime.is_dedicated_adapter
      then (need_index runtime.interface_index >>= λ n.
          run_powershell_script (remove_script n) true)
      else run_netsh (delete_address runtime)
