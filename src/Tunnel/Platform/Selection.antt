-- ===== src/Tunnel/Platform/Selection.antt =====
-- The driver that client/app_core/crates/tunnel/src/platform.rs selects, against the one it builds
use slan.Prelude.{
  String, Bool, true, false, ◌≡◌, ◌≢◌, refl, sym, ap, ◌∙◌, Option, Result, ok, err, inl, inr, ◌⊎◌,
  ◌↔◌, eq_iff, arith, ok-injective, ◌>>=◌, if◌then◌else◌,
}
use slan.Tunnel.Linux.Adapter.{
  LinuxExecutionMode, system, dry_run, LinuxExecutionBackend, shell, native,
}
use slan.Tunnel.Linux.Execution.{
  LinuxKernelCommandExecutor, Host, noop_executor, native_executor, system_executor,
}
use slan.Tunnel.Platform.{
  LinuxExecution, dry_execution, system_execution, no_execution, target_execution, TargetOs, linux,
  macos, windows, other, Environment, TunnelDriverKind, auto, in_memory, linux_kernel,
  windows_embeddable, TunnelDriverSelection, parse, select, detect_platform_tunnel_driver,
  build_platform_tunnel_manager, BuiltManager, default_execution, is_set, selection, mode_name,
  backend_name, is_native,
}

select_no_auto : (os : TargetOs) (kind : TunnelDriverKind) → select os kind ≢ auto
select_no_auto linux auto h = cc
select_no_auto macos auto h = cc
select_no_auto windows auto h = cc
select_no_auto other auto h = cc
select_no_auto os in_memory h = cc
select_no_auto os linux_kernel h = cc
select_no_auto os windows_embeddable h = cc

builds :
    (s : TunnelDriverSelection)
    → s.selected ≢ auto
    → (m : BuiltManager) × build_platform_tunnel_manager s ≡ ok m
unfolding build_platform_tunnel_manager
builds s h = by_kind s.selected refl
  where
    by_kind :
        (k : TunnelDriverKind)
        → s.selected ≡ k
        → (m : BuiltManager) × build_platform_tunnel_manager s ≡ ok m
    by_kind auto e = absurd (h e)
    by_kind in_memory e = rw e (_, refl)
    by_kind linux_kernel e = rw e (_, refl)
    by_kind windows_embeddable e = rw e (_, refl)

-- the names under which the modes are told
abbrev pub mode_text : LinuxExecutionMode → String
mode_text system = "system"
mode_text dry_run = "dry-run"

abbrev pub backend_text : LinuxExecutionBackend → String
backend_text shell = "shell"
backend_text native = "native"

detected :
    (os : TargetOs) (env : Environment) (raw : Option String) (dry : Bool)
    (d : TunnelDriverSelection)
    → detect_platform_tunnel_driver os env raw dry ≡ ok d
    → (kind : TunnelDriverKind) × (d.selected ≡ select os kind)
      × (d.execution_mode ≡ mode_name env dry (select os kind))
      × (d.execution_backend ≡ backend_name env (select os kind))
unfolding detect_platform_tunnel_driver
detected os env raw dry d h = by_kind (parse raw) h
  where
    by_kind :
        (r : Result String TunnelDriverKind)
        → (r >>= selection os env dry) ≡ ok d
        → (kind : TunnelDriverKind) × (d.selected ≡ select os kind)
          × (d.execution_mode ≡ mode_name env dry (select os kind))
          × (d.execution_backend ≡ backend_name env (select os kind))
    by_kind (ok k) e =
        let same = ok-injective e in
        (
          k,
          sym (ap (λ x. x.selected) same),
          sym (ap (λ x. x.execution_mode) same),
          sym (ap (λ x. x.execution_backend) same),
        )
    by_kind (err x) e = cc

-- A driver that is detected can be built.
pub detected-builds :
    (os : TargetOs) (env : Environment) (raw : Option String) (dry : Bool)
    (d : TunnelDriverSelection)
    → detect_platform_tunnel_driver os env raw dry ≡ ok d
    → (m : BuiltManager) × (build_platform_tunnel_manager d ≡ ok m)
detected-builds os env raw dry d h =
    let (kind, e, mode, backend) = detected os env raw dry d h in
    builds d (λ g. select_no_auto os kind (sym e ∙ g))

-- the executor that an adapter's labels tell of
abbrev pub executor_told :
    Host → LinuxExecutionMode → LinuxExecutionBackend → LinuxKernelCommandExecutor
executor_told H mode native = native_executor
executor_told H system shell = system_executor H
executor_told H dry_run shell = noop_executor

-- on Linux, or for a dry run
abbrev pub Supported : TargetOs → Environment → Type 0
Supported os env = (os ≡ linux) ⊎ (is_set env.tunnel_dry_run ≡ true)

module _ (H : Host) (os : TargetOs) (env : Environment) where
  -- what is reported is the adapter's, and its executor the one of its labels
  abbrev ModeAgrees : LinuxExecution → Bool → Type 0
  ModeAgrees x dry = mode_name env dry linux_kernel ≡ mode_text x.execution_mode

  abbrev BackendAgrees : LinuxExecution → Type 0
  BackendAgrees x = backend_name env linux_kernel ≡ backend_text x.execution_backend

  abbrev ExecutorAgrees : LinuxExecution → Type 1
  ExecutorAgrees x = x.executor ≡ executor_told H x.execution_mode x.execution_backend

  -- what holds of an adapter
  abbrev Agrees : LinuxExecution → Bool → Type 1
  Agrees x dry =
      (ModeAgrees x dry ↔ Supported os env)
      × (BackendAgrees x ↔ (Supported os env ⊎ (is_native env.linux_executor ≡ false)))
      × ExecutorAgrees x

  dry-Agrees :
      (n : Bool)
      → is_set env.tunnel_dry_run ≡ true
      → is_native env.linux_executor ≡ n
      → Agrees (dry_execution H n) true
  dry-Agrees true e f = ((λ _. inr e, λ _. refl), (λ _. inl (inr e), λ _. rw f refl), refl)
  dry-Agrees false e f = ((λ _. inr e, λ _. refl), (λ _. inl (inr e), λ _. rw f refl), refl)

  linux-Agrees :
      (n : Bool)
      → os ≡ linux
      → is_native env.linux_executor ≡ n
      → Agrees (system_execution H n) false
  linux-Agrees true e f = ((λ _. inl e, λ _. refl), (λ _. inl (inl e), λ _. rw f refl), refl)
  linux-Agrees false e f = ((λ _. inl e, λ _. refl), (λ _. inl (inl e), λ _. rw f refl), refl)

  -- neither Linux nor a dry run
  no_support : os ≢ linux → is_set env.tunnel_dry_run ≡ false → ¬ Supported os env
  no_support h e (inl g) = h g
  no_support h e (inr g) = cc

  elsewhere-Agrees :
      (n : Bool)
      → os ≢ linux
      → is_set env.tunnel_dry_run ≡ false
      → is_native env.linux_executor ≡ n
      → Agrees (no_execution H) false
  elsewhere-Agrees true h e f = (
    (λ g. ground (arith, eq_iff "system" "dry-run", g), λ g. absurd (no_support h e g)),
    (
      λ g.
          (let told : "native" ≡ "shell" = rw f at g in
            ground (arith, eq_iff "native" "shell", told)),
      λ g. elim g [ inl s ↦ absurd (no_support h e s) | inr k ↦ cc ],
    ),
    refl,
  )
  elsewhere-Agrees false h e f = (
    (λ g. ground (arith, eq_iff "system" "dry-run", g), λ g. absurd (no_support h e g)),
    (λ _. inr f, λ _. rw f refl),
    refl,
  )

target-Agrees :
    (H : Host) (os : TargetOs) (env : Environment) (n : Bool)
    → is_set env.tunnel_dry_run ≡ false
    → is_native env.linux_executor ≡ n
    → Agrees H os env (target_execution H os n) false
target-Agrees H linux env n e f = linux-Agrees H linux env n refl f
target-Agrees H macos env n e f = elsewhere-Agrees H macos env n (λ h. cc) e f
target-Agrees H windows env n e f = elsewhere-Agrees H windows env n (λ h. cc) e f
target-Agrees H other env n e f = elsewhere-Agrees H other env n (λ h. cc) e f

default_execution-Agrees :
    (H : Host) (os : TargetOs) (env : Environment)
    → Agrees H os env (default_execution H os env) (is_set env.tunnel_dry_run)
unfolding default_execution
default_execution-Agrees H os env = by_dry (is_set env.tunnel_dry_run) refl
  where
    by_dry :
        (b : Bool)
        → is_set env.tunnel_dry_run ≡ b
        → Agrees H os env
            (if b
              then dry_execution H (is_native env.linux_executor)
              else target_execution H os (is_native env.linux_executor))
            b
    by_dry true e = dry-Agrees H os env (is_native env.linux_executor) e refl
    by_dry false e = target-Agrees H os env (is_native env.linux_executor) e refl

-- Where the kernel driver is selected and the dry-run flag is what the environment says, the execution
-- mode that is reported is that of the adapter that is built exactly on Linux or for a dry run, and the
-- backend exactly there or where no native executor is asked for. The adapter's executor is on every
-- platform the one that its own mode and backend tell of, so that a reported "system" elsewhere is an
-- adapter whose commands are not run.
pub detected-default_execution :
    (H : Host) (os : TargetOs) (env : Environment) (raw : Option String) (d : TunnelDriverSelection)
    → detect_platform_tunnel_driver os env raw (is_set env.tunnel_dry_run) ≡ ok d
    → d.selected ≡ linux_kernel
    → let x = default_execution H os env in
      ((d.execution_mode ≡ mode_text x.execution_mode) ↔ Supported os env)
      × ((d.execution_backend ≡ backend_text x.execution_backend)
          ↔ (Supported os env ⊎ (is_native env.linux_executor ≡ false)))
      × (x.executor ≡ executor_told H x.execution_mode x.execution_backend)
detected-default_execution H os env raw d h kernel =
    let (kind, e, mode, backend) = detected os env raw (is_set env.tunnel_dry_run) d h in
    let told = mode ∙ ap (mode_name env (is_set env.tunnel_dry_run)) (sym e ∙ kernel) in
    let how = backend ∙ ap (backend_name env) (sym e ∙ kernel) in
    let (modes, backends, runs) = default_execution-Agrees H os env in
    (
      (λ g. modes.0 (sym told ∙ g), λ g. told ∙ modes.1 g),
      (λ g. backends.0 (sym how ∙ g), λ g. how ∙ backends.1 g),
      runs,
    )
