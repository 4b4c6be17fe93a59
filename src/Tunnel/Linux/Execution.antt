-- ===== src/Tunnel/Linux/Execution.antt =====
-- What runs the commands of client/app_core/crates/tunnel/src/{linux_adapter,linux_native}.rs. The
-- processes of the host are the parameter `Host`.
pub mod Classes
use slan.Prelude.{
  ℕ, String, Bool, true, false, ◌&&◌, List, [], ◌∷◌, length, Option, none, some, Result, ok, err,
  eqb, any, codes, map_err, concat, join, trim, is_empty, is_some, ◌==◌, if◌then◌else◌,
}
use slan.Client.Action.{Action, go_on, ◌>>=◌, ◌>>◌, pure, fail, lift, gets, need, modify}
use slan.Control.Client.{contains}
use slan.Tunnel.Linux.Commands.{LinuxCommandSpec}

-- the trait; the executor's own state is the world that its commands change
pub record LinuxKernelCommandExecutor : Type 1 where
  pub World : Type 0
  pub run : LinuxCommandSpec → Action World String (Unit {0})

abbrev pub noop_executor : LinuxKernelCommandExecutor
noop_executor = record { World = Unit {0}; run = λ spec. pure tt }

-- how a process ended: whether it succeeded, what it wrote to its standard error, and its status
pub record Output : Type 0 where
  pub success : Bool
  pub stderr : String
  pub status : String

-- the processes
pub record Host : Type 1 where
  pub World : Type 0
  pub Child : Type 0
  -- a program with its arguments, and whether its standard input is a pipe
  pub spawn : String → List String → Bool → Action World String Child
  -- `none` where the child has no input
  pub write_stdin : Child → String → Action World String (Option (Unit {0}))
  pub wait_with_output : Child → Action World String Output

module _ (H : Host) where
  abbrev pub labelled : {A : Type 0} → String → Action H.World String A → Action H.World String A
  labelled text m s = let (r, s') = m s in (map_err (λ e. concat (text ∷ e ∷ [])) r, s')

  abbrev pub feed : LinuxCommandSpec → H.Child → Option String → Action H.World String (Unit {0})
  feed spec child none = pure tt
  feed spec child (some text) =
      labelled (concat ("failed to write " ∷ spec.program ∷ " stdin: " ∷ []))
        (H.write_stdin child text)
      >>= λ fed. need fed (concat (spec.program ∷ " stdin unavailable" ∷ []))

  abbrev pub is_ignored : LinuxCommandSpec → String → Bool
  is_ignored spec stderr =
      any (λ fragment. contains (codes fragment) (codes stderr)) spec.ignored_stderr_substrings

  abbrev pub outcome : LinuxCommandSpec → Output → Result String (Unit {0})
  outcome spec output =
      if output.success
      then ok tt
      else if is_ignored spec (trim output.stderr)
      then ok tt
      else err (
          concat (
            spec.program
            ∷ " "
            ∷ join " " spec.args
            ∷ " failed: "
            ∷ (if is_empty (trim output.stderr) then output.status else trim output.stderr)
            ∷ []))

  unfoldable pub run_process : LinuxCommandSpec → Action H.World String (Unit {0})
  run_process spec = do
    child ←
        labelled (concat ("failed to spawn " ∷ spec.program ∷ ": " ∷ []))
          (H.spawn spec.program spec.args (is_some spec.stdin))
    feed spec child spec.stdin
    output ←
        labelled (concat ("failed to wait " ∷ spec.program ∷ ": " ∷ [])) (H.wait_with_output child)
    lift (outcome spec output)

  -- `SystemLinuxCommandExecutor`
  abbrev pub system_executor : LinuxKernelCommandExecutor
  system_executor = record { World = H.World; run = run_process }

pub data NativeLinuxOperation : Type 0 where
  create_interface configure_interface set_link_mtu assign_address configure_peer :
      NativeLinuxOperation
  replace_route remove_peer delete_route bring_up bring_down unknown : NativeLinuxOperation

-- a slice pattern, where `none` is `_`, and what follows it
abbrev pub after_pattern : List (Option String) → List String → Option (List String)
after_pattern [] args = some args
after_pattern (p ∷ ps) [] = none
after_pattern (none ∷ ps) (a ∷ args) = after_pattern ps args
after_pattern (some w ∷ ps) (a ∷ args) = if a == w then after_pattern ps args else none

-- the pattern with `..` behind it
abbrev pub matches : List (Option String) → List String → Bool
matches ps args = is_some (after_pattern ps args)

-- the pattern and no more
abbrev pub matches_all : List (Option String) → List String → Bool
matches_all ps args = matches ps args && eqb (length args) (length ps)

abbrev pub classify_wg : List String → NativeLinuxOperation
classify_wg args =
    if matches (some "set" ∷ none ∷ some "private-key" ∷ []) args
    then configure_interface
    else if matches_all (some "set" ∷ none ∷ some "peer" ∷ none ∷ some "remove" ∷ []) args
    then remove_peer
    else if matches (some "set" ∷ none ∷ some "peer" ∷ []) args
    then configure_peer
    else unknown

abbrev pub classify_ip : List String → NativeLinuxOperation
classify_ip args =
    if matches (some "link" ∷ some "add" ∷ []) args
    then create_interface
    else if matches (some "link" ∷ some "set" ∷ none ∷ some "mtu" ∷ []) args
    then set_link_mtu
    else if matches (some "address" ∷ some "replace" ∷ []) args
    then assign_address
    else if matches (some "route" ∷ some "replace" ∷ []) args
    then replace_route
    else if matches (some "route" ∷ some "del" ∷ []) args
    then delete_route
    else if matches (some "link" ∷ some "set" ∷ some "up" ∷ []) args
    then bring_up
    else if matches (some "link" ∷ some "set" ∷ some "down" ∷ []) args
    then bring_down
    else unknown

-- The arms for the two programs do not overlap.
unfoldable pub classify : LinuxCommandSpec → NativeLinuxOperation
classify spec =
    if spec.program == "ip"
    then classify_ip spec.args
    else if spec.program == "wg"
    then classify_wg spec.args
    else unknown

abbrev pub description : NativeLinuxOperation → String
description create_interface = "create interface"
description configure_interface = "configure interface"
description set_link_mtu = "set link mtu"
description assign_address = "assign address"
description configure_peer = "configure peer"
description replace_route = "replace route"
description remove_peer = "remove peer"
description delete_route = "delete route"
description bring_up = "bring link up"
description bring_down = "bring link down"
description unknown = "unknown operation"

-- `NativeLinuxCommandExecutor`
abbrev pub native_executor : LinuxKernelCommandExecutor
native_executor = record {
  World = Unit {0};
  run = λ spec. fail (
      concat (
        "native linux wireguard executor is not integrated yet; cannot "
        ∷ description (classify spec)
        ∷ " via "
        ∷ spec.program
        ∷ " "
        ∷ join " " spec.args
        ∷ []));
}
