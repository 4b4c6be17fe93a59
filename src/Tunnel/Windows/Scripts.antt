-- ===== src/Tunnel/Windows/Scripts.antt =====
-- The texts of the commands of client/app_core/crates/tunnel/src/windows_backend.rs, and what it reads off
-- their output.
use slan.Prelude.{
  ℕ, String, Bool, false, not, ◌||◌, List, [], ◌∷◌, length, Option, none, some, ltb, eqb, codes,
  bytes, concat, trim, is_empty, ◌==◌, if◌then◌else◌, get_elem?, unwrap_or,
}
use slan.RelayCore.Time.{parse_u32}
use slan.Client.System.{decimal}
use slan.Control.Client.{contains}
use slan.Tunnel.Windows.Text.{split_whitespace, trim_ascii_whitespace, from_part, replace}

-- what a command has written, and how it ended
pub record Output : Type 0 where
  pub success : Bool
  pub stdout : String
  pub stderr : String
  pub status : String

pub record WindowsInterfaceRuntime : Type 0 where
  pub interface_name : String
  pub interface_index : Option ℕ
  pub is_dedicated_adapter : Bool
  pub local_virtual_ip : String
  pub local_prefix_len : ℕ
  pub is_up : Bool

abbrev pub mentions : String → String → Bool
mentions part s = contains (codes part) (codes s)

-- the first text that is not empty
abbrev pub detail_of : Output → String → String
detail_of out otherwise =
    if not (is_empty (trim out.stderr))
    then trim out.stderr
    else if not (is_empty (trim out.stdout))
    then trim out.stdout
    else otherwise

abbrev pub exit_status : Output → String
exit_status out = concat ("exit status " ∷ out.status ∷ [])

abbrev pub asks_for : String → Output → Bool
asks_for part out = mentions part (trim out.stderr) || mentions part (trim out.stdout)

abbrev pub is_dry_run : Option String → Bool
is_dry_run none = false
is_dry_run (some mode) = mode == "dry-run"

abbrev pub powershell : String → List String
powershell text =
    "-NoProfile" ∷ "-NonInteractive" ∷ "-ExecutionPolicy" ∷ "Bypass" ∷ "-Command" ∷ text ∷ []

abbrev pub quoted : String → String
quoted value = concat ("'" ∷ replace 39 "''" value ∷ "'" ∷ [])

abbrev pub name_argument : WindowsInterfaceRuntime → String
name_argument runtime = concat ("name=" ∷ runtime.interface_name ∷ [])

abbrev pub addr_argument : WindowsInterfaceRuntime → String
addr_argument runtime = concat ("addr=" ∷ runtime.local_virtual_ip ∷ [])

abbrev pub delete_address : WindowsInterfaceRuntime → List String
delete_address runtime =
    "interface" ∷ "ipv4" ∷ "delete" ∷ "address" ∷ name_argument runtime ∷ addr_argument runtime ∷ []

abbrev pub add_address : WindowsInterfaceRuntime → String → List String
add_address runtime netmask =
    "interface"
    ∷ "ipv4"
    ∷ "add"
    ∷ "address"
    ∷ name_argument runtime
    ∷ addr_argument runtime
    ∷ concat ("mask=" ∷ netmask ∷ [])
    ∷ []

abbrev pub remove_addresses : String → String
remove_addresses index = concat (
    "Get-NetIPAddress -InterfaceIndex " ∷ index
    ∷ " -AddressFamily IPv4 -ErrorAction SilentlyContinue | Remove-NetIPAddress -Confirm:$false -ErrorAction SilentlyContinue\n"
    ∷ [])

abbrev pub apply_script : WindowsInterfaceRuntime → ℕ → String
apply_script runtime n =
    let index = decimal n in
    concat (
      "$ErrorActionPreference='Stop'\n"
      ∷ "Enable-NetAdapter -InterfaceIndex "
      ∷ index
      ∷ " -Confirm:$false -ErrorAction SilentlyContinue | Out-Null\n"
      ∷ "Set-NetIPInterface -InterfaceIndex "
      ∷ index
      ∷ " -Dhcp Disabled -ErrorAction SilentlyContinue | Out-Null\n"
      ∷ remove_addresses index
      ∷ "New-NetIPAddress -InterfaceIndex "
      ∷ index
      ∷ " -IPAddress "
      ∷ runtime.local_virtual_ip
      ∷ " -PrefixLength "
      ∷ decimal runtime.local_prefix_len
      ∷ " -AddressFamily IPv4 -Type Unicast | Out-Null\n"
      ∷ [])

abbrev pub remove_script : ℕ → String
remove_script n = concat ("$ErrorActionPreference='Stop'\n" ∷ remove_addresses (decimal n) ∷ [])

-- the index at the head of the line of a loopback adapter
abbrev pub first_number : List String → Option ℕ
first_number [] = none
first_number (word ∷ words) = parse_u32 (bytes word)

unfoldable pub kmtest_index : List String → Option ℕ
kmtest_index [] = none
kmtest_index (line ∷ rest) =
    let later = kmtest_index rest in
    if mentions "Microsoft KM-TEST" line
    then elim (first_number (split_whitespace (trim_ascii_whitespace line))) [
      | some n ↦ some n
      | none ↦ later
    ]
    else later

-- the alias that ends a line with this index in front
abbrev pub alias_of : ℕ → String → Option String
alias_of index line =
    let words = split_whitespace (trim_ascii_whitespace line) in
    if ltb (length words) 5 then none else elim (first_number words) [
      | none ↦ none
      | some n ↦
          if not (eqb n index)
          then none
          else elim (from_part (unwrap_or (get_elem? words 4) "") (trim_ascii_whitespace line)) [
            | none ↦ none
            | some alias ↦ if is_empty (trim alias) then none else some (trim alias)
          ]
    ]

unfoldable pub find_alias : ℕ → List String → Option String
find_alias index [] = none
find_alias index (line ∷ rest) =
    let later = find_alias index rest in
    elim (alias_of index line) [ some alias ↦ some alias | none ↦ later ]

-- the name of the interface, its index, and whether it is an adapter of its own
abbrev pub Target : Type 0
Target = String × (Option ℕ × Bool)

abbrev pub filled : Option String → Option String
filled none = none
filled (some s) = if is_empty (trim s) then none else some (trim s)

-- the name that is asked for, but the default one
abbrev pub requested_alias : Option String → Option String
requested_alias requested = elim (filled requested) [
  | none ↦ none
  | some alias ↦ if alias == "slan0" then none else some alias
]
