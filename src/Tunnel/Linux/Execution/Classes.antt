-- ===== src/Tunnel/Linux/Execution/Classes.antt =====
-- How client/app_core/crates/tunnel/src/linux_native.rs takes the commands of linux_adapter.rs
use slan.Prelude.{
  ℕ, String, false, ◌≡◌, refl, ap, List, [], ◌∷◌, ◌++◌, map, Option, none, some, join, ◌==◌,
}
use slan.Client.System.{decimal}
use slan.Tunnel.Linux.Mapper.{LinuxKernelInterfacePlan, LinuxKernelPeerPlan}
use slan.Tunnel.Linux.Commands.{
  LinuxCommandSpec, apply_interface_commands, apply_peer_commands, remove_peer_commands,
  interface_name_from_plan, replace_address, replace_route, delete_route, set_mtu, set_peer,
  option_args, bring_up_command, bring_down_command,
}
use slan.Tunnel.Linux.Execution.{
  NativeLinuxOperation, create_interface, configure_interface, assign_address, configure_peer,
  replace_route as replacing_route, remove_peer, delete_route as deleting_route, bring_up,
  bring_down, unknown, classify,
}

abbrev pub classes : List LinuxCommandSpec → List NativeLinuxOperation
classes cs = map classify cs

-- the class of a command for the MTU, where one is given
abbrev pub mtu_class : Option ℕ → List NativeLinuxOperation
mtu_class none = []
mtu_class (some mtu) = unknown ∷ []

-- one class for each item
abbrev pub each : {A : Type 0} → NativeLinuxOperation → List A → List NativeLinuxOperation
each o [] = []
each o (a ∷ rest) = o ∷ each o rest

addresses-classes :
    (name : String) (ips : List String)
    → classes (map (replace_address name) ips) ≡ each assign_address ips
unfolding classify
addresses-classes name [] = refl
addresses-classes name (ip ∷ ips) = ap (λ cs. assign_address ∷ cs) (addresses-classes name ips)

interface-classes :
    (plan : LinuxKernelInterfacePlan)
    → (interface_name_from_plan plan == "mtu") ≡ false
    → classes (apply_interface_commands plan)
      ≡ create_interface ∷ configure_interface ∷ mtu_class plan.mtu
        ++ each assign_address plan.addresses
unfolding apply_interface_commands classify
interface-classes plan h = ap (λ cs. create_interface ∷ configure_interface ∷ cs) (behind plan.mtu)
  where
    behind :
        (mtu : Option ℕ)
        → classes (
            set_mtu (interface_name_from_plan plan) mtu
            ++ map (replace_address (interface_name_from_plan plan)) plan.addresses)
          ≡ mtu_class mtu ++ each assign_address plan.addresses
    behind none = addresses-classes _ plan.addresses
    behind (some mtu) =
        rw (h, addresses-classes (interface_name_from_plan plan) plan.addresses) refl

routes-classes :
    (name : String) (ips : List String)
    → classes (map (replace_route name) ips) ≡ each replacing_route ips
unfolding classify
routes-classes name [] = refl
routes-classes name (ip ∷ ips) = ap (λ cs. replacing_route ∷ cs) (routes-classes name ips)

deletions-classes :
    (name : String) (ips : List String)
    → classes (map (delete_route name) ips) ≡ each deleting_route ips
unfolding classify
deletions-classes name [] = refl
deletions-classes name (ip ∷ ips) = ap (λ cs. deleting_route ∷ cs) (deletions-classes name ips)

-- With an endpoint or without, no peer is taken for a removal.
set_peer-class :
    (name key ips : String) (keepalive : List String) (endpoint secret : Option String)
    → classify (
        set_peer
          ("set" ∷ name ∷ "peer" ∷ key ∷ option_args "endpoint" (λ e. e) endpoint
            ++ "allowed-ips" ∷ ips ∷ keepalive)
          secret)
      ≡ configure_peer
unfolding classify
set_peer-class name key ips keepalive none none = refl
set_peer-class name key ips keepalive none (some secret) = refl
set_peer-class name key ips keepalive (some e) none = refl
set_peer-class name key ips keepalive (some e) (some secret) = refl

peer-classes :
    (name : String) (plan : LinuxKernelPeerPlan)
    → classes (apply_peer_commands name plan)
      ≡ configure_peer ∷ each replacing_route plan.allowed_ips
unfolding apply_peer_commands
peer-classes name plan =
    rw
      (set_peer-class name plan.public_key (join "," plan.allowed_ips)
        (option_args "persistent-keepalive" decimal plan.persistent_keepalive_seconds) plan.endpoint
        plan.preshared_key)
      (ap (λ cs. configure_peer ∷ cs) (routes-classes name plan.allowed_ips))

removal-classes :
    (name : String) (plan : LinuxKernelPeerPlan)
    → classes (remove_peer_commands name plan) ≡ remove_peer ∷ each deleting_route plan.allowed_ips
unfolding remove_peer_commands classify
removal-classes name plan = ap (λ cs. remove_peer ∷ cs) (deletions-classes name plan.allowed_ips)

-- Where the interface is not named `mtu`, the native executor takes each command of the driver for what
-- it is, but the one that sets the MTU, which it does not know.
pub commands-classes :
    (interface : LinuxKernelInterfacePlan) (name : String) (peer : LinuxKernelPeerPlan)
    → (interface_name_from_plan interface == "mtu") ≡ false
    → classes (apply_interface_commands interface)
        ≡ create_interface ∷ configure_interface ∷ mtu_class interface.mtu
          ++ each assign_address interface.addresses
      × classes (apply_peer_commands name peer)
        ≡ configure_peer ∷ each replacing_route peer.allowed_ips
      × classes (remove_peer_commands name peer)
        ≡ remove_peer ∷ each deleting_route peer.allowed_ips
      × classify (bring_up_command name) ≡ bring_up
      × classify (bring_down_command name) ≡ bring_down
unfolding classify bring_up_command bring_down_command
commands-classes interface name peer h =
    (interface-classes interface h, peer-classes name peer, removal-classes name peer, refl, refl)
