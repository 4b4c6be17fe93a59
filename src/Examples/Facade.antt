-- ===== src/Examples/Facade.antt =====
-- The theorems about the facade, over the Linux driver of the tests.
use slan.Prelude.{
  ◌≡◌, refl, inr, Bool, false, Option, none, some, Result, ok, err, List, [], ◌∷◌, ap, sym,
  ok-injective, if◌then◌else◌,
}
use slan.Prelude.Table
use slan.Tunnel.Backend.{TunnelConfig}
use slan.Tunnel.Runtime.{TunnelManager, system_tunnel_manager}
use slan.Tunnel.Linux.Adapter.{Adapter}
use slan.Tunnel.Linux.Backend.{linux_backend}
use slan.Tunnel.Linux.Backend.Refinement.{linux_keeps_table}
use slan.Client.Action.{◌>>=◌, gets, pure, fail_if}
use slan.Facade.Tunnels.{
  TunnelCell, on_manager, close_other, establish_next, replace_tunnel, ip_of, same_ip,
}
use slan.Facade.Tunnels.Replacing.{OnlyCurrent, Replaced, replace_tunnel-Replaced}
use slan.Facade.Tunnels.Planned.{replace_tunnel-planned}
use slan.AppCore.Wireguard.{TunnelKeyMaterial}
use slan.Facade.Keys.{
  KeyFile, ReadFailure, not_found, generate, load_store, save_store, generate_key, find_key,
}
use slan.Facade.Keys.Reuse.{IsFaithful, done, more, generate-reuse}
use slan.Examples.Tunnel.{limited, config, fresh, tunnel_runs}

abbrev manager : TunnelManager (Adapter limited)
manager = system_tunnel_manager (linux_backend limited)

-- no tunnel yet
abbrev idle : TunnelCell (Adapter limited)
idle = record { poisoned = false; current = none; manager = fresh }

unfoldable facade_runs : Bool
unfolding tunnel_runs on_manager close_other establish_next replace_tunnel generate load_store
    save_store generate_key find_key
facade_runs = false

idle-OnlyCurrent : OnlyCurrent (linux_keeps_table limited) idle
unfolding Table.get
idle-OnlyCurrent = record { others = λ j. inr refl }

-- a tunnel to the peer of the configuration
abbrev busy : TunnelCell (Adapter limited)
busy = (replace_tunnel manager (some config) idle).1

tunnel_replaced : replace_tunnel manager (some config) idle ≡ (ok tt, busy)
unfolding facade_runs
tunnel_replaced = refl

replace_tunnel-Replaced_example : Replaced (linux_keeps_table limited) (ip_of (some config)) busy
replace_tunnel-Replaced_example =
    replace_tunnel-Replaced (linux_keeps_table limited) (some config) idle busy idle-OnlyCurrent
      tunnel_replaced

-- the peer has another key by now
abbrev rekeyed : TunnelConfig
rekeyed = record config {
  wireguard_peer = record config.wireguard_peer { public_key = "other-pk" };
}

busy_healthy : busy.poisoned ≡ false
unfolding facade_runs
busy_healthy = refl

busy_with_peer : busy.current ≡ some "100.64.0.2"
unfolding facade_runs
busy_with_peer = refl

tunnel_kept :
    (s : TunnelCell (Adapter limited))
    → s.poisoned ≡ false
    → s.current ≡ some "100.64.0.2"
    → replace_tunnel manager (some rekeyed) s ≡ (ok tt, s)
unfolding replace_tunnel close_other establish_next ◌>>=◌ gets pure fail_if
tunnel_kept s healthy e = rw (healthy, e) refl

rekeyed_ignored : replace_tunnel manager (some rekeyed) busy ≡ (ok tt, busy)
rekeyed_ignored = tunnel_kept busy busy_healthy busy_with_peer

replace_tunnel-planned_example :
    ◌≡◌ {A = Option (linux_keeps_table limited).Peer}
      (Table.get "100.64.0.2" ((linux_keeps_table limited).peers busy.manager))
      (if same_ip busy.current (some "100.64.0.2")
        then Table.get "100.64.0.2" ((linux_keeps_table limited).peers busy.manager)
        else some ((linux_keeps_table limited).planned rekeyed.wireguard_peer))
replace_tunnel-planned_example =
    replace_tunnel-planned (linux_keeps_table limited) rekeyed busy busy rekeyed_ignored

-- a file that may be there
abbrev read_file : Option (List TunnelKeyMaterial) → Result ReadFailure (List TunnelKeyMaterial)
read_file none = err not_found
read_file (some keys) = ok keys

abbrev key_file : KeyFile
key_file = record {
  World = Option (List TunnelKeyMaterial);
  Content = List TunnelKeyMaterial;
  path = "keys.json";
  parent = none;
  read = read_file;
  create_dir_all = λ dir s. (ok tt, s);
  write = λ keys s. (ok tt, some keys);
  from_slice = λ keys. ok keys;
  to_vec_pretty = λ keys. ok keys;
}

key_file-IsFaithful : IsFaithful key_file
key_file-IsFaithful = record {
  parses = λ ms bs h. ap ok (sym (ok-injective h));
  reads = λ bs s t h. ap read_file (sym (ap (λ q. q.1) h));
}

abbrev first_key : TunnelKeyMaterial
first_key = generate_key "dev-1" (some "node-1") "peer-1" 42

key_generated :
    generate key_file "dev-1" (some "node-1") "peer-1" 42 none
    ≡ (ok first_key, some (first_key ∷ []))
unfolding facade_runs
key_generated = refl

-- another device's key is added in between
abbrev second_key : TunnelKeyMaterial
second_key = generate_key "dev-2" none "peer-1" 43

another_generated :
    generate key_file "dev-2" none "peer-1" 43 (some (first_key ∷ []))
    ≡ (ok second_key, some (first_key ∷ second_key ∷ []))
unfolding facade_runs
another_generated = refl

generate-reuse_example :
    generate key_file "dev-1" (some "node-1") "peer-2" 44 (some (first_key ∷ second_key ∷ []))
    ≡ (ok first_key, some (first_key ∷ second_key ∷ []))
generate-reuse_example =
    generate-reuse key_file key_file-IsFaithful "dev-1" (some "node-1") "peer-1" "peer-2" 42 44
      first_key none (some (first_key ∷ [])) (some (first_key ∷ second_key ∷ [])) key_generated
      (more "dev-2" none "peer-1" 43 second_key another_generated done)
