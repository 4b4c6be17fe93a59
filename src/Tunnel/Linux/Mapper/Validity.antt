-- ===== src/Tunnel/Linux/Mapper/Validity.antt =====
-- Which configurations client/app_core/crates/tunnel/src/linux_mapper.rs accepts
use slan.Prelude.{false, ◌≡◌, ◌↔◌, refl, null, ok, ◌==◌, arith}
use slan.Tunnel.Backend.{TunnelConfig}
use slan.Tunnel.Linux.Mapper.{validate_config, validate_interface, validate_peer, is_blank}

-- keys, addresses and routes are given, and the two ends differ
pub record IsUsable (c : TunnelConfig) : Type 0 where
  pub interface_key : is_blank c.wireguard_interface.key_pair.public_key ≡ false
  pub private_key : is_blank c.wireguard_interface.key_pair.private_key ≡ false
  pub has_address : null c.wireguard_interface.addresses ≡ false
  pub peer_ip : is_blank c.peer_virtual_ip ≡ false
  pub peer_key : is_blank c.wireguard_peer.public_key ≡ false
  pub has_route : null c.wireguard_peer.allowed_ips ≡ false
  pub local_ip : is_blank c.local_virtual_ip ≡ false
  pub distinct : (c.local_virtual_ip == c.peer_virtual_ip) ≡ false

module _ (c : TunnelConfig) where
  accepts : IsUsable c → validate_config c ≡ ok tt
  unfolding validate_config validate_interface validate_peer
  accepts h =
      rw
        (
          h.interface_key, h.private_key, h.has_address, h.peer_ip, h.peer_key, h.has_route,
          h.local_ip, h.distinct,
        )
        refl

  only_accepts : validate_config c ≡ ok tt → IsUsable c
  unfolding validate_config validate_interface validate_peer
  only_accepts h = record {
    interface_key = ground arith;
    private_key = ground arith;
    has_address = ground arith;
    peer_ip = ground arith;
    peer_key = ground arith;
    has_route = ground arith;
    local_ip = ground arith;
    distinct = ground arith;
  }

  -- A configuration passes the checks exactly if its keys, its addresses, its routes and the virtual
  -- addresses of both ends are given and the two ends differ.
  pub validate_config_iff : (validate_config c ≡ ok tt) ↔ IsUsable c
  validate_config_iff = (only_accepts, accepts)
