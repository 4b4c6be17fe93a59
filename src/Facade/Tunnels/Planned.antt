-- ===== src/Facade/Tunnels/Planned.antt =====
-- The peer that `replace_tunnel` leaves the manager with
-- (client/app_core/crates/ffi-bridge/src/state_helpers.rs)
use slan.Prelude.{
  String, ◌≡◌, refl, ap, ◌∙◌, Option, none, some, ok, Bool-cases, inl, inr, if◌then◌else◌,
}
use slan.Prelude.Table
use slan.Prelude.Table.{get-insert_self}
use slan.Client.Action.Keeps.{Keeps-pure}
use slan.Client.Action.Yields.{
  Yields, Yields-keeps, Yields-bind, Yields-modify, Yields-gate, Yields-gets, Yields-within,
}
use slan.Tunnel.Backend.{TunnelConfig}
use slan.Tunnel.Runtime.{TunnelManager}
use slan.Tunnel.Contract
use slan.Tunnel.Contract.{KeepsTable, change}
use slan.Facade.Tunnels.{same_ip, ip_of, close_other, establish_next, replace_tunnel}
use slan.Facade.Tunnels.Replacing.{Cell, table, Changed, request-Yields}

module _ {S : Type 0} {M : TunnelManager S} (K : KeepsTable M) where
  -- what the manager has for the peer of a configuration, once that is replaced by
  abbrev due : TunnelConfig → Cell K → Option K.Peer
  due c s =
      if same_ip s.current (some c.peer_virtual_ip)
      then Table.get c.peer_virtual_ip (table K s)
      else some (K.planned c.wireguard_peer)

  close_other-due :
      (c : TunnelConfig) (x : Option K.Peer) (old : Option String)
      → Yields
          (λ s. due c s ≡ x × s.current ≡ old)
          (close_other M (ip_of (some c)) old)
          (λ s. due c s ≡ x)
  unfolding close_other
  close_other-due c x none =
      Yields-within _ _ (λ s h. h)
        (Yields-keeps (λ s. due c s ≡ x × s.current ≡ none) _ (Keeps-pure _ tt)) (λ s h. h.0)
  close_other-due c x (some ip) = elim (Bool-cases (same_ip (some ip) (some c.peer_virtual_ip))) [
    | inl same ↦ rw same (
        Yields-within _ _ (λ s h. h)
          (Yields-keeps (λ s. due c s ≡ x × s.current ≡ some ip) _ (Keeps-pure _ tt)) (λ s h. h.0))
    | inr differs ↦ rw differs (
        Yields-bind _ (λ s. some (K.planned c.wireguard_peer) ≡ x) _ _ _
          (record { reached = λ s t a (h, e) _. rw (e, differs) at h })
          (λ u. Yields-modify (λ s. some (K.planned c.wireguard_peer) ≡ x) _ _ (λ s h. h)))
  ]

  establish_next-due :
      (c : TunnelConfig) (x : Option K.Peer) (current : Option String)
      → Yields
          (λ s. due c s ≡ x × s.current ≡ current)
          (establish_next M (some c) current)
          (λ s. Table.get c.peer_virtual_ip (table K s) ≡ x)
  unfolding establish_next Changed change
  establish_next-due c x current = elim (Bool-cases (same_ip current (some c.peer_virtual_ip))) [
    | inl same ↦ rw same (
        Yields-within _ _ (λ s h. h)
          (Yields-keeps (λ s. due c s ≡ x × s.current ≡ current) _ (Keeps-pure _ tt))
          (λ s (h, e). rw (e, same) at h))
    | inr differs ↦ rw differs (
        Yields-bind _ (λ s. Table.get c.peer_virtual_ip (table K s) ≡ x) _ _ _
          (record {
            reached = λ s t a (h, e) g.
                ap (Table.get c.peer_virtual_ip) (request-Yields K (Contract.establish c) s t a g).0
                ∙ get-insert_self c.peer_virtual_ip (K.planned c.wireguard_peer) (table K s)
                ∙ (rw (e, differs) at h);
          })
          (λ u. Yields-modify (λ s. Table.get c.peer_virtual_ip (table K s) ≡ x) _ _ (λ s h. h)))
  ]

  -- Where the manager keeps a table, a replacement by a configuration that goes well leaves the manager
  -- with a peer that this configuration plans, unless the tunnel was to its address before: then the
  -- manager has for it what it had, even if the configuration has another key, endpoint or keepalive.
  pub replace_tunnel-planned :
      (c : TunnelConfig) (s t : Cell K)
      → replace_tunnel M (some c) s ≡ (ok tt, t)
      → Table.get c.peer_virtual_ip (K.peers t.manager) ≡ (
          if same_ip s.current (some c.peer_virtual_ip)
          then Table.get c.peer_virtual_ip (K.peers s.manager)
          else some (K.planned c.wireguard_peer))
  unfolding replace_tunnel
  replace_tunnel-planned c s t h = (all (due c s)).reached s t tt refl h
    where
      all :
          (x : Option K.Peer)
          → Yields
              (λ s. due c s ≡ x)
              (replace_tunnel M (some c))
              (λ s. Table.get c.peer_virtual_ip (table K s) ≡ x)
      all x =
          Yields-bind _ (λ s. due c s ≡ x) _ _ _
            (Yields-within _ _ (λ s h. h) (Yields-gate (λ s. due c s ≡ x) _ _) (λ s h. h.0))
            (λ u.
              Yields-gets (λ s. due c s ≡ x) _ (λ s. s.current) _
                (λ old.
                  Yields-bind _ (λ s. due c s ≡ x) _ _ _ (close_other-due c x old)
                    (λ v.
                      Yields-gets (λ s. due c s ≡ x) _ (λ s. s.current) _
                        (λ current. establish_next-due c x current))))
