-- ===== src/Client/Path/Failover.antt =====
-- The path manager on `InMemoryDerpPool` after a peer-to-peer connection has failed
-- (client/app_core/crates/relay-client/src/runtime.rs).
use slan.Prelude.{
  ℕ, String, true, false, ◌≡◌, refl, sym, List, [], ◌∷◌, map, any, find, null, some, map_err, ◌==◌,
  eq_refl, eq_iff, Bool-cases, inl, inr,
}
use slan.AppCore.Connection.{derp}
use slan.AppCore.Derp.{DerpLinkSnapshot}
use slan.Client.Links.{DerpClient, ManagedLink, build_snapshot}
use slan.Client.Codes.{RelayClientError, message_only}
use slan.Client.Pool.{
  Pool, is_node, collect_snapshots, active_link, send_transport_packet_via_active,
  poll_transport_packet_via_active,
}
use slan.Client.Pool.Nodes.{metas, names}
use slan.Client.Pool.Active.{ReachablePool, ReachablePool-Known}
use slan.Client.Pool.Sending.{First, send-First}
use slan.Client.Path.{
  PoolCalls, Transport, Manager, on_p2p_failed, send_transport_packet, current_path,
}

not_equal_sym : (a b : String) → (a == b) ≡ false → (b == a) ≡ false
not_equal_sym a b h = elim (Bool-cases (b == a)) [
  | inl same ↦ (let e = (eq_iff b a).0 same in cc (e, h, eq_refl a))
  | inr other ↦ other
]

module _ (D : DerpClient) where
  -- `InMemoryDerpPool` as the path manager uses it
  abbrev pub pool_calls : PoolCalls
  pool_calls = record {
    Pool = Pool D;
    active_link = active_link D;
    send_via_active = send_transport_packet_via_active D;
    poll_via_active = poll_transport_packet_via_active D;
  }

  -- what `find` gives on the snapshots is a snapshot of the active node
  find-active :
      (n : String) (ls : List (ManagedLink D.Client))
      → any (names n) (metas ls) ≡ true
      → (s : DerpLinkSnapshot) × (find
            (λ x. x.is_active)
            (map (λ l. build_snapshot D l (is_node (some n) l.meta.node_id)) ls)
          ≡ some s)
        × (s.meta.node_id ≡ n)
  unfolding build_snapshot
  find-active n [] h = cc
  find-active n (l ∷ ls) h = elim (Bool-cases (n == l.meta.node_id)) [
    | inl here ↦ (build_snapshot D l true, rw here refl, sym ((eq_iff n l.meta.node_id).0 here))
    | inr other ↦
        (let (s, found, same) = find-active n ls (rw (not_equal_sym n l.meta.node_id other) at h) in
          (s, rw other found, same))
  ]

  pub active_link-active :
      {p : Pool D} (n : String)
      → ReachablePool D p
      → p.poisoned ≡ false
      → p.active_node_id ≡ some n
      → (s : DerpLinkSnapshot) × (active_link D p ≡ some s) × (s.meta.node_id ≡ n)
  unfolding active_link collect_snapshots
  active_link-active {p} n r live active =
      let (s, found, same) = find-active n p.links (ReachablePool-Known D r n active) in
      (s, rw (live, active) found, same)

  module _ (R : Transport RelayClientError) (P : Transport String) where
    -- On a pool that some calls have led to, with an active node, and where no lock is poisoned, a
    -- failure of the peer-to-peer connection moves the path to that node, and the answer to the next
    -- packet, if it is not empty, is that of the client of the node's first link.
    pub failed-send :
        (m : Manager pool_calls R P) (n peer reason : String) (bytes : List ℕ)
        → ReachablePool D m.derp_pool
        → m.state.poisoned ≡ false
        → m.derp_pool.poisoned ≡ false
        → m.derp_pool.active_node_id ≡ some n
        → null bytes ≡ false
        → (x : First n m.derp_pool.links) × (cluster : String) × (current_path pool_calls R P
              (on_p2p_failed pool_calls R P m peer reason).1
            ≡ derp cluster n)
          × ((send_transport_packet pool_calls R P
                (on_p2p_failed pool_calls R P m peer reason).1
                bytes).0
              ≡ map_err message_only (D.send_transport_packet x.link.client bytes).0)
    unfolding on_p2p_failed send_transport_packet current_path
    failed-send m n peer reason bytes r live open_pool active some_bytes =
        let (s, found, same) = active_link-active n r open_pool active in
        let (x, sent) = send-First D n bytes r open_pool active some_bytes in
        (x, s.meta.cluster_id, rw (live, found, same) refl, rw (live, found, some_bytes, sent) refl)
