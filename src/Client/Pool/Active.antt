-- ===== src/Client/Pool/Active.antt =====
-- The active node of `InMemoryDerpPool` and the nodes of its links, from call to call
-- (client/app_core/crates/relay-client/src/runtime.rs).
use slan.Prelude.{
  ℕ, min, max, String, Bool, true, false, ◌≡◌, refl, List, map, any, null, length, Option, none,
  some, Result, ok, err, if_cases, if◌then◌else◌,
}
use mathlib.Core.Option.{some-injective}
use slan.AppCore.Derp.{DerpNodeMeta, DerpSwitchEvent, SwitchReason, RelayTicket}
use slan.Client.Links.{DerpClient, ManagedLink, tick_link}
use slan.Client.Pool.{
  PoolState, Pool, empty_pool, collect_snapshots, chosen_node, choose_active_index, is_node,
  install_cluster, warm_links, finish_warm_up, warm_up_with, warm_up, with_link, via_node,
  via_active, send_transport_packet_via_active, poll_transport_packet_via_active, tick_health_check,
  switch_to, maybe_switch, ready_link, finish_force, force_switch_with, force_switch, close_links,
  finish_close, close_pool,
}
use slan.Client.Pool.Nodes.{
  metas, names, Keeps, Finds, with_link-Keeps, ready_link-Keeps, ready_link-Finds, tick-metas,
  warm_links-metas, close_links-metas, node_at-Known,
}

-- The active node, if there is one, is a node of the cluster.
abbrev pub Known : {Client : Type 0} → PoolState Client → Type 0
Known p = (n : String) → p.active_node_id ≡ some n → any (names n) (metas p.links) ≡ true

module _ (D : DerpClient) where
  open D use {Client}

  Known-links :
      (p : Pool D) (ls : List (ManagedLink Client))
      → Known p
      → metas ls ≡ metas p.links
      → Known (record p { links = ls })
  Known-links p ls k same n e = rw same (k n e)

  Known-chosen :
      (p : Pool D) (n : String) → chosen_node D p ≡ some n → any (names n) (metas p.links) ≡ true
  unfolding chosen_node
  Known-chosen p n e = node_at-Known D p.links (choose_active_index (collect_snapshots D p)) n e

  via_node-Known :
      {A : Type 0} (p : Pool D) (o : Option (Result String A × List (ManagedLink Client)))
      → Known p
      → Keeps (metas p.links) o
      → Known (via_node D p o).1
  via_node-Known p none k h = k
  via_node-Known p (some (r, ls)) k h = Known-links p ls k h

  via_active-Known :
      {A : Type 0} (p : Pool D) (o : Option String) (f : Client → Result String A × Client)
      → Known p
      → Known (via_active D p o f).1
  via_active-Known p none f k = k
  via_active-Known p (some n) f k =
      via_node-Known p (with_link D n f p.links) k (with_link-Keeps D n f p.links)

  finish_warm_up-Known :
      (p : Pool D) (q : Result String (Unit {0}) × List (ManagedLink Client))
      → Known p
      → metas q.1 ≡ metas p.links
      → Known (finish_warm_up D p q).1
  finish_warm_up-Known p (err e, ls) k h n f = Known-links p ls k h n f
  finish_warm_up-Known p (ok u, ls) k h n e = Known-chosen (record p { links = ls }) n e

  warm_up_with-Known :
      (p : Pool D) (fanout : ℕ) (o : Option RelayTicket)
      → Known p
      → Known (warm_up_with D p fanout o).1
  warm_up_with-Known p fanout none k = k
  warm_up_with-Known p fanout (some t) k =
      let n = min (max fanout 1) (length p.links) in
      finish_warm_up-Known p (warm_links D t n p.links) k (warm_links-metas D t n p.links)

  switch_to-Known :
      (now : ℕ) (p : Pool D) (o : Option String)
      → Known p
      → Known (record p { active_node_id = o })
      → Known (switch_to D now p o).1
  switch_to-Known now p none k h = k
  switch_to-Known now p (some t) k h =
      if_cases (λ (r : Result String (Option DerpSwitchEvent) × Pool D). Known r.1)
        (is_node p.active_node_id t) _ _ (λ same. k) (λ other. h)

  finish_force-Known :
      (now : ℕ) (p : Pool D) (t : String) (r : SwitchReason)
      (o : Option (Result String (Unit {0}) × List (ManagedLink Client)))
      → Known p
      → Keeps (metas p.links) o
      → Finds t p.links o
      → Known (finish_force D now p t r o).1
  finish_force-Known now p t r none k h g n e = k n e
  finish_force-Known now p t r (some (err e, ls)) k h g n f = Known-links p ls k h n f
  finish_force-Known now p t r (some (ok u, ls)) k h g n e = rw (h, ← some-injective t n e, g) refl

  close-Known :
      (p : Pool D) (q : Result String (Unit {0}) × List (ManagedLink Client))
      → Known p
      → metas q.1 ≡ metas p.links
      → Known (finish_close D p q).1
  close-Known p (err e, ls) k h n f = Known-links p ls k h n f
  close-Known p (ok u, ls) k h n e = cc

-- a call of the pool
pub data PoolCall : Type 0 where
  install : String → List DerpNodeMeta → RelayTicket → PoolCall
  warm : ℕ → PoolCall
  send : List ℕ → PoolCall
  poll tick switch close_all : PoolCall
  force : String → SwitchReason → PoolCall

module _ (D : DerpClient) where
  -- what a call at a time leaves
  unfoldable pub after : ℕ → Pool D → PoolCall → Pool D
  after now p (install cluster nodes ticket) = (install_cluster D now p cluster nodes ticket).1
  after now p (warm fanout) = (warm_up D p fanout).1
  after now p (send bytes) = (send_transport_packet_via_active D p bytes).1
  after now p poll = (poll_transport_packet_via_active D p).1
  after now p tick = (tick_health_check D p).1
  after now p switch = (maybe_switch D now p).1
  after now p close_all = (close_pool D p).1
  after now p (force target reason) = (force_switch D now p target reason).1

  pub data ReachablePool : Pool D → Type 0 where
    opened : ReachablePool (empty_pool D)
    called : {p : Pool D} (now : ℕ) (c : PoolCall) → ReachablePool p → ReachablePool (after now p c)

  guarded :
      {B : Type 0} (p : Pool D) (b : Bool) (e : B) (q : B × Pool D)
      → Known p
      → Known q.1
      → Known (if b then (e, p) else q).1
  guarded p true e q k h = k
  guarded p false e q k h = h

  forced-Known :
      (now : ℕ) (p : Pool D) (t : String) (r : SwitchReason) (o : Option RelayTicket)
      → Known p
      → Known (force_switch_with D now p t r o).1
  forced-Known now p t r none k = k
  forced-Known now p t r (some ticket) k =
      finish_force-Known D now p t r (ready_link D ticket t p.links) k
        (ready_link-Keeps D ticket t p.links) (ready_link-Finds D ticket t p.links)

  after-Known : (now : ℕ) (p : Pool D) (c : PoolCall) → Known p → Known (after now p c)
  unfolding after install_cluster warm_up send_transport_packet_via_active
      poll_transport_packet_via_active tick_health_check maybe_switch close_pool force_switch
  after-Known now p (install cluster nodes ticket) k = guarded p p.poisoned _ _ k (λ n e. cc)
  after-Known now p (warm fanout) k =
      guarded p p.poisoned _ _ k
        (guarded p (null p.links) _ _ k (warm_up_with-Known D p fanout p.ticket k))
  after-Known now p (send bytes) k =
      guarded p (null bytes) _ _ k
        (guarded p p.poisoned _ _ k (via_active-Known D p p.active_node_id _ k))
  after-Known now p poll k = guarded p p.poisoned _ _ k (via_active-Known D p p.active_node_id _ k)
  after-Known now p tick k =
      guarded p p.poisoned _ _ k
        (Known-links D p (map (tick_link D) p.links) k (tick-metas D p.links))
  after-Known now p switch k =
      guarded p p.poisoned _ _ k (switch_to-Known D now p (chosen_node D p) k (Known-chosen D p))
  after-Known now p close_all k =
      guarded p p.poisoned _ _ k
        (close-Known D p (close_links D p.links) k (close_links-metas D p.links))
  after-Known now p (force target reason) k =
      guarded p p.poisoned _ _ k (forced-Known now p target reason p.ticket k)

  -- Whatever the calls, in whatever order, and whatever the links' clients answer, the pool's active
  -- node, if it has one, is the node of one of its links.
  pub ReachablePool-Known : {p : Pool D} → ReachablePool p → Known p
  unfolding empty_pool
  ReachablePool-Known opened = λ n e. cc
  ReachablePool-Known (called {p} now c r) = after-Known now p c (ReachablePool-Known r)
