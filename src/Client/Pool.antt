-- ===== src/Client/Pool.antt =====
-- `InMemoryDerpPool` (client/app_core/crates/relay-client/src/runtime.rs) over any `DerpClient`.
-- Time is an argument; `poisoned` says that a panic has poisoned the lock.
pub mod Choice
pub mod Nodes
pub mod Active
pub mod Sending
pub mod Settling
use slan.Prelude.{
  ℕ, zero, suc, ◌+◌, ◌%◌, ◌^◌, min, max, String, Bool, true, false, ◌&&◌, ◌||◌, List, [], ◌∷◌, map,
  Option, none, some, Result, ok, err, ltb, eqb, length, null, get_elem?, find, ◌==◌, concat,
  if◌then◌else◌,
}
use slan.AppCore.Derp.{
  DerpNodeMeta, ProbeSample, DerpLinkSnapshot, DerpPoolState, SwitchReason, bootstrap_preferred,
  DerpSwitchEvent, RelayTicket,
}
use slan.Client.Links.{
  DerpClient, ManagedLink, is_usable, build_snapshot, ensure_link_ready, tick_link,
}

pub record PoolState (Client : Type 0) : Type 0 where
  pub poisoned : Bool
  pub cluster_id : String
  pub session_id : String
  pub ticket : Option RelayTicket
  pub active_node_id : Option String
  pub links : List (ManagedLink Client)
  pub switch_epoch : ℕ

abbrev pub poison_text : String
poison_text = "derp pool state poisoned"

-- `(health.score, meta.priority)`, compared as a pair
abbrev pub less_key : DerpLinkSnapshot → DerpLinkSnapshot → Bool
less_key s t =
    ltb s.health.score t.health.score
    || (eqb s.health.score t.health.score && ltb s.meta.priority t.meta.priority)

abbrev pub better :
    Option (ℕ × DerpLinkSnapshot) → ℕ → DerpLinkSnapshot → Option (ℕ × DerpLinkSnapshot)
better none i s = if is_usable s.state then some (i, s) else none
better (some (j, t)) i s = if is_usable s.state && less_key s t then some (i, s) else some (j, t)

-- `filter(..).min_by_key(..)`, which keeps the first of equal keys
unfoldable pub pick :
    Option (ℕ × DerpLinkSnapshot) → ℕ → List DerpLinkSnapshot → Option (ℕ × DerpLinkSnapshot)
pick best i [] = best
pick best i (s ∷ ss) = pick (better best i s) (suc i) ss

abbrev pub index_of : Option (ℕ × DerpLinkSnapshot) → Option ℕ
index_of none = none
index_of (some (i, s)) = some i

unfoldable pub choose_active_index : List DerpLinkSnapshot → Option ℕ
choose_active_index ss = index_of (pick none 0 ss)

abbrev pub is_node : Option String → String → Bool
is_node none node_id = false
is_node (some active) node_id = active == node_id

-- `self.switch_epoch += 1` on u64
abbrev pub next_epoch : ℕ → ℕ
next_epoch n = (n + 1) % 2 ^ 64

module _ (D : DerpClient) where
  open D use {Client, new, send_transport_packet, poll_transport_packet, close}

  abbrev pub Pool : Type 0
  Pool = PoolState Client

  unfoldable pub empty_pool : Pool
  empty_pool = record {
    poisoned = false;
    cluster_id = "";
    session_id = "";
    ticket = none;
    active_node_id = none;
    links = [];
    switch_epoch = 0;
  }

  unfoldable pub collect_snapshots : Pool → List DerpLinkSnapshot
  collect_snapshots p =
      map (λ l. build_snapshot D l (is_node p.active_node_id l.meta.node_id)) p.links

  -- `links[idx].meta.node_id`; an index that was chosen is in range
  abbrev pub node_at : List (ManagedLink Client) → Option ℕ → Option String
  node_at links none = none
  node_at links (some idx) = elim (get_elem? links idx) [
    | none ↦ none
    | some l ↦ some l.meta.node_id
  ]

  unfoldable pub chosen_node : Pool → Option String
  chosen_node p = node_at p.links (choose_active_index (collect_snapshots p))

  abbrev pub new_link : ℕ → DerpNodeMeta → ManagedLink Client
  new_link now_ms meta = record {
    meta = meta;
    client = new;
    last_probe =
        some
          (record { rtt_ms = 0; timed_out = false; packet_loss_ppm = 0; sampled_at_ms = now_ms });
    timeout_count = 0;
    consecutive_failures = 0;
    last_error = none;
  }

  -- The old links are closed and dropped, whatever their `close` says.
  unfoldable pub install_cluster :
      ℕ → Pool → String → List DerpNodeMeta → RelayTicket → Result String (Unit {0}) × Pool
  install_cluster now_ms p cluster_id nodes ticket = if p.poisoned then (err poison_text, p) else (
    ok tt,
    record {
      poisoned = false;
      cluster_id = cluster_id;
      session_id = ticket.session_id;
      ticket = some ticket;
      active_node_id = none;
      links = map (new_link now_ms) nodes;
      switch_epoch = 0;
    },
  )

  abbrev pub cooled : ManagedLink Client → ManagedLink Client
  cooled l = record l { client = (close l.client).1; last_error = none }

  abbrev pub warmed :
      Result String (Unit {0}) × ManagedLink Client
      → List (ManagedLink Client)
      → Result String (Unit {0}) × List (ManagedLink Client)
      → Result String (Unit {0}) × List (ManagedLink Client)
  warmed (err e, l) untouched rest = (err e, record l { last_error = some e } ∷ untouched)
  warmed (ok _, l) untouched (r, ls) = (r, l ∷ ls)

  -- The first `warm_count` links are made ready, the others closed; the first failure ends the loop.
  unfoldable pub warm_links :
      RelayTicket
      → ℕ
      → List (ManagedLink Client)
      → Result String (Unit {0}) × List (ManagedLink Client)
  warm_links ticket n [] = (ok tt, [])
  warm_links ticket zero (l ∷ ls) = let (r, ls') = warm_links ticket zero ls in (r, cooled l ∷ ls')
  warm_links ticket (suc n) (l ∷ ls) =
      warmed (ensure_link_ready D l ticket) ls (warm_links ticket n ls)

  abbrev pub finish_warm_up :
      Pool → Result String (Unit {0}) × List (ManagedLink Client) → Result String (Unit {0}) × Pool
  finish_warm_up p (err e, links) = (err e, record p { links = links })
  finish_warm_up p (ok _, links) =
      (ok tt, record p { links = links; active_node_id = chosen_node (record p { links = links }) })

  abbrev pub warm_up_with : Pool → ℕ → Option RelayTicket → Result String (Unit {0}) × Pool
  warm_up_with p fanout none = (err "derp pool has no installed ticket", p)
  warm_up_with p fanout (some ticket) =
      finish_warm_up p (warm_links ticket (min (max fanout 1) (length p.links)) p.links)

  unfoldable pub warm_up : Pool → ℕ → Result String (Unit {0}) × Pool
  warm_up p fanout =
      if p.poisoned
      then (err poison_text, p)
      else if null p.links
      then (err "derp pool has no installed cluster", p)
      else warm_up_with p fanout p.ticket

  unfoldable pub active_link : Pool → Option DerpLinkSnapshot
  active_link p = if p.poisoned then none else find (λ s. s.is_active) (collect_snapshots p)

  -- a use of the first link with a node id; `none` where no link has it
  unfoldable pub with_link :
      {A : Type 0}
      → String
      → (Client → A × Client)
      → List (ManagedLink Client)
      → Option (A × List (ManagedLink Client))
  with_link node_id f [] = none
  with_link node_id f (l ∷ ls) =
      let rest = with_link node_id f ls in
      if l.meta.node_id == node_id
      then (let (a, c) = f l.client in some (a, record l { client = c } ∷ ls))
      else elim rest [ none ↦ none | some (a, ls') ↦ some (a, l ∷ ls') ]

  abbrev pub via_node :
      {A : Type 0}
      → Pool
      → Option (Result String A × List (ManagedLink Client))
      → Result String A × Pool
  via_node p none = (err "derp pool active node missing", p)
  via_node p (some (r, links)) = (r, record p { links = links })

  abbrev pub via_active :
      {A : Type 0}
      → Pool
      → Option String
      → (Client → Result String A × Client)
      → Result String A × Pool
  via_active p none f = (err "derp pool has no active link", p)
  via_active p (some node_id) f = via_node p (with_link node_id f p.links)

  unfoldable pub send_transport_packet_via_active : Pool → List ℕ → Result String (Unit {0}) × Pool
  send_transport_packet_via_active p packet =
      if null packet
      then (err "cannot send empty packet via derp active link", p)
      else if p.poisoned
      then (err poison_text, p)
      else via_active p p.active_node_id (λ c. send_transport_packet c packet)

  unfoldable pub poll_transport_packet_via_active : Pool → Result String (Option (List ℕ)) × Pool
  poll_transport_packet_via_active p =
      if p.poisoned
      then (err poison_text, p)
      else via_active p p.active_node_id poll_transport_packet

  unfoldable pub tick_health_check : Pool → Result String (Unit {0}) × Pool
  tick_health_check p =
      if p.poisoned
      then (err poison_text, p)
      else (ok tt, record p { links = map (tick_link D) p.links })

  abbrev pub switch_event : ℕ → Pool → String → SwitchReason → DerpSwitchEvent
  switch_event now_ms p target reason = record {
    cluster_id = p.cluster_id;
    from_node_id = p.active_node_id;
    to_node_id = target;
    reason = reason;
    happened_at_ms = now_ms;
  }

  abbrev pub switched : Pool → String → Pool
  switched p target = record p {
    active_node_id = some target;
    switch_epoch = next_epoch p.switch_epoch;
  }

  abbrev pub switch_to : ℕ → Pool → Option String → Result String (Option DerpSwitchEvent) × Pool
  switch_to now_ms p none = (ok none, p)
  switch_to now_ms p (some target) =
      if is_node p.active_node_id target
      then (ok none, p)
      else (ok (some (switch_event now_ms p target bootstrap_preferred)), switched p target)

  unfoldable pub maybe_switch : ℕ → Pool → Result String (Option DerpSwitchEvent) × Pool
  maybe_switch now_ms p =
      if p.poisoned then (err poison_text, p) else switch_to now_ms p (chosen_node p)

  -- `DerpPool::state`
  unfoldable pub pool_state : Pool → DerpPoolState
  pool_state p =
      if p.poisoned
      then record {
        cluster_id = "";
        session_id = "";
        active_node_id = none;
        links = [];
        switch_epoch = 0;
      }
      else record {
        cluster_id = p.cluster_id;
        session_id = p.session_id;
        active_node_id = p.active_node_id;
        links = collect_snapshots p;
        switch_epoch = p.switch_epoch;
      }

  -- `ensure_link_ready` on the first link with a node id
  unfoldable pub ready_link :
      RelayTicket
      → String
      → List (ManagedLink Client)
      → Option (Result String (Unit {0}) × List (ManagedLink Client))
  ready_link ticket node_id [] = none
  ready_link ticket node_id (l ∷ ls) =
      let rest = ready_link ticket node_id ls in
      if l.meta.node_id == node_id
      then (let (r, l') = ensure_link_ready D l ticket in some (r, l' ∷ ls))
      else elim rest [ none ↦ none | some (r, ls') ↦ some (r, l ∷ ls') ]

  abbrev pub finish_force :
      ℕ
      → Pool
      → String
      → SwitchReason
      → Option (Result String (Unit {0}) × List (ManagedLink Client))
      → Result String DerpSwitchEvent × Pool
  finish_force now_ms p target reason none =
      (err (concat ("derp node not found: " ∷ target ∷ [])), p)
  finish_force now_ms p target reason (some (err e, links)) = (err e, record p { links = links })
  finish_force now_ms p target reason (some (ok _, links)) =
      (ok (switch_event now_ms p target reason), switched (record p { links = links }) target)

  abbrev pub force_switch_with :
      ℕ → Pool → String → SwitchReason → Option RelayTicket → Result String DerpSwitchEvent × Pool
  force_switch_with now_ms p target reason none = (err "derp pool has no installed ticket", p)
  force_switch_with now_ms p target reason (some ticket) =
      finish_force now_ms p target reason (ready_link ticket target p.links)

  unfoldable pub force_switch :
      ℕ → Pool → String → SwitchReason → Result String DerpSwitchEvent × Pool
  force_switch now_ms p target reason =
      if p.poisoned then (err poison_text, p) else force_switch_with now_ms p target reason p.ticket

  abbrev pub closed_link :
      ManagedLink Client
      → List (ManagedLink Client)
      → Result String (Unit {0}) × Client
      → Result String (Unit {0}) × List (ManagedLink Client)
      → Result String (Unit {0}) × List (ManagedLink Client)
  closed_link l untouched (err e, c) rest = (err e, record l { client = c } ∷ untouched)
  closed_link l untouched (ok _, c) (r, ls) = (r, record l { client = c; last_error = none } ∷ ls)

  -- the first `close` that fails ends the loop
  unfoldable pub close_links :
      List (ManagedLink Client) → Result String (Unit {0}) × List (ManagedLink Client)
  close_links [] = (ok tt, [])
  close_links (l ∷ ls) = closed_link l ls (close l.client) (close_links ls)

  abbrev pub finish_close :
      Pool → Result String (Unit {0}) × List (ManagedLink Client) → Result String (Unit {0}) × Pool
  finish_close p (err e, links) = (err e, record p { links = links })
  finish_close p (ok _, links) = (ok tt, record p { links = links; active_node_id = none })

  unfoldable pub close_pool : Pool → Result String (Unit {0}) × Pool
  close_pool p = if p.poisoned then (err poison_text, p) else finish_close p (close_links p.links)
