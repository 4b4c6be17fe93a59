-- ===== src/Client/Path/Routing.antt =====
-- How the path manager's state and its transports evolve
-- (client/app_core/crates/relay-client/src/runtime.rs).
use slan.Prelude.{
  ℕ, String, Bool, true, false, ◌≡◌, refl, List, null, Option, none, some, if◌then◌else◌,
}
use slan.AppCore.Connection.{ActivePath, p2p, relay, derp}
use slan.AppCore.Derp.{DerpLinkSnapshot}
use slan.Client.Codes.{RelayClientError}
use slan.Client.Path.{
  PoolCalls, Transport, PathState, Manager, new_manager, fallback, on_p2p_failed, on_p2p_recovered,
  send_on, send_transport_packet, poll_on, poll_transport_packet,
}

-- what a path manager has accepted: a failure of a peer, with the DERP node that was active then, or a
-- recovery
pub data PathEvent : Type 0 where
  failure : String → String → Option DerpLinkSnapshot → PathEvent
  recovery : String → PathEvent

-- what the latest event leaves
abbrev latest_path : Option PathEvent → ActivePath
latest_path none = ActivePath.none
latest_path (some (failure peer reason (some link))) = derp link.meta.cluster_id link.meta.node_id
latest_path (some (failure peer reason none)) = relay peer
latest_path (some (recovery peer)) = p2p peer

abbrev latest_peer : Option PathEvent → Option String
latest_peer none = none
latest_peer (some (failure peer reason link)) = some peer
latest_peer (some (recovery peer)) = some peer

abbrev latest_reason : Option PathEvent → Option String
latest_reason none = none
latest_reason (some (failure peer reason link)) = some reason
latest_reason (some (recovery peer)) = none

-- The path, the peer and the reason are all those of this event.
abbrev pub Tells : Option PathEvent → PathState → Type 0
Tells e s =
    (s.active_path ≡ latest_path e)
    × (s.last_peer_node_id ≡ latest_peer e)
    × (s.last_failure_reason ≡ latest_reason e)

-- a call of the path manager
pub data PathCall : Type 0 where
  failed : String → String → PathCall
  back : String → PathCall
  sending : List ℕ → PathCall
  polling : PathCall

module _ (D : PoolCalls) (R : Transport RelayClientError) (P : Transport String) where
  open D use {Pool}

  unfoldable pub after : Manager D R P → PathCall → Manager D R P
  after m (failed peer reason) = (on_p2p_failed D R P m peer reason).1
  after m (back peer) = (on_p2p_recovered D R P m peer).1
  after m (sending bytes) = (send_transport_packet D R P m bytes).1
  after m polling = (poll_transport_packet D R P m).1

  -- the latest event, once a call was made; a poisoned state takes none
  abbrev pub latest : Manager D R P → PathCall → Option PathEvent → Option PathEvent
  latest m (failed peer reason) e =
      if m.state.poisoned then e else some (failure peer reason (D.active_link m.derp_pool))
  latest m (back peer) e = if m.state.poisoned then e else some (recovery peer)
  latest m (sending bytes) e = e
  latest m polling e = e

  -- what calls lead to, with the latest event, while the transports' states are changed by others and
  -- the lock may be poisoned between them
  pub data ReachableManager : Option PathEvent → Manager D R P → Type 0 where
    started :
        (d : Pool) (r : R.State) (p : P.State) → ReachableManager none (new_manager D R P d r p)
    called :
        {e : Option PathEvent} {m : Manager D R P} (c : PathCall)
        → ReachableManager e m
        → ReachableManager (latest m c e) (after m c)
    elsewhere :
        {e : Option PathEvent} {m : Manager D R P} (d : Pool) (r : R.State) (p : P.State)
        → ReachableManager e m
        → ReachableManager e (record m { derp_pool = d; relay_client = r; p2p_connector = p })
    panicked :
        {e : Option PathEvent} {m : Manager D R P}
        → ReachableManager e m
        → ReachableManager e (record m { state = record m.state { poisoned = true } })

  -- Only the transport of the path is another afterwards.
  pub data Touched (m : Manager D R P) : ActivePath → Manager D R P → Type 0 where
    nothing : {a : ActivePath} → Touched m a m
    pool : {c n : String} (d : Pool) → Touched m (derp c n) (record m { derp_pool = d })
    connector :
        {peer : String} (p : P.State) → Touched m (p2p peer) (record m { p2p_connector = p })
    client : {peer : String} (r : R.State) → Touched m (relay peer) (record m { relay_client = r })

  send_on-Touched :
      (m : Manager D R P) (bytes : List ℕ) (a : ActivePath)
      → Touched m a (send_on D R P m bytes a).1
  send_on-Touched m bytes ActivePath.none = nothing
  send_on-Touched m bytes (derp c n) = pool _
  send_on-Touched m bytes (p2p peer) = connector _
  send_on-Touched m bytes (relay peer) = client _

  poll_on-Touched : (m : Manager D R P) (a : ActivePath) → Touched m a (poll_on D R P m a).1
  poll_on-Touched m ActivePath.none = nothing
  poll_on-Touched m (derp c n) = pool _
  poll_on-Touched m (p2p peer) = connector _
  poll_on-Touched m (relay peer) = client _

  -- a guard that changes nothing
  guarded :
      {B : Type 0} (m : Manager D R P) (b : Bool) (e : B) (a : ActivePath) (q : B × Manager D R P)
      → Touched m a q.1
      → Touched m a (if b then (e, m) else q).1
  guarded m true e a q h = nothing
  guarded m false e a q h = h

  -- A send changes at most the state of the transport that the active path names.
  pub send-Touched :
      (m : Manager D R P) (bytes : List ℕ)
      → Touched m m.state.active_path (send_transport_packet D R P m bytes).1
  unfolding send_transport_packet
  send-Touched m bytes =
      guarded m (null bytes) _ _ _
        (guarded m m.state.poisoned _ _ _ (send_on-Touched m bytes m.state.active_path))

  pub poll-Touched :
      (m : Manager D R P) → Touched m m.state.active_path (poll_transport_packet D R P m).1
  unfolding poll_transport_packet
  poll-Touched m = guarded m m.state.poisoned _ _ _ (poll_on-Touched m m.state.active_path)

  Touched-state : {m n : Manager D R P} {a : ActivePath} → Touched m a n → n.state ≡ m.state
  Touched-state nothing = refl
  Touched-state (pool d) = refl
  Touched-state (connector p) = refl
  Touched-state (client r) = refl

  -- an event that is accepted, unless the state is poisoned
  accepted :
      {B : Type 0} (m : Manager D R P) (b : Bool) (x : B) (e f : Option PathEvent)
      (q : B × Manager D R P)
      → Tells e m.state
      → Tells f q.1.state
      → Tells (if b then e else f) (if b then (x, m) else q).1.state
  accepted m true x e f q h k = h
  accepted m false x e f q h k = k

  fallback_path :
      (o : Option DerpLinkSnapshot) (peer reason : String)
      → fallback D R P o peer ≡ latest_path (some (failure peer reason o))
  fallback_path (some link) peer reason = refl
  fallback_path none peer reason = refl

  after-Tells :
      (m : Manager D R P) (c : PathCall) (e : Option PathEvent)
      → Tells e m.state
      → Tells (latest m c e) (after m c).state
  unfolding after on_p2p_failed on_p2p_recovered
  after-Tells m (failed peer reason) e h =
      accepted m m.state.poisoned _ e _ _ h (fallback_path _ peer reason, refl, refl)
  after-Tells m (back peer) e h = accepted m m.state.poisoned _ e _ _ h (refl, refl, refl)
  after-Tells m (sending bytes) e h = rw (Touched-state (send-Touched m bytes)) h
  after-Tells m polling e h = rw (Touched-state (poll-Touched m)) h

  -- The path, the last peer and the last reason of a path manager are those of the latest event that it
  -- accepted, whatever calls it got and whatever its transports did since: after a failure the peer and
  -- the reason of that failure, with the DERP node that was active then, or the relay where there was
  -- none; after a recovery the peer, with no reason; and nothing before any.
  pub ReachableManager-Tells :
      {e : Option PathEvent} {m : Manager D R P} → ReachableManager e m → Tells e m.state
  unfolding new_manager
  ReachableManager-Tells (started d r p) = (refl, refl, refl)
  ReachableManager-Tells (called {e} {m} c h) = after-Tells m c e (ReachableManager-Tells h)
  ReachableManager-Tells (elsewhere d r p h) = ReachableManager-Tells h
  ReachableManager-Tells (panicked h) = ReachableManager-Tells h
