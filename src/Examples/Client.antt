-- ===== src/Examples/Client.antt =====
-- The theorems about the client, at a pool of two nodes whose clients keep what was sent.
use slan.Prelude.{
  ℕ, ◌≡◌, refl, String, Bool, true, false, List, [], ◌∷◌, Option, none, some, ok, if◌then◌else◌,
  ◌↔◌, trim, is_empty,
}
use slan.AppCore.Derp.{DerpNodeMeta, udp, connecting, ready, DerpLinkSnapshot, RelayTicket}
use slan.AppCore.Connection.{derp}
use slan.Client.Links.{
  DerpClient, ensure_link_ready, build_snapshot, saturating_add, saturating_mul, link_score,
}
use slan.Client.Codes.{
  RelayClientError, as_str, session_conflict, from_wire, into_client_error,
  from_wire-into_client_error,
}
use slan.Client.Pool.{
  maybe_switch, Pool, pick, choose_active_index, empty_pool, collect_snapshots, chosen_node,
  install_cluster, warm_links, warm_up, active_link, send_transport_packet_via_active,
  poll_transport_packet_via_active,
}
use slan.Client.Pool.Settling.{maybe_switch_settles}
use slan.Client.Pool.Active.{install, warm, after, ReachablePool, opened, called}
use slan.Client.Pool.Sending.{First, with_client, send-First, poll-First}
use slan.Client.Path.{
  Transport, Manager, new_manager, on_p2p_failed, send_transport_packet, current_path,
}
use slan.Client.Path.Routing
use slan.Client.Path.Routing.{
  PathCall, failed, sending, PathEvent, failure, latest, ReachableManager, started, Tells,
  ReachableManager-Tells, Touched, send-Touched,
}
use slan.Client.Path.Failover.{pool_calls, failed-send}
use slan.Client.Interop.{Coded, handle_request-Coded}
use slan.Daemon.Protocol.{attach}
use slan.Daemon.Runtime.{handle_request}
use slan.Examples.Base.{crypto, addr_a, wire, fresh}

-- whether it is attached, and what was sent
abbrev Kept : Type 0
Kept = Bool × List (List ℕ)

abbrev no_meta : DerpNodeMeta
no_meta = record {
  cluster_id = "";
  region_id = "";
  country_code = none;
  country_name = none;
  city_code = none;
  city_name = none;
  node_id = "";
  host = "";
  port = 0;
  transport = udp;
  priority = 0;
  tags = [];
}

abbrev seen : Kept → DerpLinkSnapshot
seen k = record {
  meta = no_meta;
  state = if k.0 then ready else connecting;
  health = record {
    rtt_ms_ewma = 0;
    loss_ppm = 0;
    timeout_count = 0;
    consecutive_failures = 0;
    last_probe_at_ms = 0;
    last_recv_at_ms = 0;
    score = 0;
  };
  is_active = false;
}

abbrev keeper : DerpClient
keeper = record {
  Client = Kept;
  new = (false, []);
  connect_node = λ k m. (ok tt, k);
  attach_ticket = λ k t. (ok tt, (true, k.1));
  send_transport_packet = λ k b. (ok tt, (k.0, b ∷ k.1));
  poll_transport_packet = λ k. (ok none, k);
  probe = λ k.
      (ok (record { rtt_ms = 1; timed_out = false; packet_loss_ppm = 0; sampled_at_ms = 0 }), k);
  snapshot = seen;
  close = λ k. (ok tt, (false, k.1));
}

abbrev pub node : String → ℕ → DerpNodeMeta
node n priority = record no_meta { cluster_id = "cluster"; node_id = n; priority = priority }

abbrev pub ticket : RelayTicket
ticket = record {
  ticket_id = "ticket-1";
  network_id = "net-1";
  session_id = "session-1";
  src_node_id = "node-a";
  dst_node_id = "node-b";
  derp_cluster_id = none;
  country_code = none;
  city_code = none;
  allowed_derp_node_ids = [];
  relay_url = "udp://127.0.0.1:9000";
  expires_at = "4102444800";
  session_key = none;
  signature = "sig";
}

abbrev nodes : List DerpNodeMeta
nodes = node "far" 20 ∷ node "near" 10 ∷ []

abbrev installed : Pool keeper
installed = after keeper 5 (empty_pool keeper) (install "cluster" nodes ticket)

abbrev warmed_pool : Pool keeper
warmed_pool = after keeper 6 installed (warm 2)

warmed_pool_reached : ReachablePool keeper warmed_pool
warmed_pool_reached = called 6 (warm 2) (called 5 (install "cluster" nodes ticket) opened)

-- what a test of the client computes with
unfoldable pub client_runs : ℕ
unfolding after empty_pool install_cluster warm_up warm_links ensure_link_ready chosen_node
    collect_snapshots build_snapshot choose_active_index pick saturating_add saturating_mul
    link_score
client_runs = 0

active : warmed_pool.active_node_id ≡ some "near"
unfolding client_runs
active = refl

live : warmed_pool.poisoned ≡ false
unfolding client_runs
live = refl

send-First_example :
    (x : First "near" warmed_pool.links) × (send_transport_packet_via_active keeper warmed_pool
        (7 ∷ [])
      ≡ (
        ok tt,
        record warmed_pool { links = with_client x (x.link.client.0, (7 ∷ []) ∷ x.link.client.1) },
      ))
send-First_example = send-First keeper "near" (7 ∷ []) warmed_pool_reached live active refl

poll-First_example :
    (x : First "near" warmed_pool.links) × (poll_transport_packet_via_active keeper warmed_pool
      ≡ (ok none, record warmed_pool { links = with_client x x.link.client }))
poll-First_example = poll-First keeper "near" warmed_pool_reached live active

-- a relay and a peer-to-peer connection that keep what was sent, too
abbrev kept_in : (E : Type 0) → Transport E
kept_in E = record { State = List (List ℕ); send = λ s b. (ok tt, b ∷ s); poll = λ s. (ok none, s) }

abbrev M : Type 0
M = Manager (pool_calls keeper) (kept_in RelayClientError) (kept_in String)

abbrev manager : M
manager =
    new_manager (pool_calls keeper) (kept_in RelayClientError) (kept_in String) warmed_pool [] []

abbrev failed_over : M
failed_over =
    Routing.after (pool_calls keeper) (kept_in RelayClientError) (kept_in String) manager
      (failed "node-b" "timeout")

-- a failure, while a DERP node was active
abbrev peer_failure : Option PathEvent
peer_failure =
    latest (pool_calls keeper) (kept_in RelayClientError) (kept_in String) manager
      (failed "node-b" "timeout") none

failed_over_reached :
    ReachableManager
      (pool_calls keeper)
      (kept_in RelayClientError)
      (kept_in String)
      peer_failure
      failed_over
failed_over_reached = Routing.called (failed "node-b" "timeout") (started warmed_pool [] [])

failed_over_path : failed_over.state.active_path ≡ derp "cluster" "near"
unfolding client_runs Routing.after on_p2p_failed new_manager active_link
failed_over_path = refl

ReachableManager-Tells_example : Tells peer_failure failed_over.state
ReachableManager-Tells_example =
    ReachableManager-Tells (pool_calls keeper) (kept_in RelayClientError) (kept_in String)
      failed_over_reached

send-Touched_example :
    Touched
      (pool_calls keeper)
      (kept_in RelayClientError)
      (kept_in String)
      failed_over
      failed_over.state.active_path
      (send_transport_packet
        (pool_calls keeper)
        (kept_in RelayClientError)
        (kept_in String)
        failed_over
        (7 ∷ [])).1
send-Touched_example =
    send-Touched (pool_calls keeper) (kept_in RelayClientError) (kept_in String) failed_over
      (7 ∷ [])

manager_live : manager.state.poisoned ≡ false
unfolding new_manager
manager_live = refl

failed-send_example :
    (x : First "near" warmed_pool.links) × (cluster : String) × (current_path
        (pool_calls keeper)
        (kept_in RelayClientError)
        (kept_in String)
        (on_p2p_failed
          (pool_calls keeper)
          (kept_in RelayClientError)
          (kept_in String)
          manager
          "node-b"
          "timeout").1
      ≡ derp cluster "near")
    × ((send_transport_packet
          (pool_calls keeper)
          (kept_in RelayClientError)
          (kept_in String)
          (on_p2p_failed
            (pool_calls keeper)
            (kept_in RelayClientError)
            (kept_in String)
            manager
            "node-b"
            "timeout").1
          (7 ∷ [])).0
        ≡ ok tt)
unfolding new_manager
failed-send_example =
    failed-send keeper (kept_in RelayClientError) (kept_in String) manager "near" "node-b" "timeout"
      (7 ∷ []) warmed_pool_reached manager_live live active refl

-- the space around a code is not read
from_wire-into_client_error_example :
    (((from_wire (some " session_conflict ") "no").code ≡ some session_conflict)
      ↔ (trim " session_conflict " ≡ as_str session_conflict))
    × ((into_client_error (from_wire (some " session_conflict ") "no") "attach").code
        ≡ (if is_empty (trim " session_conflict ") then none else some (trim " session_conflict ")))
from_wire-into_client_error_example =
    from_wire-into_client_error session_conflict " session_conflict " "no" "attach" refl

handle_request-Coded_example :
    Coded (handle_request crypto (some 1000) fresh addr_a (attach "node-c" wire)).0
handle_request-Coded_example =
    handle_request-Coded crypto (some 1000) fresh addr_a (attach "node-c" wire)

maybe_switch_settles_example :
    maybe_switch keeper 8 (maybe_switch keeper 7 warmed_pool).1
    ≡ (ok none, (maybe_switch keeper 7 warmed_pool).1)
maybe_switch_settles_example = maybe_switch_settles keeper 7 8 warmed_pool live
