-- ===== src/Client/Links.antt =====
-- The links of the DERP pool (client/app_core/crates/relay-client/src/derp.rs, and `ManagedLink`
-- and its helpers in runtime.rs). A `DerpClient` is an interface: its methods take and return the
-- state of the client behind its lock.
use slan.Prelude.{
  ℕ, ◌+◌, ◌*◌, ◌/◌, ◌%◌, ◌^◌, ◌-◌, min, String, Bool, true, false, ◌||◌, List, Option, none, some,
  Result, ok, err, ltb, is_some, if◌then◌else◌,
}
use slan.AppCore.Derp.{
  DerpNodeMeta, ProbeSample, DerpLinkState, connecting, ready, suspect, failed, DerpHealth,
  DerpLinkSnapshot, RelayTicket,
}

pub record DerpClient : Type 1 where
  pub Client : Type 0
  pub new : Client
  pub connect_node : Client → DerpNodeMeta → Result String (Unit {0}) × Client
  pub attach_ticket : Client → RelayTicket → Result String (Unit {0}) × Client
  pub send_transport_packet : Client → List ℕ → Result String (Unit {0}) × Client
  pub poll_transport_packet : Client → Result String (Option (List ℕ)) × Client
  pub probe : Client → Result String ProbeSample × Client
  pub snapshot : Client → DerpLinkSnapshot
  pub close : Client → Result String (Unit {0}) × Client

abbrev pub u32_max : ℕ
u32_max = 2 ^ 32 - 1

unfoldable pub saturating_add : ℕ → ℕ → ℕ
saturating_add a b = min (a + b) u32_max

unfoldable pub saturating_mul : ℕ → ℕ → ℕ
saturating_mul a b = min (a * b) u32_max

-- `+` on u32, in a release build
abbrev pub wrapping_add : ℕ → ℕ → ℕ
wrapping_add a b = (a + b) % 2 ^ 32

pub record ManagedLink (Client : Type 0) : Type 0 where
  pub meta : DerpNodeMeta
  pub client : Client
  pub last_probe : Option ProbeSample
  pub timeout_count : ℕ
  pub consecutive_failures : ℕ
  pub last_error : Option String

abbrev pub is_usable : DerpLinkState → Bool
is_usable ready = true
is_usable suspect = true
is_usable _ = false

-- what the last probe adds to the score
abbrev pub probe_cost : Option ProbeSample → ℕ
unfolding saturating_add
probe_cost none = 0
probe_cost (some p) = saturating_add p.rtt_ms (p.packet_loss_ppm / 1000)

abbrev pub probe_timed_out : Option ProbeSample → Bool
probe_timed_out none = false
probe_timed_out (some p) = p.timed_out

abbrev pub probed_health : Option ProbeSample → DerpHealth → DerpHealth
probed_health none h = h
probed_health (some p) h = record h {
  rtt_ms_ewma = p.rtt_ms;
  loss_ppm = p.packet_loss_ppm;
  last_probe_at_ms = p.sampled_at_ms;
}

-- the state that a snapshot shows: an error makes `connecting` a failure, and a timeout makes
-- `ready` suspect
abbrev pub shown_state : DerpLinkState → Bool → Bool → DerpLinkState
shown_state connecting has_error has_timeout = if has_error then failed else connecting
shown_state ready has_error has_timeout = if has_timeout then suspect else ready
shown_state other has_error has_timeout = other

module _ {Client : Type 0} where
  unfoldable pub link_score : ManagedLink Client → ℕ
  unfolding saturating_add saturating_mul
  link_score l =
      wrapping_add
        (wrapping_add (wrapping_add l.meta.priority (probe_cost l.last_probe))
          (saturating_mul l.timeout_count 1000))
        (saturating_mul l.consecutive_failures 100)

  abbrev pub has_timeout : ManagedLink Client → Bool
  has_timeout l = ltb 0 l.timeout_count || probe_timed_out l.last_probe

module _ (D : DerpClient) where
  open D use {
    Client, new, connect_node, attach_ticket, send_transport_packet, poll_transport_packet, probe,
    snapshot, close,
  }

  unfoldable pub build_snapshot : ManagedLink Client → Bool → DerpLinkSnapshot
  build_snapshot l is_active =
      let s = snapshot l.client in
      record {
        meta = l.meta;
        state = shown_state s.state (is_some l.last_error) (has_timeout l);
        health = probed_health l.last_probe (record s.health {
          timeout_count = l.timeout_count;
          consecutive_failures = l.consecutive_failures;
          score = link_score l;
        });
        is_active = is_active;
      }

  abbrev pub attach_finished :
      ManagedLink Client
      → Result String (Unit {0}) × Client
      → Result String (Unit {0}) × ManagedLink Client
  attach_finished l (err e, c) = (err e, record l { client = c })
  attach_finished l (ok _, c) = (ok tt, record l { client = c; last_error = none })

  abbrev pub attach_connected :
      ManagedLink Client
      → RelayTicket
      → Result String (Unit {0}) × Client
      → Result String (Unit {0}) × ManagedLink Client
  attach_connected l ticket (err e, c) = (err e, record l { client = c })
  attach_connected l ticket (ok _, c) = attach_finished l (attach_ticket c ticket)

  unfoldable pub ensure_link_ready :
      ManagedLink Client → RelayTicket → Result String (Unit {0}) × ManagedLink Client
  ensure_link_ready l ticket =
      if is_usable (snapshot l.client).state
      then (ok tt, record l { last_error = none })
      else attach_connected l ticket (connect_node l.client l.meta)

  -- one link of `tick_health_check`
  abbrev pub probed : ManagedLink Client → Result String ProbeSample × Client → ManagedLink Client
  unfolding saturating_add
  probed l (err e, c) = record l {
    client = c;
    timeout_count = saturating_add l.timeout_count 1;
    consecutive_failures = saturating_add l.consecutive_failures 1;
    last_error = some e;
  }
  probed l (ok p, c) = record l {
    client = c;
    timeout_count = if p.timed_out then saturating_add l.timeout_count 1 else l.timeout_count;
    consecutive_failures = if p.timed_out then saturating_add l.consecutive_failures 1 else 0;
    last_probe = some p;
    last_error = none;
  }

  unfoldable pub tick_link : ManagedLink Client → ManagedLink Client
  unfolding saturating_add
  tick_link l = if is_usable (snapshot l.client).state then probed l (probe l.client) else l
