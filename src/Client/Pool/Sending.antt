-- ===== src/Client/Pool/Sending.antt =====
-- What sending and polling through the active link of `InMemoryDerpPool` do
-- (client/app_core/crates/relay-client/src/runtime.rs).
use slan.Prelude.{
  ℕ, String, true, false, ◌≡◌, refl, ap, List, [], ◌∷◌, ◌++◌, any, null, some, ◌==◌, eq_iff,
  Bool-cases, inl, inr,
}
use slan.Client.Links.{DerpClient, ManagedLink}
use slan.Client.Pool.{
  Pool, with_link, send_transport_packet_via_active, poll_transport_packet_via_active,
}
use slan.Client.Pool.Nodes.{metas, names}
use slan.Client.Pool.Active.{ReachablePool, ReachablePool-Known}

-- the first link of a node, between those before and after it
pub record First {Client : Type 0} (n : String) (ls : List (ManagedLink Client)) : Type 0 where
  pub before : List (ManagedLink Client)
  pub link : ManagedLink Client
  pub behind : List (ManagedLink Client)
  pub parts : ls ≡ before ++ (link ∷ behind)
  pub its_node : link.meta.node_id ≡ n
  pub none_before : any (names n) (metas before) ≡ false

-- the links with the client of that one replaced
abbrev pub with_client :
    {Client : Type 0} {n : String} {ls : List (ManagedLink Client)}
    → First n ls
    → Client
    → List (ManagedLink Client)
with_client f c = f.before ++ (record f.link { client = c } ∷ f.behind)

cons_first :
    {Client : Type 0} {n : String} {ls : List (ManagedLink Client)} (l : ManagedLink Client)
    → (l.meta.node_id == n) ≡ false
    → First n ls
    → First n (l ∷ ls)
cons_first l other f = record {
  before = l ∷ f.before;
  link = f.link;
  behind = f.behind;
  parts = ap (λ x. l ∷ x) f.parts;
  its_node = f.its_node;
  none_before = rw (other, f.none_before) refl;
}

module _ (D : DerpClient) where
  open D use {Client, send_transport_packet, poll_transport_packet}

  -- a use of the first link of a node, and what it gives
  abbrev Uses : {A : Type 0} → String → (Client → A × Client) → List (ManagedLink Client) → Type 0
  Uses n f ls =
      (x : First n ls) × (with_link D n f ls
        ≡ some ((f x.link.client).0, with_client x (f x.link.client).1))

  with_link-Uses :
      {A : Type 0} (n : String) (f : Client → A × Client) (ls : List (ManagedLink Client))
      → any (names n) (metas ls) ≡ true
      → Uses n f ls
  unfolding with_link cons_first
  with_link-Uses n f [] h = cc
  with_link-Uses n f (l ∷ ls) h = elim (Bool-cases (l.meta.node_id == n)) [
    | inl here ↦ (
      record {
        before = [];
        link = l;
        behind = ls;
        parts = refl;
        its_node = (eq_iff _ n).0 here;
        none_before = refl;
      },
      rw here refl,
    )
    | inr other ↦
        (let (x, e) = with_link-Uses n f ls (rw other at h) in
          (cons_first l other x, rw (other, e) refl))
  ]

  -- A packet that is not empty, sent on a pool that some calls have led to, that has an active node
  -- and whose lock is not poisoned, goes to the first link of that node; its client's answer is the
  -- answer, and no other link changes.
  pub send-First :
      {p : Pool D} (n : String) (bytes : List ℕ)
      → ReachablePool D p
      → p.poisoned ≡ false
      → p.active_node_id ≡ some n
      → null bytes ≡ false
      → (x : First n p.links) × (send_transport_packet_via_active D p bytes ≡ (
        (send_transport_packet x.link.client bytes).0,
        record p { links = with_client x (send_transport_packet x.link.client bytes).1 },
      ))
  unfolding send_transport_packet_via_active
  send-First {p} n bytes r live active some_bytes =
      let (x, e) =
        with_link-Uses n (λ c. send_transport_packet c bytes) p.links
          (ReachablePool-Known D r n active) in
      (x, rw (some_bytes, live, active, e) refl)

  -- On a pool that some calls have led to, that has an active node and whose lock is not poisoned, a
  -- poll asks the first link of that node, and no other.
  pub poll-First :
      {p : Pool D} (n : String)
      → ReachablePool D p
      → p.poisoned ≡ false
      → p.active_node_id ≡ some n
      → (x : First n p.links) × (poll_transport_packet_via_active D p ≡ (
        (poll_transport_packet x.link.client).0,
        record p { links = with_client x (poll_transport_packet x.link.client).1 },
      ))
  unfolding poll_transport_packet_via_active
  poll-First {p} n r live active =
      let (x, e) =
        with_link-Uses n poll_transport_packet p.links (ReachablePool-Known D r n active) in
      (x, rw (live, active, e) refl)
