-- ===== src/Tunnel/Contract.antt =====
-- What a manager over a backend promises of its peers (client/app_core/crates/tunnel/src/manager.rs):
-- calls of it as changes of a table.
pub mod Runs
pub mod Memory
use slan.Prelude.{
  String, Bool, true, false, ◌≡◌, refl, sym, ◌∙◌, ap, List, [], ◌∷◌, ◌⊎◌, inl, inr, Option, none,
  some, Result, ok, err,
}
use slan.Prelude.Table
use slan.Prelude.Table.{Table}
use slan.Client.Action.{go_on, ◌>>=◌, modify}
use slan.Client.Action.Keeps.{Keeps}
use slan.AppCore.Wireguard.{WireGuardPeerConfig}
use slan.Tunnel.Backend.{TunnelConfig, Call}
use slan.Tunnel.Runtime.{TunnelManager}

pub data Request : Type 0 where
  establish : TunnelConfig → Request
  close : String → Request

-- a request to a manager
abbrev pub answer : {S : Type 0} → TunnelManager S → Request → Call S (Unit {0})
answer M (establish config) = M.establish config
answer M (close ip) = M.close ip

-- what a request asks of a table of peers
unfoldable pub change : {V : Type 0} → (WireGuardPeerConfig → V) → Request → Table V → Table V
change planned (establish config) m =
    Table.insert config.peer_virtual_ip (planned config.wireguard_peer) m
change planned (close ip) m = Table.remove ip m

module _ {S V : Type 0} (peers : S → Table V) where
  -- The change is made if all goes well; if not, it is made or nothing is.
  abbrev pub Outcome : {A : Type 0} → (Table V → Table V) → S → Result String A × S → Type 0
  Outcome f s (ok _, t) = peers t ≡ f (peers s)
  Outcome f s (err _, t) = (peers t ≡ peers s) ⊎ (peers t ≡ f (peers s))

  pub record Changes {A : Type 0} (f : Table V → Table V) (m : Call S A) : Type 0 where
    pub outcome : (s : S) → Outcome f s (m s)

  -- the steps that leave the peers alone
  abbrev pub Leaves : {A : Type 0} → Call S A → Type 0
  Leaves m = (v : Table V) → Keeps (λ s. peers s ≡ v) m

  pub Changes-modify :
      (f : Table V → Table V) (g : S → S)
      → ((s : S) → peers (g s) ≡ f (peers s))
      → Changes f (modify g)
  unfolding modify
  Changes-modify f g h = record { outcome = h }

  go_on_after :
      {A B : Type 0} (f : Table V → Table V) (s : S) (q : Result String A × S) (k : A → Call S B)
      → peers q.1 ≡ peers s
      → ((a : A) → Changes f (k a))
      → Outcome f s (go_on q k)
  go_on_after {A} {B} f s (ok a, t) k e h = same (k a t) ((h a).outcome t)
    where
      same : (q : Result String B × S) → Outcome f t q → Outcome f s q
      same (ok b, u) g = g ∙ ap f e
      same (err x, u) (inl g) = inl (g ∙ e)
      same (err x, u) (inr g) = inr (g ∙ ap f e)
  go_on_after {A} {B} f s (err x, t) k e h = inl e

  pub Changes-after :
      {A B : Type 0} (f : Table V → Table V) (m : Call S A) (k : A → Call S B)
      → Leaves m
      → ((a : A) → Changes f (k a))
      → Changes f (m >>= k)
  unfolding ◌>>=◌
  Changes-after f m k l h = record {
    outcome = λ s. go_on_after f s (m s) k ((l (peers s)).holds s refl) h;
  }

  last :
      {B : Type 0} (f : Table V → Table V) (s t : S) (q : Result String B × S)
      → peers t ≡ f (peers s)
      → peers q.1 ≡ peers t
      → Outcome f s q
  last f s t (ok b, u) e g = g ∙ e
  last f s t (err x, u) e g = inr (g ∙ e)

  go_on_before :
      {A B : Type 0} (f : Table V → Table V) (s : S) (q : Result String A × S) (k : A → Call S B)
      → Outcome f s q
      → ((a : A) → Leaves (k a))
      → Outcome f s (go_on q k)
  go_on_before f s (ok a, t) k e l = last f s t (k a t) e ((l a (peers t)).holds t refl)
  go_on_before f s (err x, t) k e l = e

  pub Changes-before :
      {A B : Type 0} (f : Table V → Table V) (m : Call S A) (k : A → Call S B)
      → Changes f m
      → ((a : A) → Leaves (k a))
      → Changes f (m >>= k)
  unfolding ◌>>=◌
  Changes-before f m k h l = record { outcome = λ s. go_on_before f s (m s) k (h.outcome s) l }

-- A manager keeps a table of peers: each request changes it as it says.
pub record KeepsTable {S : Type 0} (M : TunnelManager S) : Type 1 where
  pub Peer : Type 0
  pub planned : WireGuardPeerConfig → Peer
  pub peers : S → Table Peer
  pub answers : (r : Request) → Changes peers (change planned r) (answer M r)
