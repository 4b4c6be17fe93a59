-- ===== src/Client/Pool/Nodes.antt =====
-- The nodes of the links of `InMemoryDerpPool`, in the loops of its calls
-- (client/app_core/crates/relay-client/src/runtime.rs).
use slan.Prelude.{
  ℕ, zero, suc, String, Bool, true, false, ◌≡◌, refl, ap, ◌∙◌, List, [], ◌∷◌, map, any, Option,
  none, some, Result, ok, err, ◌||◌, ◌==◌, eq_refl, if_cases, arith,
}
use mathlib.Core.Option.{some-injective}
use slan.AppCore.Derp.{DerpNodeMeta, RelayTicket}
use slan.Client.Links.{DerpClient, ManagedLink, ensure_link_ready, tick_link}
use slan.Client.Pool.{node_at, warm_links, warmed, with_link, ready_link, closed_link, close_links}

abbrev pub metas : {Client : Type 0} → List (ManagedLink Client) → List DerpNodeMeta
metas [] = []
metas (l ∷ ls) = l.meta ∷ metas ls

abbrev pub names : String → DerpNodeMeta → Bool
names n m = m.node_id == n

pub or_right : (b : Bool) {c : Bool} → c ≡ true → (b || c) ≡ true
or_right true h = refl
or_right false h = h

-- the links of a result, if there is one, have these nodes
abbrev pub Keeps :
    {Client A : Type 0} → List DerpNodeMeta → Option (A × List (ManagedLink Client)) → Type 0
Keeps ms none = Unit
Keeps ms (some (a, ls)) = metas ls ≡ ms

-- a result means that a link has this node
abbrev pub Finds :
    {Client A : Type 0}
    → String
    → List (ManagedLink Client)
    → Option (A × List (ManagedLink Client))
    → Type 0
Finds n ls none = any (names n) (metas ls) ≡ false
Finds n ls (some r) = any (names n) (metas ls) ≡ true

Finds-cons :
    {Client A : Type 0} (n : String) (l : ManagedLink Client) (ls : List (ManagedLink Client))
    (o : Option (A × List (ManagedLink Client)))
    → (l.meta.node_id == n) ≡ false
    → Finds n ls o
    → Finds n (l ∷ ls) (elim o [ none ↦ none | some (a, ls') ↦ some (a, l ∷ ls') ])
Finds-cons n l ls none other k = rw (other, k) refl
Finds-cons n l ls (some (a, ls')) other k = or_right (names n l.meta) k

Keeps-cons :
    {Client A : Type 0} (l : ManagedLink Client) (ms : List DerpNodeMeta)
    (o : Option (A × List (ManagedLink Client)))
    → Keeps ms o
    → Keeps (l.meta ∷ ms) (elim o [ none ↦ none | some (a, ls) ↦ some (a, l ∷ ls) ])
Keeps-cons l ms none k = tt
Keeps-cons l ms (some (a, ls)) k = ap (λ x. l.meta ∷ x) k

module _ (D : DerpClient) where
  open D use {Client, snapshot, connect_node, attach_ticket, close}

  pub with_link-Keeps :
      {A : Type 0} (n : String) (f : Client → A × Client) (ls : List (ManagedLink Client))
      → Keeps (metas ls) (with_link D n f ls)
  unfolding with_link
  with_link-Keeps n f [] = tt
  with_link-Keeps n f (l ∷ ls) =
      if_cases (Keeps (metas (l ∷ ls))) (l.meta.node_id == n) _ _ (λ here. refl)
        (λ later. Keeps-cons l (metas ls) (with_link D n f ls) (with_link-Keeps n f ls))

  attached-meta :
      (l : ManagedLink Client) (t : RelayTicket) → (ensure_link_ready D l t).1.meta ≡ l.meta
  unfolding ensure_link_ready
  attached-meta l t = ground arith

  pub ready_link-Keeps :
      (t : RelayTicket) (n : String) (ls : List (ManagedLink Client))
      → Keeps (metas ls) (ready_link D t n ls)
  unfolding ready_link
  ready_link-Keeps t n [] = tt
  ready_link-Keeps t n (l ∷ ls) =
      if_cases (Keeps (metas (l ∷ ls))) (l.meta.node_id == n) _ _
        (λ here. ap (λ m. m ∷ metas ls) (attached-meta l t))
        (λ later. Keeps-cons l (metas ls) (ready_link D t n ls) (ready_link-Keeps t n ls))

  pub with_link-Finds :
      {A : Type 0} (n : String) (f : Client → A × Client) (ls : List (ManagedLink Client))
      → Finds n ls (with_link D n f ls)
  unfolding with_link
  with_link-Finds n f [] = refl
  with_link-Finds n f (l ∷ ls) =
      if_cases (Finds n (l ∷ ls)) (l.meta.node_id == n) _ _ (λ here. rw here refl)
        (λ later. Finds-cons n l ls (with_link D n f ls) later (with_link-Finds n f ls))

  pub ready_link-Finds :
      (t : RelayTicket) (n : String) (ls : List (ManagedLink Client))
      → Finds n ls (ready_link D t n ls)
  unfolding ready_link
  ready_link-Finds t n [] = refl
  ready_link-Finds t n (l ∷ ls) =
      if_cases (Finds n (l ∷ ls)) (l.meta.node_id == n) _ _ (λ here. rw here refl)
        (λ later. Finds-cons n l ls (ready_link D t n ls) later (ready_link-Finds t n ls))

  tick-meta : (l : ManagedLink Client) → (tick_link D l).meta ≡ l.meta
  unfolding tick_link
  tick-meta l = ground arith

  pub tick-metas : (ls : List (ManagedLink Client)) → metas (map (tick_link D) ls) ≡ metas ls
  tick-metas [] = refl
  tick-metas (l ∷ ls) = rw (tick-meta l, tick-metas ls) refl

  warmed-metas :
      (q : Result String (Unit {0}) × ManagedLink Client) (us : List (ManagedLink Client))
      (rest : Result String (Unit {0}) × List (ManagedLink Client))
      → metas rest.1 ≡ metas us
      → metas (warmed D q us rest).1 ≡ q.1.meta ∷ metas us
  warmed-metas (err e, l) us rest h = refl
  warmed-metas (ok u, l) us rest h = ap (λ x. l.meta ∷ x) h

  closed_link-metas :
      (l : ManagedLink Client) (us : List (ManagedLink Client))
      (q : Result String (Unit {0}) × Client)
      (rest : Result String (Unit {0}) × List (ManagedLink Client))
      → metas rest.1 ≡ metas us
      → metas (closed_link D l us q rest).1 ≡ l.meta ∷ metas us
  closed_link-metas l us (err e, c) rest h = refl
  closed_link-metas l us (ok u, c) rest h = ap (λ x. l.meta ∷ x) h

  pub warm_links-metas :
      (t : RelayTicket) (n : ℕ) (ls : List (ManagedLink Client))
      → metas (warm_links D t n ls).1 ≡ metas ls
  unfolding warm_links
  warm_links-metas t n [] = refl
  warm_links-metas t zero (l ∷ ls) = ap (λ x. l.meta ∷ x) (warm_links-metas t zero ls)
  warm_links-metas t (suc n) (l ∷ ls) =
      warmed-metas (ensure_link_ready D l t) ls (warm_links D t n ls) (warm_links-metas t n ls)
      ∙ ap (λ m. m ∷ metas ls) (attached-meta l t)

  pub close_links-metas : (ls : List (ManagedLink Client)) → metas (close_links D ls).1 ≡ metas ls
  unfolding close_links
  close_links-metas [] = refl
  close_links-metas (l ∷ ls) =
      closed_link-metas l ls (close l.client) (close_links D ls) (close_links-metas ls)

  pub node_at-Known :
      (ls : List (ManagedLink Client)) (o : Option ℕ) (n : String)
      → node_at D ls o ≡ some n
      → any (names n) (metas ls) ≡ true
  node_at-Known ls none n h = cc
  node_at-Known [] (some i) n h = cc
  node_at-Known (l ∷ ls) (some zero) n h = rw (some-injective l.meta.node_id n h, eq_refl n) refl
  node_at-Known (l ∷ ls) (some (suc i)) n h =
      or_right (names n l.meta) (node_at-Known ls (some i) n h)
