-- ===== src/Tunnel/Contract/Runs.antt =====
-- Sequences of requests to a manager (client/app_core/crates/tunnel/src/manager.rs)
use slan.Prelude.{String, ◌≡◌, sym, ◌∙◌, ap, List, [], ◌∷◌, Result, ok, err}
use slan.Prelude.Table.{Table}
use slan.Client.Action.{go_on, ◌>>=◌, pure}
use slan.AppCore.Wireguard.{WireGuardPeerConfig}
use slan.Tunnel.Backend.{Call}
use slan.Tunnel.Runtime.{TunnelManager}
use slan.Tunnel.Contract.{Request, answer, change, Outcome, KeepsTable}

-- the requests in order, up to the first that fails
unfoldable pub run : {S : Type 0} → TunnelManager S → List Request → Call S (Unit {0})
run M [] = pure tt
run M (r ∷ rs) = answer M r >>= λ _. run M rs

unfoldable pub changes : {V : Type 0} → (WireGuardPeerConfig → V) → List Request → Table V → Table V
changes planned [] m = m
changes planned (r ∷ rs) m = changes planned rs (change planned r m)

module _ {S : Type 0} {M : TunnelManager S} (K : KeepsTable M) where
  -- the peers that the requests leave
  pub run-changes :
      (rs : List Request) (s t : S)
      → run M rs s ≡ (ok tt, t)
      → K.peers t ≡ changes K.planned rs (K.peers s)
  unfolding run changes pure ◌>>=◌
  run-changes [] s t h = ap K.peers (ap (λ q. q.1) (sym h))
  run-changes (r ∷ rs) s t h =
      first (answer M r s) ((K.answers r).outcome s) h (λ u. run-changes rs u t)
    where
      first :
          (q : Result String (Unit {0}) × S)
          → Outcome K.peers (change K.planned r) s q
          → go_on q (λ _. run M rs) ≡ (ok tt, t)
          → ((u : S) → run M rs u ≡ (ok tt, t) → K.peers t ≡ changes K.planned rs (K.peers u))
          → K.peers t ≡ changes K.planned rs (change K.planned r (K.peers s))
      first (ok a, u) e g rest = rest u g ∙ ap (changes K.planned rs) e
      first (err x, u) e g rest = cc
