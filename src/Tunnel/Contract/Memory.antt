-- ===== src/Tunnel/Contract/Memory.antt =====
-- The peers of the backend in memory (client/app_core/crates/tunnel/src/backend.rs)
use slan.Prelude.{refl}
use slan.Client.Action.Keeps.{Keeps-bind, Keeps-gets, Keeps-fail_if}
use slan.Tunnel.Backend.{InMemoryTunnelBackend, memory_apply_peer, memory_remove_peer}
use slan.Tunnel.Runtime.{in_memory_tunnel_manager}
use slan.Tunnel.Contract
use slan.Tunnel.Contract.{
  Request, Changes, Changes-modify, Changes-after, KeepsTable, change, answer,
}

-- Each request to the manager in memory that goes well makes its change to the peers that the backend
-- keeps, which are as they were configured; one that fails makes it or leaves them as they were.
pub memory_answers :
    (r : Request)
    → Changes
        (λ (s : InMemoryTunnelBackend). s.state)
        (change (λ p. p) r)
        (answer in_memory_tunnel_manager r)
unfolding change memory_apply_peer memory_remove_peer
memory_answers (Contract.establish config) =
    Changes-after _ _ _ _ (λ v. Keeps-bind _ _ _ (Keeps-gets _ _) (λ p. Keeps-fail_if _ _ _))
      (λ u. Changes-modify _ _ _ (λ s. refl))
memory_answers (Contract.close ip) =
    Changes-after _ _ _ _ (λ v. Keeps-bind _ _ _ (Keeps-gets _ _) (λ p. Keeps-fail_if _ _ _))
      (λ u. Changes-modify _ _ _ (λ s. refl))
