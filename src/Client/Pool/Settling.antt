-- ===== src/Client/Pool/Settling.antt =====
-- Repeated switches of `InMemoryDerpPool`
-- (client/app_core/crates/relay-client/src/runtime.rs).
use slan.Prelude.{
  ℕ, suc, String, true, false, ◌≡◌, refl, sym, ap, ◌∙◌, subst, List, [], ◌∷◌, map, Option, none,
  some, Result, ok, err, inl, inr, ◌&&◌, eq_refl, Bool-cases, if_cases, if◌then◌else◌,
}
use slan.AppCore.Derp.{DerpLinkSnapshot, DerpSwitchEvent}
use slan.Client.Links.{DerpClient, ManagedLink, is_usable, build_snapshot}
use slan.Client.Pool.{
  Pool, poison_text, less_key, better, pick, index_of, choose_active_index, is_node,
  collect_snapshots, node_at, chosen_node, switched, switch_to, maybe_switch,
}

-- a snapshot as of a link that is not active
abbrev forget : DerpLinkSnapshot → DerpLinkSnapshot
forget s = record s { is_active = false }

abbrev forget_best : Option (ℕ × DerpLinkSnapshot) → Option (ℕ × DerpLinkSnapshot)
forget_best none = none
forget_best (some (i, s)) = some (i, forget s)

better-forget :
    (best : Option (ℕ × DerpLinkSnapshot)) (i : ℕ) (s : DerpLinkSnapshot)
    → better (forget_best best) i (forget s) ≡ forget_best (better best i s)
better-forget none i s = elim (Bool-cases (is_usable s.state)) [
  | inl up ↦ rw up refl
  | inr down ↦ rw down refl
]
better-forget (some (j, t)) i s = elim (Bool-cases (is_usable s.state && less_key s t)) [
  | inl wins ↦ rw wins refl
  | inr loses ↦ rw loses refl
]

pick-forget :
    (best : Option (ℕ × DerpLinkSnapshot)) (i : ℕ) (ss : List DerpLinkSnapshot)
    → pick (forget_best best) i (map forget ss) ≡ forget_best (pick best i ss)
unfolding pick
pick-forget best i [] = refl
pick-forget best i (s ∷ ss) =
    ap (λ b. pick b (suc i) (map forget ss)) (better-forget best i s)
    ∙ pick-forget (better best i s) (suc i) ss

index_of-forget :
    (best : Option (ℕ × DerpLinkSnapshot)) → index_of (forget_best best) ≡ index_of best
index_of-forget none = refl
index_of-forget (some (i, s)) = refl

choose-forget :
    (ss : List DerpLinkSnapshot) → choose_active_index (map forget ss) ≡ choose_active_index ss
unfolding choose_active_index
choose-forget ss = ap index_of (pick-forget none 0 ss) ∙ index_of-forget (pick none 0 ss)

module _ (D : DerpClient) where
  snapshots-forget :
      (a b : Option String) (ls : List (ManagedLink D.Client))
      → map forget (map (λ l. build_snapshot D l (is_node a l.meta.node_id)) ls)
        ≡ map forget (map (λ l. build_snapshot D l (is_node b l.meta.node_id)) ls)
  unfolding build_snapshot
  snapshots-forget a b [] = refl
  snapshots-forget a b (l ∷ ls) =
      ap (λ x. forget (build_snapshot D l false) ∷ x) (snapshots-forget a b ls)

  -- The choice does not depend on which node is active.
  chosen_node-switched :
      (p : Pool D) (t : String) → chosen_node D (switched D p t) ≡ chosen_node D p
  unfolding chosen_node collect_snapshots
  chosen_node-switched p t = ap (node_at D p.links) (
      sym (choose-forget _)
      ∙ ap choose_active_index (snapshots-forget (some t) p.active_node_id p.links)
      ∙ choose-forget _)

  switch_live :
      (now : ℕ) (p : Pool D)
      → p.poisoned ≡ false
      → maybe_switch D now p ≡ switch_to D now p (chosen_node D p)
  unfolding maybe_switch
  switch_live now p live =
      ap (λ b. if b then (err poison_text, p) else switch_to D now p (chosen_node D p)) live

  stay :
      (now : ℕ) (p : Pool D) (t : String)
      → is_node p.active_node_id t ≡ true
      → switch_to D now p (some t) ≡ (ok none, p)
  stay now p t same = rw same refl

  abbrev Settled : ℕ → Result String (Option DerpSwitchEvent) × Pool D → Type 0
  Settled later q = maybe_switch D later q.1 ≡ (ok none, q.1)

  switch_to-Settled :
      (now later : ℕ) (p : Pool D) (o : Option String)
      → p.poisoned ≡ false
      → chosen_node D p ≡ o
      → Settled later (switch_to D now p o)
  switch_to-Settled now later p none live chosen =
      switch_live later p live ∙ ap (switch_to D later p) chosen
  switch_to-Settled now later p (some t) live chosen =
      if_cases (Settled later) (is_node p.active_node_id t) _ _
        (λ same. switch_live later p live ∙ ap (switch_to D later p) chosen ∙ stay later p t same)
        (λ other.
          switch_live later (switched D p t) live
          ∙ ap (switch_to D later (switched D p t)) (chosen_node-switched p t ∙ chosen)
          ∙ stay later (switched D p t) t (eq_refl t))

  -- A switch settles a pool whose lock is not poisoned: another switch, at whatever time and with
  -- nothing in between, changes nothing and reports no event.
  pub maybe_switch_settles :
      (now later : ℕ) (p : Pool D)
      → p.poisoned ≡ false
      → maybe_switch D later (maybe_switch D now p).1 ≡ (ok none, (maybe_switch D now p).1)
  maybe_switch_settles now later p live =
      subst (Settled later) (sym (switch_live now p live))
        (switch_to-Settled now later p (chosen_node D p) live refl)
