-- ===== src/Facade/Tunnels/Replacing.antt =====
-- `replace_tunnel` over a manager that keeps a table
-- (client/app_core/crates/ffi-bridge/src/state_helpers.rs)
use slan.Prelude.{
  String, true, false, ◌≡◌, ◌≢◌, ◌⊎◌, inl, inr, refl, sym, ap, ◌∙◌, Option, none, some, Result, ok,
  err, ◌==◌, eq_iff, Bool-cases, if◌then◌else◌,
}
use slan.Prelude.Table
use slan.Prelude.Table.{Table, get-remove, get-insert, get-insert_self}
use slan.Client.Action.Keeps.{Keeps-pure}
use slan.Client.Action.Yields.{
  Yields, Yields-keeps, Yields-bind, Yields-modify, Yields-gate, Yields-gets, Yields-within,
}
use slan.Tunnel.Backend.{TunnelConfig}
use slan.Tunnel.Runtime.{TunnelManager}
use slan.Tunnel.Contract
use slan.Tunnel.Contract.{KeepsTable, Outcome, change}
use slan.Facade.Tunnels.{
  TunnelCell, on_manager, same_ip, ip_of, close_other, establish_next, replace_tunnel,
}

module _ {S : Type 0} {M : TunnelManager S} (K : KeepsTable M) where
  abbrev pub Cell : Type 0
  Cell = TunnelCell S

  abbrev pub table : Cell → Table K.Peer
  table s = K.peers s.manager

  -- the manager has no peer but the current one
  pub record OnlyCurrent (s : Cell) : Type 0 where
    pub others : (j : String) → (s.current ≡ some j) ⊎ (Table.get j (table s) ≡ none)

  -- ... and the current one, where there is one, is the next
  abbrev Ready : Option String → Cell → Type 0
  Ready next s = OnlyCurrent s × ((s.current ≡ none) ⊎ (s.current ≡ next))

  -- a request that goes well changes the table as it says, and nothing else of the cell
  unfoldable pub Changed : Contract.Request → Cell → Cell → Type 0
  Changed r s t = (table t ≡ change K.planned r (table s)) × (t.current ≡ s.current)

  pub request-Yields :
      (r : Contract.Request) (s t : Cell) (a : Unit {0})
      → on_manager M (Contract.answer M r) s ≡ (ok a, t)
      → Changed r s t
  unfolding on_manager Changed
  request-Yields r s t a h =
      by_answer (Contract.answer M r s.manager) ((K.answers r).outcome s.manager) h
    where
      by_answer :
          (q : Result String (Unit {0}) × S)
          → Outcome K.peers (change K.planned r) s.manager q
          → ◌≡◌ {A = Result String (Unit {0}) × Cell} (q.0, record s { manager = q.1 }) (ok a, t)
          → (K.peers t.manager ≡ change K.planned r (K.peers s.manager)) × (t.current ≡ s.current)
      by_answer (ok b, m) e g =
          let same : record s { manager = m } ≡ t = ap (λ q. q.1) g in
          (
            sym (ap (λ (u : Cell). K.peers u.manager) same) ∙ e,
            sym (ap (λ (u : Cell). u.current) same),
          )
      by_answer (err x, m) e g = cc

  -- no peer at all
  abbrev Bare : Cell → Type 0
  Bare s = (j : String) → Table.get j (table s) ≡ none

  bare : (s : Cell) → OnlyCurrent s → s.current ≡ none → Bare s
  bare s only e j = no_current (only.others j)
    where
      no_current :
          (s.current ≡ some j) ⊎ (Table.get j (table s) ≡ none) → Table.get j (table s) ≡ none
      no_current (inl is_current) = cc
      no_current (inr absent) = absent

  close-Bare :
      (ip : String)
      → Yields (λ s. OnlyCurrent s × s.current ≡ some ip) (on_manager M (M.close ip)) Bare
  unfolding Changed change
  close-Bare ip = record {
    reached = λ s t a (only, is_ip) h j.
        let (changed, kept) = request-Yields (Contract.close ip) s t a h in
        ap (Table.get j) changed ∙ get-remove ip j (table s) ∙ gone s j is_ip (only.others j);
  }
    where
      gone :
          (s : Cell) (j : String)
          → s.current ≡ some ip
          → (s.current ≡ some j) ⊎ (Table.get j (table s) ≡ none)
          → (if ip == j then none else Table.get j (table s)) ≡ none
      gone s j is_ip (inl is_current) = let same : ip ≡ j = cc in rw ((eq_iff ip j).1 same) refl
      gone s j is_ip (inr absent) = elim (Bool-cases (ip == j)) [
        | inl same ↦ rw same refl
        | inr other ↦ rw other absent
      ]

  -- equal addresses, or none on either side
  same_ip_sound : (a b : Option String) → same_ip a b ≡ true → a ≡ b
  same_ip_sound none none h = refl
  same_ip_sound none (some b) h = cc
  same_ip_sound (some a) none h = cc
  same_ip_sound (some a) (some b) h = ap some ((eq_iff a b).0 h)

  same_ip_refl : (a : Option String) → same_ip a a ≡ true
  same_ip_refl none = refl
  same_ip_refl (some a) = (eq_iff a a).1 refl

  close_other-Ready :
      (next old : Option String)
      → Yields (λ s. OnlyCurrent s × s.current ≡ old) (close_other M next old) (Ready next)
  unfolding close_other
  close_other-Ready next none =
      Yields-within _ _ (λ s h. h)
        (Yields-keeps (λ s. OnlyCurrent s × s.current ≡ none) _ (Keeps-pure _ tt))
        (λ s (only, e). (only, inl e))
  close_other-Ready next (some ip) = elim (Bool-cases (same_ip (some ip) next)) [
    | inl same ↦ rw same (
        Yields-within _ _ (λ s h. h)
          (Yields-keeps (λ s. OnlyCurrent s × s.current ≡ some ip) _ (Keeps-pure _ tt))
          (λ s (only, e). (only, inr (e ∙ same_ip_sound (some ip) next same))))
    | inr other ↦ rw other (
        Yields-bind _ Bare _ _ _ (close-Bare ip) (λ u.
          Yields-modify Bare _ _ (λ s empty. (record { others = λ j. inr (empty j) }, inl refl))))
  ]

  -- the next tunnel is the current one, and the manager has no other peer
  abbrev pub Replaced : Option String → Cell → Type 0
  Replaced next s = OnlyCurrent s × s.current ≡ next

  settled : (next : Option String) (s : Cell) → Ready next s → s.current ≢ next → s.current ≡ none
  settled next s (only, inl e) h = e
  settled next s (only, inr e) h = absurd (h e)

  -- a table of one peer
  abbrev One : String → Cell → Type 0
  One ip s = (j : String) → (ip ≡ j) ⊎ (Table.get j (table s) ≡ none)

  establish-One :
      (c : TunnelConfig) → Yields Bare (on_manager M (M.establish c)) (One c.peer_virtual_ip)
  unfolding Changed change
  establish-One c = record {
    reached = λ s t a empty h j.
        let (changed, kept) = request-Yields (Contract.establish c) s t a h in
        elim (Bool-cases (c.peer_virtual_ip == j)) [
          | inl same ↦ inl ((eq_iff c.peer_virtual_ip j).0 same)
          | inr other ↦ inr (
              ap (Table.get j) changed
              ∙ get-insert c.peer_virtual_ip j (K.planned c.wireguard_peer) (table s)
              ∙ rw other (empty j))
        ];
  }

  establish_next-Replaced :
      (config : Option TunnelConfig) (current : Option String)
      → Yields
          (λ s. Ready (ip_of config) s × s.current ≡ current)
          (establish_next M config current)
          (Replaced (ip_of config))
  unfolding establish_next
  establish_next-Replaced none current =
      Yields-within _ _ (λ s h. h)
        (Yields-keeps (λ s. Ready none s × s.current ≡ current) _ (Keeps-pure _ tt))
        (λ s ((only, which), e). (only, elim which [ inl e ↦ e | inr e ↦ e ]))
  establish_next-Replaced (some c) current =
      elim (Bool-cases (same_ip current (some c.peer_virtual_ip))) [
        | inl same ↦ rw same (
            Yields-within _ _ (λ s h. h)
              (Yields-keeps (λ s. Ready (some c.peer_virtual_ip) s × s.current ≡ current) _
                (Keeps-pure _ tt))
              (λ s ((only, which), e). (only, e ∙ same_ip_sound current _ same)))
        | inr other ↦ rw other (
            Yields-bind _ (One c.peer_virtual_ip) _ _ _
              (Yields-within _ _
                (λ s (ready, e).
                  bare s ready.0
                    (settled (some c.peer_virtual_ip) s ready (λ g. differs other (sym e ∙ g))))
                (establish-One c) (λ s h. h))
              (λ u. Yields-modify (One c.peer_virtual_ip) _ _ (λ s one. (
                record {
                  others =
                      λ j. elim (one j) [ inl same ↦ inl (ap some same) | inr absent ↦ inr absent ];
                },
                refl,
              ))))
      ]
    where
      differs : same_ip current (some c.peer_virtual_ip) ≡ false → current ≢ some c.peer_virtual_ip
      differs h e =
          let yes : same_ip current (some c.peer_virtual_ip) ≡ true =
            ap (λ x. same_ip x (some c.peer_virtual_ip)) e
            ∙ same_ip_refl (some c.peer_virtual_ip) in
          cc

  -- Where the manager keeps a table, and has no peer but the current one, a replacement that goes well
  -- leaves the next tunnel the current one, and the manager with no other peer.
  pub replace_tunnel-Replaced :
      (config : Option TunnelConfig) (s t : Cell)
      → OnlyCurrent s
      → replace_tunnel M config s ≡ (ok tt, t)
      → Replaced (ip_of config) t
  unfolding replace_tunnel
  replace_tunnel-Replaced config s t only h = (all config).reached s t tt only h
    where
      all :
          (config : Option TunnelConfig)
          → Yields OnlyCurrent (replace_tunnel M config) (Replaced (ip_of config))
      all config =
          Yields-bind _ OnlyCurrent _ _ _
            (Yields-within _ _ (λ s h. h) (Yields-gate OnlyCurrent _ _) (λ s h. h.0))
            (λ u.
              Yields-gets OnlyCurrent _ (λ s. s.current) _
                (λ old.
                  Yields-bind _ (Ready (ip_of config)) _ _ _ (close_other-Ready (ip_of config) old)
                    (λ v.
                      Yields-gets (Ready (ip_of config)) _ (λ s. s.current) _
                        (λ current. establish_next-Replaced config current))))
