-- ===== src/Facade/Keys/Reuse.antt =====
-- Keys that are stored (client/app_core/crates/ffi-bridge/src/key_provider.rs)
use slan.Prelude.{
  ℕ, String, true, ◌≡◌, refl, sym, ap, subst, ◌∙◌, List, [], ◌∷◌, ◌++◌, Option, none, some, Result,
  ok, err, inl, inr, eq_iff, Bool-cases, Option-cases, Result-cases, map_err, concat, ◌&&◌,
}
use slan.Client.Action.{go_on, ◌>>=◌, pure, lift}
use slan.AppCore.Wireguard.{TunnelKeyMaterial}
use slan.Facade.Keys.{
  KeyFile, Method, generate_key, is_for, find_key, load_store, save_store, generate, parse_store,
  make_parent, labelled, about_path,
}

is_for_itself : (a : Option String) → is_for a a ≡ true
is_for_itself none = refl
is_for_itself (some a) = (eq_iff a a).1 refl

-- a key that is added is found, where there was none before
find_key-added :
    (d : String) (n : Option String) (p : String) (t : ℕ) (ms : List TunnelKeyMaterial)
    → find_key d n ms ≡ none
    → find_key d n (ms ++ generate_key d n p t ∷ []) ≡ some (generate_key d n p t)
unfolding find_key generate_key
find_key-added d n p t [] h = rw ((eq_iff d d).1 refl, is_for_itself n) refl
find_key-added d n p t (m ∷ ms) h =
    elim (Bool-cases (is_for m.device_id (some d) && is_for m.node_id n)) [
      | inl found ↦ cc (rw found at h)
      | inr other ↦ rw other (find_key-added d n p t ms (rw other at h))
    ]

-- a key that is found is found before what is added
find_key-kept :
    (d : String) (n : Option String) (m : TunnelKeyMaterial) (ms xs : List TunnelKeyMaterial)
    → find_key d n ms ≡ some m
    → find_key d n (ms ++ xs) ≡ some m
unfolding find_key
find_key-kept d n m [] xs h = cc
find_key-kept d n m (k ∷ ms) xs h =
    elim (Bool-cases (is_for k.device_id (some d) && is_for k.node_id n)) [
      | inl found ↦ rw found (rw found at h)
      | inr other ↦ rw other (find_key-kept d n m ms xs (rw other at h))
    ]

-- What is written is read back, and what is serialized is parsed to the same.
pub record IsFaithful (F : KeyFile) : Type 0 where
  pub parses :
      (ms : List TunnelKeyMaterial) (bs : F.Content)
      → F.to_vec_pretty ms ≡ ok bs
      → F.from_slice bs ≡ ok ms
  pub reads : (bs : F.Content) (s t : F.World) → F.write bs s ≡ (ok tt, t) → F.read t ≡ ok bs

module _ (F : KeyFile) (faithful : IsFaithful F) where
  -- a store that holds these keys
  abbrev Stored : List TunnelKeyMaterial → F.World → Type 0
  Stored ms s = load_store F s ≡ (ok ms, s)

  -- a labelled step that goes well
  unlabelled :
      (text : String) (m : Method F (Unit {0})) (s t : F.World)
      → labelled F text m s ≡ (ok tt, t)
      → m s ≡ (ok tt, t)
  unlabelled text m s t h = by_result (m s) h
    where
      by_result :
          (q : Result String (Unit {0}) × F.World)
          → ◌≡◌ {A = Result String (Unit {0}) × F.World}
              (map_err (λ e. concat (text ∷ e ∷ [])) q.0, q.1)
              (ok tt, t)
          → q ≡ (ok tt, t)
      by_result (ok a, u) g = cc
      by_result (err x, u) g = cc

  written-Stored :
      (ms : List TunnelKeyMaterial) (bs : F.Content) (s t : F.World)
      → F.to_vec_pretty ms ≡ ok bs
      → F.write bs s ≡ (ok tt, t)
      → Stored ms t
  unfolding load_store
  written-Stored ms bs s t e h =
      ap (λ r. (parse_store F r, t)) (faithful.reads bs s t h)
      ∙ ap (λ r. (map_err (λ e. concat (about_path F "parse tunnel key store " ∷ e ∷ [])) r, t))
          (faithful.parses ms bs e)

  save_store-Stored :
      (ms : List TunnelKeyMaterial) (s t : F.World) → save_store F ms s ≡ (ok tt, t) → Stored ms t
  unfolding save_store ◌>>=◌ lift
  save_store-Stored ms s t h = by_parent (make_parent F F.parent s) h
    where
      by_parent :
          (q : Result String (Unit {0}) × F.World)
          → go_on q (λ _.
            lift (
              map_err
                (λ e. concat (about_path F "serialize tunnel key store " ∷ e ∷ []))
                (F.to_vec_pretty ms))
            >>= λ payload. labelled F (about_path F "write tunnel key store ") (F.write payload))
            ≡ (ok tt, t)
          → Stored ms t
      by_parent (ok a, u) g = elim (Result-cases (F.to_vec_pretty ms)) [
        | inl (bs, e) ↦ written-Stored ms bs u t e (unlabelled _ (F.write bs) u t (rw e at g))
        | inr (x, e) ↦ cc (rw e at g)
      ]
      by_parent (err x, u) g = cc

  -- a key that is stored is the answer, and nothing is written
  reused :
      (ms : List TunnelKeyMaterial) (d : String) (n : Option String) (p : String) (t : ℕ)
      (m : TunnelKeyMaterial) (s : F.World)
      → Stored ms s
      → find_key d n ms ≡ some m
      → generate F d n p t s ≡ (ok m, s)
  unfolding generate ◌>>=◌ pure
  reused ms d n p t m s stored found = rw (stored, found) refl

  -- what later requests lead to, for any devices, nodes, peers and times
  pub data Requests : F.World → F.World → Type 0 where
    done : {s : F.World} → Requests s s
    more :
        {s t u : F.World} (d : String) (n : Option String) (p : String) (at : ℕ)
        (m : TunnelKeyMaterial)
        → generate F d n p at s ≡ (ok m, t)
        → Requests t u
        → Requests s u

  -- the store has keys, and this is the one for the device and its node
  Holds : String → Option String → TunnelKeyMaterial → F.World → Type 0
  Holds d n m s = (ms : List TunnelKeyMaterial) × Stored ms s × find_key d n ms ≡ some m

  -- what is generated from these keys
  Holds-added :
      (d : String) (n : Option String) (k m : TunnelKeyMaterial) (ms : List TunnelKeyMaterial)
      (u : F.World) (r : Result String (Unit {0}) × F.World)
      → ((w : F.World) → r ≡ (ok tt, w) → Stored (ms ++ k ∷ []) w)
      → find_key d n (ms ++ k ∷ []) ≡ some m
      → (a : TunnelKeyMaterial) → go_on r (λ _. pure k) ≡ (ok a, u)
      → Holds d n m u × a ≡ k
  unfolding pure Holds
  Holds-added d n k m ms u (ok _, w) stored found a g =
      let world : w ≡ u = ap (λ (q : Result String TunnelKeyMaterial × F.World). q.1) g in
      (
        (
          ms ++ k ∷ [],
          subst (λ (x : F.World). Stored (ms ++ k ∷ []) x) world (stored w refl),
          found,
        ),
        cc,
      )
  Holds-added d n k m ms u (err x, w) stored found a g = cc

  stored_world :
      {m k : TunnelKeyMaterial} (d : String) (n : Option String) (s u : F.World)
      → ◌≡◌ {A = Result String TunnelKeyMaterial × F.World} (ok k, s) (ok m, u)
      → Holds d n k s
      → Holds d n m u
  stored_world {m} {k} d n s u same h =
      let world : s ≡ u = ap (λ (q : Result String TunnelKeyMaterial × F.World). q.1) same in
      let key : k ≡ m = cc in
      subst (λ (x : F.World). Holds d n m x) world
        (subst (λ (x : TunnelKeyMaterial). Holds d n x s) key h)

  -- a request leaves its key in the store
  generate-Holds :
      (d : String) (n : Option String) (p : String) (t : ℕ) (m : TunnelKeyMaterial) (s u : F.World)
      → generate F d n p t s ≡ (ok m, u)
      → Holds d n m u
  unfolding generate load_store ◌>>=◌ Holds
  generate-Holds d n p t m s u h = elim (Result-cases (parse_store F (F.read s))) [
    | inr (x, e) ↦ cc (rw e at h)
    | inl (ms, e) ↦ elim (Option-cases (find_key d n ms)) [
      | inr (k, found) ↦
          (let stored = ap (λ r. (r, s)) e in
            stored_world d n s u (sym (reused ms d n p t k s stored found) ∙ h) (ms, stored, found))
      | inl absent ↦
          (let (held, same) =
              Holds-added d n (generate_key d n p t) (generate_key d n p t) ms u
                (save_store F (ms ++ generate_key d n p t ∷ []) s)
                (save_store-Stored (ms ++ generate_key d n p t ∷ []) s)
                (find_key-added d n p t ms absent) m (rw absent at rw e at h) in
            subst (λ (x : TunnelKeyMaterial). Holds d n x u) (sym same) held)
    ]
  ]

  -- a request for any device leaves another's key
  Holds-generate :
      (d : String) (n : Option String) (m : TunnelKeyMaterial) (d' : String) (n' : Option String)
      (p : String) (t : ℕ) (a : TunnelKeyMaterial) (s u : F.World)
      → Holds d n m s
      → generate F d' n' p t s ≡ (ok a, u)
      → Holds d n m u
  unfolding generate load_store ◌>>=◌ Holds
  Holds-generate d n m d' n' p t a s u (ms, stored, found) h =
      let e : parse_store F (F.read s) ≡ ok ms =
        ap (λ (q : Result String (List TunnelKeyMaterial) × F.World). q.0) stored in
      elim (Option-cases (find_key d' n' ms)) [
        | inr (k, there) ↦
            (let world : s ≡ u =
                ap (λ (q : Result String TunnelKeyMaterial × F.World). q.1)
                  (sym (reused ms d' n' p t k s stored there) ∙ h) in
              subst (λ (x : F.World). Holds d n m x) world (ms, stored, found))
        | inl absent ↦
            (Holds-added d n (generate_key d' n' p t) m ms u
              (save_store F (ms ++ generate_key d' n' p t ∷ []) s)
              (save_store-Stored (ms ++ generate_key d' n' p t ∷ []) s)
              (find_key-kept d n m ms (generate_key d' n' p t ∷ []) found) a
              (rw absent at rw e at h)).0
      ]

  Holds-Requests :
      (d : String) (n : Option String) (m : TunnelKeyMaterial) {s u : F.World}
      → Requests s u
      → Holds d n m s
      → Holds d n m u
  Holds-Requests d n m done h = h
  Holds-Requests d n m (more {s} {t} d' n' p at a made rest) h =
      Holds-Requests d n m rest (Holds-generate d n m d' n' p at a s t h made)

  -- Where the file gives back what is written to it, a key that has been generated for a device and its
  -- node is the answer to every later request for these, whichever the peer and the time, and whatever
  -- requests for other devices and nodes were answered in between; the file is not written again for it.
  pub generate-reuse :
      (d : String) (n : Option String) (p q : String) (t v : ℕ) (m : TunnelKeyMaterial)
      (s u w : F.World)
      → generate F d n p t s ≡ (ok m, u)
      → Requests u w
      → generate F d n q v w ≡ (ok m, w)
  unfolding Holds
  generate-reuse d n p q t v m s u w h later =
      let (ms, stored, found) = Holds-Requests d n m later (generate-Holds d n p t m s u h) in
      reused ms d n q v m w stored found
