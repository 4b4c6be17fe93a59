-- ===== src/Facade/Keys.antt =====
-- client/app_core/crates/ffi-bridge/src/key_provider.rs: the keys of tunnels. The file of the store with
-- its JSON is the parameter `KeyFile`.
pub mod Reuse
use slan.Prelude.{
  ℕ, String, Bool, true, false, ◌&&◌, List, [], ◌∷◌, ◌++◌, Option, none, some, Result, ok, err,
  concat, map_err, unwrap_or, ◌==◌, if◌then◌else◌,
}
use slan.Client.Action.{Action, go_on, ◌>>=◌, ◌>>◌, pure, fail, lift}
use slan.Client.System.{decimal}
use slan.AppCore.Wireguard.{TunnelKeyMaterial}

pub data ReadFailure : Type 0 where
  not_found : ReadFailure
  other : String → ReadFailure

pub record KeyFile : Type 1 where
  pub World : Type 0
  -- the bytes of a file
  pub Content : Type 0
  -- the path as it is displayed, and its parent
  pub path : String
  pub parent : Option String
  pub read : World → Result ReadFailure Content
  pub create_dir_all : String → Action World String (Unit {0})
  pub write : Content → Action World String (Unit {0})
  pub from_slice : Content → Result String (List TunnelKeyMaterial)
  pub to_vec_pretty : List TunnelKeyMaterial → Result String Content

abbrev pub key_text : String → String → String → ℕ → String
key_text kind device_id suffix created_at_ms =
    concat (kind ∷ device_id ∷ "-" ∷ suffix ∷ "-" ∷ decimal created_at_ms ∷ [])

-- `InMemoryTunnelKeyProvider::generate`, which cannot fail
unfoldable pub generate_key : String → Option String → String → ℕ → TunnelKeyMaterial
generate_key device_id node_id peer_node_id created_at_ms =
    let suffix = unwrap_or node_id peer_node_id in
    record {
      device_id = some device_id;
      node_id = node_id;
      key_pair = record {
        public_key = key_text "wg-pub-" device_id suffix created_at_ms;
        private_key = key_text "wg-priv-" device_id suffix created_at_ms;
      };
      created_at_ms = created_at_ms;
    }

abbrev pub is_for : Option String → Option String → Bool
is_for none none = true
is_for none (some b) = false
is_for (some a) none = false
is_for (some a) (some b) = a == b

-- the first key for a device and its node
unfoldable pub find_key : String → Option String → List TunnelKeyMaterial → Option TunnelKeyMaterial
find_key device_id node_id [] = none
find_key device_id node_id (m ∷ ms) =
    let rest = find_key device_id node_id ms in
    if is_for m.device_id (some device_id) && is_for m.node_id node_id then some m else rest

module _ (F : KeyFile) where
  abbrev pub Method : Type 0 → Type 0
  Method A = Action F.World String A

  abbrev pub labelled : {A : Type 0} → String → Method A → Method A
  labelled text m s = let (r, s') = m s in (map_err (λ e. concat (text ∷ e ∷ [])) r, s')

  abbrev pub about_path : String → String
  about_path what = concat (what ∷ F.path ∷ ": " ∷ [])

  abbrev pub parse_store : Result ReadFailure F.Content → Result String (List TunnelKeyMaterial)
  parse_store (ok bs) =
      map_err (λ e. concat (about_path "parse tunnel key store " ∷ e ∷ [])) (F.from_slice bs)
  parse_store (err not_found) = ok []
  parse_store (err (other e)) = err (concat (about_path "read tunnel key store " ∷ e ∷ []))

  unfoldable pub load_store : Method (List TunnelKeyMaterial)
  load_store s = (parse_store (F.read s), s)

  abbrev pub make_parent : Option String → Method (Unit {0})
  make_parent none = pure tt
  make_parent (some dir) =
      labelled (concat ("create tunnel key store dir " ∷ dir ∷ ": " ∷ [])) (F.create_dir_all dir)

  unfoldable pub save_store : List TunnelKeyMaterial → Method (Unit {0})
  save_store store = do
    make_parent F.parent
    payload ← lift (
        map_err (λ e. concat (about_path "serialize tunnel key store " ∷ e ∷ []))
          (F.to_vec_pretty store))
    labelled (about_path "write tunnel key store ") (F.write payload)

  abbrev pub reuse_or_store :
      List TunnelKeyMaterial
      → TunnelKeyMaterial
      → Option TunnelKeyMaterial
      → Method TunnelKeyMaterial
  reuse_or_store entries made (some existing) = pure existing
  reuse_or_store entries made none = save_store (entries ++ made ∷ []) >>= λ _. pure made

  -- `FileTunnelKeyProvider::generate`
  unfoldable pub generate : String → Option String → String → ℕ → Method TunnelKeyMaterial
  generate device_id node_id peer_node_id created_at_ms = load_store >>= λ entries.
      reuse_or_store entries (generate_key device_id node_id peer_node_id created_at_ms)
        (find_key device_id node_id entries)
