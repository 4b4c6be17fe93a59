-- ===== src/Client/Pool/Choice.antt =====
-- Which link the pool chooses (`choose_active_index`,
-- client/app_core/crates/relay-client/src/runtime.rs), against the links it could choose.
use slan.Prelude.{ℕ, ◌<◌, true, false, ◌≡◌, List, length, get_elem?, Option, none, some}
use slan.AppCore.Derp.{DerpLinkSnapshot}
use slan.Client.Links.{is_usable}
use slan.Client.Pool.{less_key}

-- `s` is no worse than each usable link, and better than each that stands before it.
pub record Leads (ss : List DerpLinkSnapshot) (n k : ℕ) (s : DerpLinkSnapshot) : Type 0 where
  pub in_range : k < n
  pub there : get_elem? ss k ≡ some s
  pub usable : is_usable s.state ≡ true
  pub least :
      (j : ℕ) (t : DerpLinkSnapshot)
      → j < n
      → get_elem? ss j ≡ some t
      → is_usable t.state ≡ true
      → less_key t s ≡ false
  pub first :
      (j : ℕ) (t : DerpLinkSnapshot)
      → j < k
      → get_elem? ss j ≡ some t
      → is_usable t.state ≡ true
      → less_key s t ≡ true

abbrev NoneUsable : List DerpLinkSnapshot → ℕ → Type 0
NoneUsable ss n =
    (j : ℕ) (t : DerpLinkSnapshot) → j < n → get_elem? ss j ≡ some t → is_usable t.state ≡ false

-- what is known of the best of the first `n` links
abbrev BestOf : List DerpLinkSnapshot → ℕ → Option (ℕ × DerpLinkSnapshot) → Type 0
BestOf ss n none = NoneUsable ss n
BestOf ss n (some (k, s)) = Leads ss n k s

-- what a choice among all the links says
abbrev pub IsChoice : List DerpLinkSnapshot → Option ℕ → Type 0
IsChoice ss none = NoneUsable ss (length ss)
IsChoice ss (some k) = (s : DerpLinkSnapshot) × Leads ss (length ss) k s
