-- ===== src/SessionStore.antt =====
-- server/server-relay/crates/session: the table of sessions behind its lock. `poisoned` says that a
-- thread has panicked while it held the lock, after which the lock refuses.
use slan.Prelude.{
  ℕ, String, Bool, true, false, ◌≡◌, Option, none, some, Result, ok, err, arith, length, if_cases,
  is_some, refl, if◌then◌else◌, eqb,
}
use slan.Prelude.Table
use slan.Prelude.Table.{Table}
use slan.RelayCore.Error.{RelayError, store, session_already_exists, session_not_found}
use slan.RelayCore.Session.{RelaySession}

pub record InMemorySessionStore : Type 0 where
  pub sessions : Table RelaySession
  pub poisoned : Bool

abbrev pub poison_message : String
poison_message = "poisoned lock: another task failed inside"

unfoldable pub new : InMemorySessionStore
new = record { sessions = Table.empty; poisoned = false }

-- `none` is the panic of `expect`.
unfoldable pub len : InMemorySessionStore → Option ℕ
len s = if s.poisoned then none else some (length s.sessions)

unfoldable pub is_empty : InMemorySessionStore → Option Bool
unfolding len
is_empty s = elim (len s) [ none ↦ none | some n ↦ some (eqb n 0) ]

unfoldable pub create :
    InMemorySessionStore → RelaySession → Result RelayError (Unit {0}) × InMemorySessionStore
create s session =
    if s.poisoned
    then (err (store poison_message), s)
    else if Table.contains_key session.session_id s.sessions
    then (err session_already_exists, s)
    else (ok tt, record s { sessions = Table.insert session.session_id session s.sessions })

unfoldable pub get : InMemorySessionStore → String → Option RelaySession
get s session_id = if s.poisoned then none else Table.get session_id s.sessions

unfoldable pub remove :
    InMemorySessionStore → String → Result RelayError (Unit {0}) × InMemorySessionStore
remove s session_id =
    if s.poisoned
    then (err (store poison_message), s)
    else if Table.contains_key session_id s.sessions
    then (ok tt, record s { sessions = Table.remove session_id s.sessions })
    else (err session_not_found, s)

-- the store with one session more, and with one less
abbrev pub with_session : InMemorySessionStore → RelaySession → InMemorySessionStore
with_session s session = record s { sessions = Table.insert session.session_id session s.sessions }

abbrev pub without_session : InMemorySessionStore → String → InMemorySessionStore
without_session s session_id = record s { sessions = Table.remove session_id s.sessions }

abbrev pub Created : Type 0
Created = Result RelayError (Unit {0}) × InMemorySessionStore

is_some_cases {ℓ} : {A : Type ℓ} (o : Option A) → is_some o ≡ true → (a : A) × (o ≡ some a)
is_some_cases none h = ground arith
is_some_cases (some a) h = (a, refl)

is_none_cases {ℓ} : {A : Type ℓ} (o : Option A) → is_some o ≡ false → o ≡ none
is_none_cases none h = refl
is_none_cases (some a) h = ground arith

module _ (s : InMemorySessionStore) where
  pub create_cases {ℓ} :
      (P : Created → Type ℓ) (session : RelaySession)
      → (s.poisoned ≡ true → P (err (store poison_message), s))
      → ((old : RelaySession)
          → s.poisoned ≡ false
          → Table.get session.session_id s.sessions ≡ some old
          → P (err session_already_exists, s))
      → (s.poisoned ≡ false
          → Table.get session.session_id s.sessions ≡ none
          → P (ok tt, with_session s session))
      → P (create s session)
  unfolding create
  create_cases P session gone taken fresh = if_cases P s.poisoned _ _ gone λ live.
      if_cases P (Table.contains_key session.session_id s.sessions) _ _
        (λ h. let (old, e) = is_some_cases _ h in taken old live e)
        (λ h. fresh live (is_none_cases _ h))

  pub remove_cases {ℓ} :
      (P : Created → Type ℓ) (session_id : String)
      → (s.poisoned ≡ true → P (err (store poison_message), s))
      → (s.poisoned ≡ false → Table.get session_id s.sessions ≡ none → P (err session_not_found, s))
      → ((old : RelaySession)
          → s.poisoned ≡ false
          → Table.get session_id s.sessions ≡ some old
          → P (ok tt, without_session s session_id))
      → P (remove s session_id)
  unfolding remove
  remove_cases P session_id gone missing found = if_cases P s.poisoned _ _ gone λ live.
      if_cases P (Table.contains_key session_id s.sessions) _ _
        (λ h. let (old, e) = is_some_cases _ h in found old live e)
        (λ h. missing live (is_none_cases _ h))
