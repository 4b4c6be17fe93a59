-- ===== src/Client/Action.antt =====
-- Methods behind a lock: a step takes the state and returns a result with the new state; an error
-- ends a method with the state it has reached, as `?` does.
pub mod Keeps
pub mod Yields
pub mod Steps
use slan.Prelude.{List, [], ◌∷◌, Bool, true, false, Option, none, some, Result, ok, err}

abbrev pub Action : Type 0 → Type 0 → Type 0 → Type 0
Action S E A = S → Result E A × S

abbrev pub go_on : {S E A B : Type 0} → Result E A × S → (A → Action S E B) → Result E B × S
go_on (ok a, s) f = f a s
go_on (err e, s) f = (err e, s)

infixl 5 ◌>>=◌ ◌>>◌
unfoldable pub ◌>>=◌ : {S E A B : Type 0} → Action S E A → (A → Action S E B) → Action S E B
m >>= f = λ s. go_on (m s) f

abbrev pub ◌>>◌ : {S E A B : Type 0} → Action S E A → Action S E B → Action S E B
m >> k = m >>= λ _. k

unfoldable pub pure : {S E A : Type 0} → A → Action S E A
pure a s = (ok a, s)

unfoldable pub fail : {S E A : Type 0} → E → Action S E A
fail e s = (err e, s)

-- a result that ends the method or goes on
unfoldable pub lift : {S E A : Type 0} → Result E A → Action S E A
lift r s = (r, s)

unfoldable pub gets : {S E A : Type 0} → (S → A) → Action S E A
gets f s = (ok (f s), s)

unfoldable pub modify : {S E : Type 0} → (S → S) → Action S E (Unit {0})
modify f s = (ok tt, f s)

-- `if failing { return Err(e) }`
unfoldable pub fail_if : {S E : Type 0} → Bool → E → Action S E (Unit {0})
fail_if true e = fail e
fail_if false e = pure tt

-- `ok_or`
unfoldable pub need : {S E A : Type 0} → Option A → E → Action S E A
need none e = fail e
need (some a) e = pure a

-- `next().ok_or_else(..)`
unfoldable pub next : {S E A : Type 0} → List A → E → Action S E A
next [] e = fail e
next (a ∷ _) e = pure a
