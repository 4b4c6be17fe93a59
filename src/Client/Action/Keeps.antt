-- ===== src/Client/Action/Keeps.antt =====
-- Invariants of the client's methods: what a step keeps, and what the steps of a method keep, the
-- method keeps.
use slan.Prelude.{List, [], ◌∷◌, Bool, true, false, Option, none, some, Result, ok, err}
use slan.Client.Action.{Action, go_on, ◌>>=◌, pure, fail, lift, gets, modify, fail_if, need, next}

module _ {S E : Type 0} (P : S → Type 0) where
  -- where the state is good before, it is good afterwards, whatever the result
  pub record Keeps {A : Type 0} (m : Action S E A) : Type 0 where
    pub holds : (s : S) → P s → P (m s).1

  go_on-keeps :
      {A B : Type 0} (q : Result E A × S) (f : A → Action S E B)
      → P q.1
      → ((a : A) → Keeps (f a))
      → P (go_on q f).1
  go_on-keeps (ok a, s) f h k = (k a).holds s h
  go_on-keeps (err e, s) f h k = h

  pub Keeps-bind :
      {A B : Type 0} (m : Action S E A) (f : A → Action S E B)
      → Keeps m
      → ((a : A) → Keeps (f a))
      → Keeps (m >>= f)
  unfolding ◌>>=◌
  Keeps-bind m f h k = record { holds = λ s good. go_on-keeps (m s) f (h.holds s good) k }

  pub Keeps-pure : {A : Type 0} (a : A) → Keeps (pure a)
  unfolding pure
  Keeps-pure a = record { holds = λ s good. good }

  pub Keeps-fail : {A : Type 0} (e : E) → Keeps {A = A} (fail e)
  unfolding fail
  Keeps-fail e = record { holds = λ s good. good }

  pub Keeps-lift : {A : Type 0} (r : Result E A) → Keeps (lift r)
  unfolding lift
  Keeps-lift r = record { holds = λ s good. good }

  pub Keeps-gets : {A : Type 0} (f : S → A) → Keeps (gets f)
  unfolding gets
  Keeps-gets f = record { holds = λ s good. good }

  pub Keeps-fail_if : (b : Bool) (e : E) → Keeps (fail_if b e)
  unfolding fail_if
  Keeps-fail_if true e = Keeps-fail e
  Keeps-fail_if false e = Keeps-pure tt

  pub Keeps-need : {A : Type 0} (o : Option A) (e : E) → Keeps (need o e)
  unfolding need
  Keeps-need none e = Keeps-fail e
  Keeps-need (some a) e = Keeps-pure a

  pub Keeps-modify : (f : S → S) → ((s : S) → P s → P (f s)) → Keeps (modify f)
  unfolding modify
  Keeps-modify f h = record { holds = h }

  pub Keeps-next : {A : Type 0} (l : List A) (e : E) → Keeps (next l e)
  unfolding next
  Keeps-next [] e = Keeps-fail e
  Keeps-next (a ∷ l) e = Keeps-pure a
