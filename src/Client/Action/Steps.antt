-- ===== src/Client/Action/Steps.antt =====
-- What goes well in a method, step by step.
use slan.Prelude.{
  Bool, true, false, ◌≡◌, refl, ap, ◌∙◌, Option, none, some, Result, ok, err, ok-injective,
}
use slan.Client.Action.{Action, go_on, ◌>>=◌, pure, fail, fail_if, need}

module _ {S E : Type 0} where
  -- what ends well has gone well in both of its steps
  pub both_steps :
      {A B : Type 0} (m : Action S E A) (f : A → Action S E B) (s t : S) (b : B)
      → (m >>= f) s ≡ (ok b, t)
      → (a : A) × (u : S) × (m s ≡ (ok a, u)) × (f a u ≡ (ok b, t))
  unfolding ◌>>=◌
  both_steps {A} {B} m f s t b h = by_result (m s) h
    where
      by_result :
          (q : Result E A × S)
          → go_on q f ≡ (ok b, t)
          → (a : A) × (u : S) × (q ≡ (ok a, u)) × (f a u ≡ (ok b, t))
      by_result (ok a, u) g = (a, u, refl, g)
      by_result (err x, u) g = cc

  -- a step that goes well, and the rest
  pub gone_on :
      {A B : Type 0} {q : Result E A × S} {u : S} {a : A} (k : A → Action S E B)
      {r : Result E B × S}
      → q ≡ (ok a, u)
      → k a u ≡ r
      → go_on q k ≡ r
  gone_on k e h = ap (λ x. go_on x k) e ∙ h

  pub fail_if-passes : {b : Bool} (x : E) {s : S} → b ≡ false → fail_if b x s ≡ (ok tt, s)
  unfolding fail_if pure
  fail_if-passes x e = rw e refl

  pub need-passes :
      {A : Type 0} {o : Option A} (x : E) {s : S} {a : A} → o ≡ some a → need o x s ≡ (ok a, s)
  unfolding need pure
  need-passes x e = rw e refl

  -- a guard that lets the rest end well
  pub gate-ok :
      {B : Type 0} (b : Bool) (x : E) (s t : S) (k : Unit {0} → Action S E B) (a : B)
      → go_on (fail_if b x s) k ≡ (ok a, t)
      → (b ≡ false) × (k tt s ≡ (ok a, t))
  unfolding fail_if fail pure
  gate-ok true x s t k a h = cc
  gate-ok false x s t k a h = (refl, h)

  pub answered :
      {A : Type 0} (q : Result E (Option A) × S) (o : Option A) (r x : A) (v w t : S)
      → q ≡ (ok o, v)
      → o ≡ some r
      → r ≡ x
      → v ≡ w
      → w ≡ t
      → q ≡ (ok (some x), t)
  answered q o r x v w t h e f g k = cc

  pub need-ok :
      {A : Type 0} (o : Option A) (e : E) (s t : S) (a : A)
      → need o e s ≡ (ok a, t)
      → (o ≡ some a) × (s ≡ t)
  unfolding need fail pure
  need-ok {A} none e s t a h = cc
  need-ok {A} (some x) e s t a h =
      (ok_some x a (ap (λ (q : Result E A × S). q.0) h), ap (λ (q : Result E A × S). q.1) h)
    where
      ok_some : (x a : A) → ◌≡◌ {A = Result E A} (ok x) (ok a) → some x ≡ some a
      ok_some x a h = ap some (ok-injective h)
