-- ===== src/Client/Action/Yields.antt =====
-- What a method ensures when it ends well: conditions before it and after it.
use slan.Prelude.{Bool, true, false, ◌≡◌, refl, ap, subst, Result, ok, err}
use slan.Client.Action.{Action, go_on, ◌>>=◌, pure, modify, gets, fail_if, fail}
use slan.Client.Action.Keeps.{Keeps}

module _ {S E : Type 0} where
  -- from a good state, an end without an error is in a good state
  pub record Yields {A : Type 0} (P : S → Type 0) (m : Action S E A) (Q : S → Type 0) : Type 0 where
    pub reached : (s t : S) (a : A) → P s → m s ≡ (ok a, t) → Q t

  pub Yields-keeps : {A : Type 0} (P : S → Type 0) (m : Action S E A) → Keeps P m → Yields P m P
  Yields-keeps P m k = record { reached = λ s t a h e. subst (λ q. P q.1) e (k.holds s h) }

  after :
      {A B : Type 0} (Q R : S → Type 0) (f : A → Action S E B) (q : Result E A × S) (t : S) (b : B)
      → ((a : A) → q.0 ≡ ok a → Q q.1)
      → ((a : A) → Yields Q (f a) R)
      → go_on q f ≡ (ok b, t)
      → R t
  after Q R f (ok a, u) t b h k e = (k a).reached u t b (h a refl) e
  after Q R f (err x, u) t b h k e = cc

  pub Yields-bind :
      {A B : Type 0} (P Q R : S → Type 0) (m : Action S E A) (f : A → Action S E B)
      → Yields P m Q
      → ((a : A) → Yields Q (f a) R)
      → Yields P (m >>= f) R
  unfolding ◌>>=◌
  Yields-bind P Q R m f h k = record {
    reached = λ s t b good e.
        after Q R f (m s) t b (λ a g. h.reached s (m s).1 a good (ap (λ r. (r, (m s).1)) g)) k e;
  }

  pub Yields-modify :
      (P Q : S → Type 0) (f : S → S) → ((s : S) → P s → Q (f s)) → Yields P (modify f) Q
  unfolding modify
  Yields-modify P Q f h = record { reached = λ s t a good e. subst Q (ap (λ q. q.1) e) (h s good) }

  -- a flag that is not up
  pub Yields-gate :
      (P : S → Type 0) (flag : S → Bool) (x : E)
      → Yields P (gets flag >>= λ b. fail_if b x) (λ s. P s × flag s ≡ false)
  unfolding ◌>>=◌ gets fail_if fail pure
  Yields-gate P flag x = record { reached = λ s t a good e. by_flag s t (flag s) refl a good e }
    where
      by_flag :
          (s t : S) (b : Bool)
          → flag s ≡ b
          → (a : Unit {0}) → P s
          → fail_if b x s ≡ (ok a, t)
          → P t × flag t ≡ false
      by_flag s t true h a good e = cc
      by_flag s t false h a good e =
          let same : s ≡ t = cc in (subst P same good, subst (λ u. flag u ≡ false) same h)

  -- a value that is read off the state
  pub Yields-gets :
      {A B : Type 0} (P R : S → Type 0) (f : S → A) (k : A → Action S E B)
      → ((a : A) → Yields (λ s. P s × f s ≡ a) (k a) R)
      → Yields P (gets f >>= k) R
  unfolding ◌>>=◌ gets
  Yields-gets P R f k h = record {
    reached = λ s t b good e. (h (f s)).reached s t b (good, refl) e;
  }

  -- a stronger condition before, a weaker one after
  pub Yields-within :
      {A : Type 0} {m : Action S E A} {P Q : S → Type 0} (O R : S → Type 0)
      → ((s : S) → O s → P s)
      → Yields P m Q
      → ((s : S) → Q s → R s)
      → Yields O m R
  Yields-within O R before h later = record {
    reached = λ s t a good e. later t (h.reached s t a (before s good) e);
  }
