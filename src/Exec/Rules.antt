-- ===== src/Exec/Rules.antt =====
-- Rules for handlers: how a chain runs, and what it keeps of the record of calls.
use mathlib.Core.Path.{subst}
use kubesan.Prelude.{◌≡◌, refl, ◌⊎◌, inl, inr, Bool, true, false, Option, none, some, if◌then◌else◌}
use kubesan.Exec.{
  Err, Result, ok, err, Trace, Env, Exec, pure, throw, lift, try, ask, continue, ◌>>=◌,
}

module _ {A B : Type 0} (m : Exec A) (f : A → Exec B) (env : Env) (t : Trace) where
  -- a step that succeeds hands its result and the record of calls on
  pub >>=-ok : (a : A) → (m env t).0 ≡ ok a → (m >>= f) env t ≡ f a env (m env t).1
  unfolding ◌>>=◌
  >>=-ok a h = rw h

  -- a step that fails ends the chain
  pub >>=-err : (e : Err) → (m env t).0 ≡ err e → (m >>= f) env t ≡ (err e, (m env t).1)
  unfolding ◌>>=◌
  >>=-err e h = rw h

pub ok-injective : {A : Type 0} {a b : A} → ok a ≡ ok b → a ≡ b
ok-injective h = cc

pub Result-cases : {A : Type 0} (r : Result A) → ((a : A) × (r ≡ ok a)) ⊎ ((e : Err) × (r ≡ err e))
Result-cases (ok a) = inl (a, refl)
Result-cases (err e) = inr (e, refl)

continue-eq-ok :
    {A B : Type 0} (r : Result A) (f : A → Exec B) (env : Env) (t : Trace) (b : B)
    → (continue r f env t).0 ≡ ok b
    → (a : A) × (r ≡ ok a) × ((f a env t).0 ≡ ok b)
continue-eq-ok (ok a) f env t b h = (a, refl, h)
continue-eq-ok (err e) f env t b h = cc

module _ {A B : Type 0} (m : Exec A) (f : A → Exec B) (env : Env) (t : Trace) where
  -- a chain that succeeds has a first step that succeeds
  pub >>=-eq-ok :
      (b : B)
      → ((m >>= f) env t).0 ≡ ok b
      → (a : A) × ((m env t).0 ≡ ok a) × ((f a env (m env t).1).0 ≡ ok b)
  unfolding ◌>>=◌
  >>=-eq-ok b h = continue-eq-ok (m env t).0 f env (m env t).1 b h

module _ {A B : Type 0} (m : Exec A) (f : A → Exec B) (env : Env) (t : Trace) where
  -- the same, with what is left to run
  pub >>=-runs :
      (b : B)
      → ((m >>= f) env t).0 ≡ ok b
      → (a : A) × ((m env t).0 ≡ ok a)
        × ((f a env (m env t).1).0 ≡ ok b)
        × ((m >>= f) env t ≡ f a env (m env t).1)
  >>=-runs b h = let (a, e, rest) = >>=-eq-ok m f env t b h in (a, e, rest, >>=-ok m f env t a e)

continue-trace :
    {A B : Type 0} (r : Result A) (f : A → Exec B) (env : Env) (t : Trace)
    → ((a : A) → (f a env t).1 ≡ t)
    → (continue r f env t).1 ≡ t
continue-trace (ok a) f env t h = h a
continue-trace (err e) f env t h = refl

-- a last step that calls nothing leaves the record of calls alone
pub >>=-trace :
    {A B : Type 0} (m : Exec A) (f : A → Exec B) (env : Env) (t : Trace)
    → ((a : A) → (f a env (m env t).1).1 ≡ (m env t).1)
    → ((m >>= f) env t).1 ≡ (m env t).1
unfolding ◌>>=◌
>>=-trace m f env t h = continue-trace (m env t).0 f env (m env t).1 h

-- In this environment `m` keeps `P` of the record of calls, whether it succeeds or fails.
pub record Keeps {A : Type 0} (env : Env) (P : Trace → Type 0) (m : Exec A) : Type 0 where
  pub at : (t : Trace) → P t → P (m env t).1

module _ {A : Type 0} {env : Env} {P : Trace → Type 0} where
  pub Keeps-pure : (a : A) → Keeps env P (pure a)
  unfolding pure
  Keeps-pure a = record { at = λ t h. h }

  pub Keeps-throw : (e : Err) → Keeps env P (throw {A = A} e)
  unfolding throw
  Keeps-throw e = record { at = λ t h. h }

  pub Keeps-lift : (r : Result A) → Keeps env P (lift r)
  unfolding lift
  Keeps-lift r = record { at = λ t h. h }

  pub Keeps-try : (m : Exec A) → Keeps env P m → Keeps env P (try m)
  unfolding try
  Keeps-try m k = record { at = k.at }

  pub Keeps-if :
      (b : Bool) (m n : Exec A)
      → (b ≡ true → Keeps env P m)
      → (b ≡ false → Keeps env P n)
      → Keeps env P (if b then m else n)
  Keeps-if true m n km kn = km refl
  Keeps-if false m n km kn = kn refl

module _ {A X : Type 0} {env : Env} {P : Trace → Type 0} where
  pub Keeps-elim_option :
      (o : Option X) (m : Exec A) (f : X → Exec A)
      → (o ≡ none → Keeps env P m)
      → ((x : X) → o ≡ some x → Keeps env P (f x))
      → Keeps env P (elim o [ none ↦ m | some x ↦ f x ])
  Keeps-elim_option none m f km kf = km refl
  Keeps-elim_option (some x) m f km kf = kf x refl

  pub Keeps-elim_result :
      (r : Result X) (f : X → Exec A) (g : Err → Exec A)
      → ((x : X) → r ≡ ok x → Keeps env P (f x))
      → ((e : Err) → r ≡ err e → Keeps env P (g e))
      → Keeps env P (elim r [ ok x ↦ f x | err e ↦ g e ])
  Keeps-elim_result (ok x) f g kf kg = kf x refl
  Keeps-elim_result (err e) f g kf kg = kg e refl

pub Keeps-ask : {env : Env} {P : Trace → Type 0} → Keeps env P ask
unfolding ask
Keeps-ask = record { at = λ t h. h }

Keeps-continue :
    {A B : Type 0} {env : Env} (P : Trace → Type 0) (r : Result A) (f : A → Exec B) (t : Trace)
    → P t
    → ((a : A) → r ≡ ok a → P t → P (f a env t).1)
    → P (continue r f env t).1
Keeps-continue P (ok a) f t h k = k a refl h
Keeps-continue P (err e) f t h k = h

module _ {A B : Type 0} {env : Env} {P : Trace → Type 0} where
  -- the rest may use the result of the first step, at the record of calls where it stands
  pub Keeps-bind_known :
      (m : Exec A) (f : A → Exec B)
      → Keeps env P m
      → ((t : Trace) (a : A) → (m env t).0 ≡ ok a → P (m env t).1 → P (f a env (m env t).1).1)
      → Keeps env P (m >>= f)
  unfolding ◌>>=◌
  Keeps-bind_known m f km kf = record {
    at = λ t h. Keeps-continue P (m env t).0 f (m env t).1 (km.at t h) (kf t);
  }

  pub Keeps-bind :
      (m : Exec A) (f : A → Exec B)
      → Keeps env P m
      → ((a : A) → Keeps env P (f a))
      → Keeps env P (m >>= f)
  Keeps-bind m f km kf = Keeps-bind_known m f km (λ t a e h. (kf a).at (m env t).1 h)

pub ruleset keeps_rules =
    (Keeps-pure, Keeps-throw, Keeps-lift, Keeps-try, Keeps-if, Keeps-ask, Keeps-bind)

-- In this environment each result of `m` satisfies `P`.
pub record Yields {A : Type 0} (env : Env) (P : A → Type 0) (m : Exec A) : Type 0 where
  pub result : (t : Trace) (a : A) → (m env t).0 ≡ ok a → P a

module _ {A : Type 0} {env : Env} {P : A → Type 0} where
  pub Yields-pure : (a : A) → P a → Yields env P (pure a)
  unfolding pure
  Yields-pure a h = record { result = λ t b e. transport_along e }
    where
      transport_along : {b : A} → ok a ≡ ok b → P b
      transport_along e = subst P (ok-injective e) h

  pub Yields-throw : (e : Err) → Yields env P (throw e)
  unfolding throw
  Yields-throw e = record { result = λ t b h. absurd (no_result h) }
    where
      no_result : {b : A} → err e ≡ ok b → ⊥
      no_result h = cc

  pub Yields-if :
      (b : Bool) (m n : Exec A)
      → (b ≡ true → Yields env P m)
      → (b ≡ false → Yields env P n)
      → Yields env P (if b then m else n)
  Yields-if true m n ym yn = ym refl
  Yields-if false m n ym yn = yn refl

module _ {A X : Type 0} {env : Env} {P : A → Type 0} where
  pub Yields-elim_option :
      (o : Option X) (m : Exec A) (f : X → Exec A)
      → Yields env P m
      → ((x : X) → Yields env P (f x))
      → Yields env P (elim o [ none ↦ m | some x ↦ f x ])
  Yields-elim_option none m f ym yf = ym
  Yields-elim_option (some x) m f ym yf = yf x

module _ {A B : Type 0} {env : Env} {P : B → Type 0} where
  -- the last step may use what an earlier step has yielded
  pub Yields-bind_known :
      (m : Exec A) (f : A → Exec B) (Q : A → Type 0)
      → Yields env Q m
      → ((a : A) → Q a → Yields env P (f a))
      → Yields env P (m >>= f)
  Yields-bind_known m f Q ym yf = record {
    result = λ t b h.
        let (a, e, rest) = >>=-eq-ok m f env t b h in
        (yf a (ym.result t a e)).result (m env t).1 b rest;
  }

  pub Yields-bind :
      (m : Exec A) (f : A → Exec B) → ((a : A) → Yields env P (f a)) → Yields env P (m >>= f)
  Yields-bind m f yf =
      Yields-bind_known m f (λ a. Unit) (record { result = λ t a e. tt }) (λ a u. yf a)

pub Yields-lift : {A : Type 0} {env : Env} (r : Result A) → Yields env (λ a. r ≡ ok a) (lift r)
unfolding lift
Yields-lift r = record { result = λ t a e. e }
