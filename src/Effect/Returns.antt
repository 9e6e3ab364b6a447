-- ===== src/Effect/Returns.antt =====
-- What an action returns when it succeeds.
use mathlib.Core.Path.{subst}
use rhpam_dev_operator.Base.{◌≡◌, Bool, true, false, List, if◌then◌else◌}
use rhpam_dev_operator.Objects.{Event}
use rhpam_dev_operator.Env.{Env, Result, ok, err, panic}
use rhpam_dev_operator.Effect.{Action, pure, fail, continue, proceed, handle, ◌>>=◌}

abbrev pub Holds : {E A : Type 0} → (A → Type 0) → Result E A → Type 0
Holds Q (ok a) = Q a
Holds Q (err e) = Unit
Holds Q (panic m) = Unit

pub Holds-ok : {E A : Type 0} (Q : A → Type 0) (r : Result E A) (a : A) → Holds Q r → r ≡ ok a → Q a
Holds-ok Q r a h e = subst (Holds Q) e h

pub record Returns ⦃env : Env⦄ {A : Type 0} (Q : A → Type 0) (m : Action A) : Type 0 where
  pub at : (s : env.State) → Holds Q (m s).result

module _ ⦃env : Env⦄ {A : Type 0} {Q : A → Type 0} where
  pub Returns-pure : (a : A) → Q a → Returns Q (pure a)
  unfolding pure
  Returns-pure a h = record { at = λ s. h }

  pub Returns-fail : (e : env.Error) → Returns Q (fail e)
  unfolding fail
  Returns-fail e = record { at = λ s. tt }

  pub Returns-if :
      (b : Bool) (m n : Action A) → Returns Q m → Returns Q n → Returns Q (if b then m else n)
  Returns-if true m n km kn = km
  Returns-if false m n km kn = kn

module _ ⦃env : Env⦄ {A B : Type 0} {Q : B → Type 0} where
  Returns-continue :
      (f : A → Action B) (r : Result env.Error A) (s : env.State) (es : List Event)
      → ((a : A) → Returns Q (f a))
      → Holds Q (continue f r s es).result
  Returns-continue f (ok a) s es kf = (kf a).at s
  Returns-continue f (err e) s es kf = tt
  Returns-continue f (panic m) s es kf = tt

  Returns-proceed :
      (f : A → Action B) (g : env.Error → Action B) (r : Result env.Error A) (s : env.State)
      (es : List Event)
      → ((a : A) → Returns Q (f a))
      → ((e : env.Error) → Returns Q (g e))
      → Holds Q (proceed f g r s es).result
  Returns-proceed f g (ok a) s es kf kg = (kf a).at s
  Returns-proceed f g (err e) s es kf kg = (kg e).at s
  Returns-proceed f g (panic m) s es kf kg = tt

  pub Returns-bind :
      (m : Action A) (f : A → Action B) → ((a : A) → Returns Q (f a)) → Returns Q (m >>= f)
  unfolding ◌>>=◌
  Returns-bind m f kf = record { at = λ s. Returns-continue f _ _ _ kf }

  pub Returns-handle :
      (m : Action A) (f : A → Action B) (g : env.Error → Action B)
      → ((a : A) → Returns Q (f a))
      → ((e : env.Error) → Returns Q (g e))
      → Returns Q (handle m f g)
  unfolding handle
  Returns-handle m f g kf kg = record { at = λ s. Returns-proceed f g _ _ _ kf kg }

module _ ⦃env : Env⦄ {A B : Type 0} {Q : B → Type 0} where
  Returns-continue_with :
      (R : A → Type 0) (f : A → Action B) (r : Result env.Error A) (s : env.State) (es : List Event)
      → Holds R r
      → ((a : A) → R a → Returns Q (f a))
      → Holds Q (continue f r s es).result
  Returns-continue_with R f (ok a) s es h kf = (kf a h).at s
  Returns-continue_with R f (err e) s es h kf = tt
  Returns-continue_with R f (panic m) s es h kf = tt

  -- What comes after may use what `m` returns.
  pub Returns-bind_with :
      (R : A → Type 0) (m : Action A) (f : A → Action B)
      → Returns R m
      → ((a : A) → R a → Returns Q (f a))
      → Returns Q (m >>= f)
  unfolding ◌>>=◌
  Returns-bind_with R m f km kf = record { at = λ s. Returns-continue_with R f _ _ _ (km.at s) kf }

pub ruleset returns_rules = (Returns-pure, Returns-fail, Returns-if, Returns-bind, Returns-handle)
