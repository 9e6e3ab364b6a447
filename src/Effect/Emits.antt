-- ===== src/Effect/Emits.antt =====
-- Which events an action can cause, with one rule for each way to build an action.
use rhpam_dev_operator.Base.{
  All-mono, ◌≡◌, refl, Bool, true, false, Option, none, some, List, [], ◌∷◌, All, All-append,
  if◌then◌else◌,
}
use rhpam_dev_operator.Objects.{Event}
use rhpam_dev_operator.Env.{Env, Result, ok, err, panic}
use rhpam_dev_operator.Effect.{
  Action, pure, fail, lift, fail_some, call, quiet, step, log, map_error, deferred, proceed, handle,
  ignore, continue, ◌>>=◌, for_each,
}
use rhpam_dev_operator.Effect.Returns.{Returns, Holds-ok}

-- However `m` ends, all events that it causes satisfy `P`.
pub record Emits ⦃env : Env⦄ {A : Type 0} (P : Event → Type 0) (m : Action A) : Type 0 where
  pub at : (s : env.State) → All P (m s).events

module _ ⦃env : Env⦄ {A : Type 0} {P : Event → Type 0} where
  pub Emits-pure : (a : A) → Emits P (pure a)
  unfolding pure
  Emits-pure a = record { at = λ s. tt }

  pub Emits-fail : (e : env.Error) → Emits P (fail {A = A} e)
  unfolding fail
  Emits-fail e = record { at = λ s. tt }

  pub Emits-lift : (r : Result env.Error A) → Emits P (lift r)
  unfolding lift
  Emits-lift r = record { at = λ s. tt }

  pub Emits-quiet : (f : env.State → Result env.Error A × env.State) → Emits P (quiet f)
  unfolding quiet
  Emits-quiet f = record { at = λ s. tt }

  pub Emits-step : (f : env.State → A × env.State) → Emits P (step f)
  unfolding step
  Emits-step f = record { at = λ s. tt }

  pub Emits-call :
      (e : Event) (f : env.State → Result env.Error A × env.State) → P e → Emits P (call e f)
  unfolding call
  Emits-call e f h = record { at = λ s. (h, tt) }

  pub Emits-map_error :
      (f : env.Error → env.Error) (m : Action A) → Emits P m → Emits P (map_error f m)
  unfolding map_error
  Emits-map_error f m h = record { at = λ s. h.at s }

  pub Emits-deferred : (e : Event) (m : Action A) → P e → Emits P m → Emits P (deferred e m)
  unfolding deferred
  Emits-deferred e m p h = record { at = λ s. All-append P _ _ (h.at s) (p, tt) }

  pub Emits-if :
      (b : Bool) (m n : Action A)
      → (b ≡ true → Emits P m)
      → (b ≡ false → Emits P n)
      → Emits P (if b then m else n)
  Emits-if true m n km kn = km refl
  Emits-if false m n km kn = kn refl

module _ ⦃env : Env⦄ {A B : Type 0} {P : Event → Type 0} where
  Emits-proceed :
      (f : A → Action B) (g : env.Error → Action B) (r : Result env.Error A) (s : env.State)
      (es : List Event)
      → All P es
      → ((a : A) → r ≡ ok a → Emits P (f a))
      → ((e : env.Error) → Emits P (g e))
      → All P (proceed f g r s es).events
  Emits-proceed f g (ok a) s es h kf kg = All-append P es _ h ((kf a refl).at s)
  Emits-proceed f g (err e) s es h kf kg = All-append P es _ h ((kg e).at s)
  Emits-proceed f g (panic m) s es h kf kg = h

  Emits-continue :
      (f : A → Action B) (r : Result env.Error A) (s : env.State) (es : List Event)
      → All P es
      → ((a : A) → r ≡ ok a → Emits P (f a))
      → All P (continue f r s es).events
  Emits-continue f (ok a) s es h kf = All-append P es _ h ((kf a refl).at s)
  Emits-continue f (err e) s es h kf = h
  Emits-continue f (panic m) s es h kf = h

  pub Emits-handle :
      (m : Action A) (f : A → Action B) (g : env.Error → Action B)
      → Emits P m
      → ((a : A) → Emits P (f a))
      → ((e : env.Error) → Emits P (g e))
      → Emits P (handle m f g)
  unfolding handle
  Emits-handle m f g km kf kg = record {
    at = λ s. Emits-proceed f g _ _ _ (km.at s) (λ a _. kf a) kg;
  }

  pub Emits-bind :
      (m : Action A) (f : A → Action B) → Emits P m → ((a : A) → Emits P (f a)) → Emits P (m >>= f)
  unfolding ◌>>=◌
  Emits-bind m f km kf = record { at = λ s. Emits-continue f _ _ _ (km.at s) (λ a _. kf a) }

  -- What comes after may use what `m` returns.
  pub Emits-handle_with :
      (Q : A → Type 0) (m : Action A) (f : A → Action B) (g : env.Error → Action B)
      → Emits P m
      → Returns Q m
      → ((a : A) → Q a → Emits P (f a))
      → ((e : env.Error) → Emits P (g e))
      → Emits P (handle m f g)
  unfolding handle
  Emits-handle_with Q m f g km rm kf kg = record {
    at = λ s. Emits-proceed f g _ _ _ (km.at s) (λ a e. kf a (Holds-ok Q _ a (rm.at s) e)) kg;
  }

  pub Emits-bind_with :
      (Q : A → Type 0) (m : Action A) (f : A → Action B)
      → Emits P m
      → Returns Q m
      → ((a : A) → Q a → Emits P (f a))
      → Emits P (m >>= f)
  unfolding ◌>>=◌
  Emits-bind_with Q m f km rm kf = record {
    at = λ s. Emits-continue f _ _ _ (km.at s) (λ a e. kf a (Holds-ok Q _ a (rm.at s) e));
  }

module _ ⦃env : Env⦄ {P : Event → Type 0} where
  pub Emits-log : (e : Event) → P e → Emits P (log e)
  unfolding log
  Emits-log e h = record { at = λ s. (h, tt) }

  pub Emits-fail_some : (o : Option env.Error) → Emits P (fail_some o)
  unfolding fail_some
  Emits-fail_some none = Emits-pure tt
  Emits-fail_some (some e) = Emits-fail e

module _ ⦃env : Env⦄ {A : Type 0} {P : Event → Type 0} where
  pub Emits-ignore : (m : Action A) → Emits P m → Emits P (ignore m)
  unfolding ignore
  Emits-ignore m h = Emits-handle m _ _ h (λ _. Emits-pure tt) (λ _. Emits-pure tt)

  pub Emits-for_each :
      (f : A → Action (Unit {0})) (xs : List A)
      → ((x : A) → Emits P (f x))
      → Emits P (for_each f xs)
  unfolding for_each
  Emits-for_each f [] h = Emits-pure tt
  Emits-for_each f (x ∷ xs) h = Emits-bind (f x) _ (h x) (λ _. Emits-for_each f xs h)

  pub Emits-for_each_All :
      (Q : A → Type 0) (f : A → Action (Unit {0})) (xs : List A)
      → All Q xs
      → ((x : A) → Q x → Emits P (f x))
      → Emits P (for_each f xs)
  unfolding for_each
  Emits-for_each_All Q f [] all h = Emits-pure tt
  Emits-for_each_All Q f (x ∷ xs) (q, all) h =
      Emits-bind (f x) _ (h x q) (λ _. Emits-for_each_All Q f xs all h)

pub ruleset emits_rules = (
  Emits-pure, Emits-fail, Emits-lift, Emits-quiet, Emits-step, Emits-call, Emits-map_error,
  Emits-deferred, Emits-if, Emits-handle, Emits-bind, Emits-log, Emits-fail_some, Emits-ignore,
  Emits-for_each,
)

module _ ⦃env : Env⦄ {A : Type 0} {P R : Event → Type 0} where
  pub Emits-mono : (m : Action A) → ((e : Event) → P e → R e) → Emits P m → Emits R m
  Emits-mono m h km = record { at = λ s. All-mono _ h (km.at s) }
