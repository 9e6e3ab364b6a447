-- ===== src/Effect/Achieves.antt =====
-- Total correctness of an action at a state: it ends without an error, its value and the state that
-- it leaves meet a postcondition. `Refuses` is the same for an action that ends in an error.
use rhpam_dev_operator.Base.{◌≡◌, refl}
use rhpam_dev_operator.Env.{Env, Result, ok, err}
use rhpam_dev_operator.Effect.{Action, pure, lift, step, map_error, handle, ◌>>=◌}

pub record Achieves ⦃env : Env⦄ {A : Type 0} (m : Action A) (s : env.State)
    (Q : A → env.State → Type 0) : Type 0 where
  pub value : A
  pub ends : (m s).result ≡ ok value
  pub holds : Q value (m s).state

pub record Refuses ⦃env : Env⦄ {A : Type 0} (m : Action A) (s : env.State)
    (Q : env.Error → env.State → Type 0) : Type 0 where
  pub error : env.Error
  pub ends : (m s).result ≡ err error
  pub holds : Q error (m s).state

module _ ⦃env : Env⦄ {A : Type 0} {Q : A → env.State → Type 0} {s : env.State} where
  pub Achieves-pure : (a : A) → Q a s → Achieves (pure a) s Q
  unfolding pure
  Achieves-pure a h = record { value = a; ends = refl; holds = h }

  pub Achieves-step : (f : env.State → A × env.State) → Q (f s).0 (f s).1 → Achieves (step f) s Q
  unfolding step
  Achieves-step f h = record { value = (f s).0; ends = refl; holds = h }

  pub Achieves-lift : (r : Result env.Error A) (a : A) → r ≡ ok a → Q a s → Achieves (lift r) s Q
  unfolding lift
  Achieves-lift r a e h = record { value = a; ends = e; holds = h }

  pub Achieves-map_error :
      (f : env.Error → env.Error) (m : Action A) → Achieves m s Q → Achieves (map_error f m) s Q
  unfolding map_error
  Achieves-map_error f m h = record { value = h.value; ends = rw h.ends; holds = h.holds }

  pub Achieves-mono :
      (R : A → env.State → Type 0) (m : Action A)
      → Achieves m s R
      → ((a : A) (s' : env.State) → R a s' → Q a s')
      → Achieves m s Q
  Achieves-mono R m h k = record { value = h.value; ends = h.ends; holds = k _ _ h.holds }

module _ ⦃env : Env⦄ {A B : Type 0} {Q : B → env.State → Type 0} {s : env.State} where
  pub Achieves-bind :
      (R : A → env.State → Type 0) (m : Action A) (f : A → Action B)
      → Achieves m s R
      → ((a : A) (s' : env.State) → R a s' → Achieves (f a) s' Q)
      → Achieves (m >>= f) s Q
  unfolding ◌>>=◌
  Achieves-bind R m f h k =
      let rest = k h.value (m s).state h.holds in
      record {
        value = rest.value;
        ends = rw (h.ends, ◌>>=◌) rest.ends;
        holds = rw (h.ends, ◌>>=◌) rest.holds;
      }

  pub Achieves-handle :
      (R : A → env.State → Type 0) (m : Action A) (f : A → Action B) (g : env.Error → Action B)
      → Achieves m s R
      → ((a : A) (s' : env.State) → R a s' → Achieves (f a) s' Q)
      → Achieves (handle m f g) s Q
  unfolding handle
  Achieves-handle R m f g h k =
      let rest = k h.value (m s).state h.holds in
      record {
        value = rest.value;
        ends = rw (h.ends, handle) rest.ends;
        holds = rw (h.ends, handle) rest.holds;
      }

  pub Achieves-rescue :
      (R : env.Error → env.State → Type 0) (m : Action A) (f : A → Action B)
      (g : env.Error → Action B)
      → Refuses m s R
      → ((e : env.Error) (s' : env.State) → R e s' → Achieves (g e) s' Q)
      → Achieves (handle m f g) s Q
  unfolding handle
  Achieves-rescue R m f g h k =
      let rest = k h.error (m s).state h.holds in
      record {
        value = rest.value;
        ends = rw (h.ends, handle) rest.ends;
        holds = rw (h.ends, handle) rest.holds;
      }

module _ ⦃env : Env⦄ {A : Type 0} {Q : env.Error → env.State → Type 0} {s : env.State} where
  pub Refuses-map_error :
      (f : env.Error → env.Error) (m : Action A)
      → Refuses m s (λ e. Q (f e))
      → Refuses (map_error f m) s Q
  unfolding map_error
  Refuses-map_error f m h = record { error = f h.error; ends = rw h.ends; holds = h.holds }
