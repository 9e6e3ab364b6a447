-- ===== src/Effect.antt =====
-- The operator's code as actions on the outside state: an action ends in a result, and leaves the
-- events that it has caused, in order. The combinators stay shut where a rule about them is enough;
-- `unfolding ◌>>=◌` opens them all.
pub mod Emits
pub mod Returns
pub mod Achieves
use rhpam_dev_operator.Base.{Option, none, some, List, [], ◌∷◌, ◌++◌}
use rhpam_dev_operator.Objects.{Event}
use rhpam_dev_operator.Env.{Env, Result, ok, err, panic}

pub record Outcome (E S A : Type 0) : Type 0 where
  pub result : Result E A
  pub state : S
  pub events : List Event

module _ ⦃env : Env⦄ where
  abbrev pub Action : Type 0 → Type 0
  Action A = env.State → Outcome env.Error env.State A

  unfoldable pub pure : {A : Type 0} → A → Action A
  pure a s = record { result = ok a; state = s; events = [] }

  unfoldable pub fail : {A : Type 0} → env.Error → Action A
  fail e s = record { result = err e; state = s; events = [] }

  unfoldable pub lift : {A : Type 0} → Result env.Error A → Action A
  lift r s = record { result = r; state = s; events = [] }

  unfoldable pub fail_some : Option env.Error → Action (Unit {0})
  unfolding pure fail
  fail_some none = pure tt
  fail_some (some e) = fail e

  -- A call of the environment, with the event that it is.
  unfoldable pub call :
      {A : Type 0} → Event → (env.State → Result env.Error A × env.State) → Action A
  call e f s = let (r, s') = f s in record { result = r; state = s'; events = e ∷ [] }

  -- A call that is no event.
  unfoldable pub quiet : {A : Type 0} → (env.State → Result env.Error A × env.State) → Action A
  quiet f s = let (r, s') = f s in record { result = r; state = s'; events = [] }

  -- A call that is no event and does not fail.
  unfoldable pub step : {A : Type 0} → (env.State → A × env.State) → Action A
  step f s = let (a, s') = f s in record { result = ok a; state = s'; events = [] }

  unfoldable pub log : Event → Action (Unit {0})
  log e s = record { result = ok tt; state = s; events = e ∷ [] }

  abbrev pub map_err :
      {A : Type 0} → (env.Error → env.Error) → Result env.Error A → Result env.Error A
  map_err f (ok a) = ok a
  map_err f (err e) = err (f e)
  map_err f (panic m) = panic m

  -- `if err != nil { return f(err) }`
  unfoldable pub map_error : {A : Type 0} → (env.Error → env.Error) → Action A → Action A
  map_error f m s = let o = m s in record o { result = map_err f o.result }

  -- `defer`, for a call that is only an event: it is made however the rest ends.
  unfoldable pub deferred : {A : Type 0} → Event → Action A → Action A
  deferred e m s = let o = m s in record o { events = o.events ++ (e ∷ []) }

  abbrev pub after :
      {A : Type 0} → List Event → Outcome env.Error env.State A → Outcome env.Error env.State A
  after es o = record o { events = es ++ o.events }

  -- The two ways on from `a, err := m`; a panic has none.
  abbrev pub proceed :
      {A B : Type 0}
      → (A → Action B)
      → (env.Error → Action B)
      → Result env.Error A
      → env.State
      → List Event
      → Outcome env.Error env.State B
  proceed f g (ok a) s es = after es (f a s)
  proceed f g (err e) s es = after es (g e s)
  proceed f g (panic m) s es = record { result = panic m; state = s; events = es }

  unfoldable pub handle :
      {A B : Type 0} → Action A → (A → Action B) → (env.Error → Action B) → Action B
  unfolding pure fail lift fail_some call quiet step log map_error deferred
  handle m f g s = let o = m s in proceed f g o.result o.state o.events

  -- A call whose error nobody reads.
  unfoldable pub ignore : {A : Type 0} → Action A → Action (Unit {0})
  unfolding handle
  ignore m = handle m (λ _. pure tt) (λ _. pure tt)

  -- The rest of a block, after the events that came before it.
  abbrev pub continue :
      {A B : Type 0}
      → (A → Action B)
      → Result env.Error A
      → env.State
      → List Event
      → Outcome env.Error env.State B
  continue f (ok a) s es = after es (f a s)
  continue f (err e) s es = record { result = err e; state = s; events = es }
  continue f (panic m) s es = record { result = panic m; state = s; events = es }

  infixl 5 ◌>>=◌ ◌>>◌
  unfoldable pub ◌>>=◌ : {A B : Type 0} → Action A → (A → Action B) → Action B
  unfolding handle ignore
  ◌>>=◌ m f s = let o = m s in continue f o.result o.state o.events

  abbrev pub ◌>>◌ : {A B : Type 0} → Action A → Action B → Action B
  m >> k = m >>= λ _. k

  -- `for _, x := range xs { if err := f(x); err != nil { return err } }`
  unfoldable pub for_each : {A : Type 0} → (A → Action (Unit {0})) → List A → Action (Unit {0})
  unfolding ◌>>=◌
  for_each f [] = pure tt
  for_each f (x ∷ xs) = f x >> for_each f xs
