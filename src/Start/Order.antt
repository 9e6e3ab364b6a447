-- ===== src/Start/Order.antt =====
-- The order of the start, and what a failing step leaves behind.
use mathlib.Core.Path.{subst}
use rhpam_dev_operator.Base.{
  sym, ℕ, ◌&&◌, All, ◌∙◌, refl, Option, none, some, ◌≡◌, Bool, true, false, not, List, [], ◌∷◌,
  arith, same_nat,
}
use rhpam_dev_operator.Start.{
  Step, parse_flags, get_config, become_leader, set_ready, unset_ready, new_manager, add_to_scheme,
  new_controller, watch, install_route, install_apps, start, Platform, Exit, main,
}

-- What the failure of a call does: it ends the process with an exit code, or nothing.
abbrev after_set : List (Step × Option ℕ)
after_set =
    (new_manager "", some 1)
    ∷ (add_to_scheme, some 1)
    ∷ (new_controller "rhpamdev-controller", some 1)
    ∷ (watch "RhpamDev", some 1)
    ∷ (new_controller "rhpamuser-controller", some 1)
    ∷ (watch "RhpamUser", some 1)
    ∷ (install_route, some 1)
    ∷ (install_apps, some 1)
    ∷ (start, some 1)
    ∷ []

abbrev pub plan : List (Step × Option ℕ)
plan =
    (parse_flags, some 2)
    ∷ (get_config, some 1)
    ∷ (become_leader, none)
    ∷ (set_ready, some 1)
    ∷ after_set

module _ ⦃p : Platform⦄ where
  abbrev performed : Step → Exit p.State → Exit p.State
  performed step e = record e { steps = step ∷ e.steps }

  -- A call, and the rest unless the call fails and its failure ends the process.
  abbrev continued : Step → Option ℕ → Bool × p.State → Exit p.State → Exit p.State
  continued step (some code) (false, s) rest = record { code = code; state = s; steps = step ∷ [] }
  continued step _ (_, s) rest = performed step rest

  -- Calls in order until one fails that matters; the ready file is removed only at the end.
  abbrev pub follow : List (Step × Option ℕ) → p.State → Exit p.State
  follow [] s = record { code = 0; state = (p.perform unset_ready s).1; steps = unset_ready ∷ [] }
  follow ((step, failure) ∷ rest) s =
      let onward = follow rest (p.perform step s).1 in
      continued step failure (p.perform step s) onward

  -- `main` is the plan: each call is made once and in its order until one fails, with the exit code
  -- of that call in the plan, which is 2 for the flags and 1 for all others but the call to become
  -- the leader, whose failure changes nothing. After all of them, the ready file is removed.
  pub main-follow : (s : p.State) → main s ≡ follow plan s
  unfolding main
  main-follow s = ground arith

abbrev elected : {S : Type 0} → (Step → S → Bool × S) → Step → S → Bool × S
elected perform become_leader s = (true, (perform become_leader s).1)
elected perform step s = perform step s

-- The same platform, on which this process always becomes the leader.
abbrev pub always_leader : Platform → Platform
always_leader p = record { State = p.State; perform = elected p.perform }

-- The controllers run whether or not the process has become the leader, with the same calls.
main-leader : (p : Platform) (s : p.State) → main ⦃p = p⦄ s ≡ main ⦃p = always_leader p⦄ s
unfolding main
main-leader p s = ground arith

-- Neither makes nor removes the ready file.
abbrev pub IsOther : Step → Type 0
IsOther set_ready = ⊥
IsOther unset_ready = ⊥
IsOther _ = Unit

abbrev IsFailure : Option ℕ → Type 0
IsFailure (some code) = same_nat code 0 ≡ false
IsFailure none = Unit

abbrev is_empty : List Step → Bool
is_empty [] = true
is_empty _ = false

-- Another call follows that of `Set`, which then has succeeded.
abbrev pub passes_set : List Step → Bool
passes_set [] = false
passes_set (set_ready ∷ steps) = not (is_empty steps)
passes_set (_ ∷ steps) = passes_set steps

module _ (p : Platform) (file : p.State → Bool)
    (sets : (s : p.State)
      → file s ≡ false
      → file (p.perform set_ready s).1 ≡ (p.perform set_ready s).0)
    (unsets : (s : p.State) → file (p.perform unset_ready s).1 ≡ false)
    (others : (step : Step) (s : p.State) → IsOther step → file (p.perform step s).1 ≡ file s) where
  abbrev Left : Exit p.State → Type 0
  Left e = file e.state ≡ not (same_nat e.code 0)

  continued-Left :
      (step : Step) (failure : Option ℕ) (x : Bool × p.State) (rest : Exit p.State)
      → IsFailure failure
      → file x.1 ≡ true
      → Left rest
      → Left (continued ⦃p = p⦄ step failure x rest)
  continued-Left step (some code) (false, s) rest h f left = f ∙ rw h refl
  continued-Left step (some code) (true, s) rest h f left = left
  continued-Left step none (b, s) rest h f left = left

  follow-Left :
      (l : List (Step × Option ℕ)) (s : p.State)
      → All (λ (step, failure). IsOther step × IsFailure failure) l
      → file s ≡ true
      → Left (follow ⦃p = p⦄ l s)
  follow-Left [] s all f = unsets s
  follow-Left ((step, failure) ∷ l) s ((o, h), all) f =
      let kept : file (p.perform step s).1 ≡ true = others step s o ∙ f in
      continued-Left step failure (p.perform step s) _ h kept
        (follow-Left l (p.perform step s).1 all kept)

  is_empty-follow :
      (l : List (Step × Option ℕ)) (s : p.State) → is_empty (follow ⦃p = p⦄ l s).steps ≡ false
  is_empty-follow [] s = refl
  is_empty-follow ((step, none) ∷ l) s = refl
  is_empty-follow ((step, some code) ∷ l) s = ground arith

  after_set-harmless : All (λ (step, failure). IsOther step × IsFailure failure) after_set
  after_set-harmless = ground arith

  abbrev Stays : Exit p.State → Type 0
  Stays e = file e.state ≡ (passes_set e.steps && not (same_nat e.code 0))

  set_ready-Stays :
      (l : List (Step × Option ℕ)) (s : p.State)
      → All (λ (step, failure). IsOther step × IsFailure failure) l
      → file s ≡ false
      → Stays (follow ⦃p = p⦄ ((set_ready, some 1) ∷ l) s)
  set_ready-Stays l s all f =
      let s' = (p.perform set_ready s).1 in
      ground (arith, sets s f, follow-Left l s' all, is_empty-follow l s')

  -- The calls before `Set`.
  before_set-Stays :
      (step : Step) (failure : Option ℕ) (x : Bool × p.State) (rest : Exit p.State)
      → ((steps : List Step) → passes_set (step ∷ steps) ≡ passes_set steps)
      → file x.1 ≡ false
      → Stays rest
      → Stays (continued ⦃p = p⦄ step failure x rest)
  before_set-Stays step (some code) (false, s) rest skips f stays = rw (skips []) f
  before_set-Stays step (some code) (true, s) rest skips f stays = rw (skips rest.steps) stays
  before_set-Stays step none (b, s) rest skips f stays = rw (skips rest.steps) stays

  -- Where `Set` makes the ready file exactly if it succeeds, `Unset` removes it, and no other call
  -- touches it, and the file is not there at first: the controllers run whether or not the process
  -- has become the leader, with the same calls, and at the end the file is there exactly if `Set`
  -- had succeeded and the process ended with a failure.
  pub main_lem :
      (s : p.State)
      → file s ≡ false
      → (main ⦃p = p⦄ s ≡ main ⦃p = always_leader p⦄ s)
        × (file (main ⦃p = p⦄ s).state
            ≡ (passes_set (main ⦃p = p⦄ s).steps && not (same_nat (main ⦃p = p⦄ s).code 0)))
  main_lem s f =
      let parsed = p.perform parse_flags s in
      let config = p.perform get_config parsed.1 in
      let leader = p.perform become_leader config.1 in
      let from_set = follow ⦃p = p⦄ ((set_ready, some 1) ∷ after_set) leader.1 in
      let from_leader = continued ⦃p = p⦄ become_leader none leader from_set in
      let from_config = continued ⦃p = p⦄ get_config (some 1) config from_leader in
      let f1 : file parsed.1 ≡ false = others parse_flags s tt ∙ f in
      let f2 : file config.1 ≡ false = others get_config parsed.1 tt ∙ f1 in
      let f3 : file leader.1 ≡ false = others become_leader config.1 tt ∙ f2 in
      (
        main-leader p s,
        subst Stays (sym (main-follow ⦃p = p⦄ s)) (
            before_set-Stays parse_flags (some 2) parsed from_config (λ steps. refl) f1
              (before_set-Stays get_config (some 1) config from_leader (λ steps. refl) f2
                (before_set-Stays become_leader none leader from_set (λ steps. refl) f3
                  (set_ready-Stays after_set leader.1 after_set-harmless f3)))),
      )
