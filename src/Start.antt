-- ===== src/Start.antt =====
-- cmd/manager/main.go, pkg/controller/controller.go with the two files that fill its list, and the
-- registration of each controller. Configuration, manager and controllers are handles of the
-- libraries that each step hands to the next, one of each kind, and only whether a step fails
-- decides what follows. Printing the versions and logging are left out. `flag.Parse` fails
-- on a flag that is not known; a call for help is not modelled.
pub mod Order
use rhpam_dev_operator.Base.{ℕ, String, Bool, List, [], ◌∷◌, ◌++◌, if◌then◌else◌}

-- The calls of the libraries: flag.Parse, config.GetConfig, leader.Become, Set and Unset of the
-- ready file, manager.New with its namespace, AddToScheme, controller.New and Watch with their
-- names, routev1.Install, appsv1.Install, and mgr.Start.
pub data Step : Type 0 where
  parse_flags get_config become_leader set_ready unset_ready : Step
  new_manager : String → Step
  add_to_scheme : Step
  new_controller : String → Step
  watch : String → Step
  install_route install_apps start : Step

pub record Platform : Type 1 where
  pub State : Type 0
  -- Whether the call succeeds.
  pub perform : Step → State → Bool × State

-- What a part of the start comes to: it ends well or with an error, or the process has exited.
pub record Trace (S : Type 0) : Type 0 where
  pub ended_well : Bool
  pub state : S
  pub steps : List Step

pub record Exit (S : Type 0) : Type 0 where
  pub code : ℕ
  pub state : S
  pub steps : List Step

module _ ⦃p : Platform⦄ where
  abbrev pub Part : Type 0
  Part = p.State → Trace p.State

  unfoldable pub call : Step → Part
  call step s =
      let (good, s') = p.perform step s in
      record { ended_well = good; state = s'; steps = step ∷ [] }

  abbrev pub followed : Trace p.State → Trace p.State → Trace p.State
  followed t u = record u { steps = t.steps ++ u.steps }

  -- `if err := a; err != nil { return err }; return b`
  infixr 5 ◌then_try◌
  unfoldable pub ◌then_try◌ : Part → Part → Part
  (a then_try b) s = let t = a s in if t.ended_well then followed t (b t.state) else t

  -- A call whose error is not looked at.
  unfoldable pub regardless : Part → Part
  regardless a s = record (a s) { ended_well = Bool.true }

  -- `add` of each controller, and `Add`.
  unfoldable pub add_rhpamdev : Part
  unfolding call ◌then_try◌
  add_rhpamdev = call (new_controller "rhpamdev-controller") then_try call (watch "RhpamDev")

  unfoldable pub add_rhpamuser : Part
  unfolding call ◌then_try◌
  add_rhpamuser = call (new_controller "rhpamuser-controller") then_try call (watch "RhpamUser")

  -- The `init` functions of a package run in the order of their files' names.
  unfoldable pub add_to_manager_funcs : List Part
  unfolding add_rhpamdev add_rhpamuser
  add_to_manager_funcs = add_rhpamdev ∷ add_rhpamuser ∷ []

  unfoldable pub add_all : List Part → Part
  unfolding ◌then_try◌
  add_all [] s = record { ended_well = Bool.true; state = s; steps = [] }
  add_all (f ∷ fs) s = (f then_try add_all fs) s

  unfoldable pub add_to_manager : Part
  unfolding add_all add_to_manager_funcs
  add_to_manager = add_all add_to_manager_funcs

  -- `main` from `config.GetConfig` up to the end of `mgr.Start`, where any failing call but that of
  -- `leader.Become` exits the process.
  unfoldable pub start_up : Part
  unfolding call ◌then_try◌ regardless add_to_manager
  start_up =
      call get_config
      then_try regardless (call become_leader)
      then_try call set_ready
      then_try call (new_manager "")
      then_try call add_to_scheme
      then_try add_to_manager
      then_try call install_route
      then_try call install_apps
      then_try call start

  -- `os.Exit(1)` skips the deferred `r.Unset()`, which runs where `main` returns.
  unfoldable pub run : p.State → Exit p.State
  unfolding start_up
  run s =
      let t = start_up s in
      let (_, last) = p.perform unset_ready t.state in
      if t.ended_well
      then record { code = 0; state = last; steps = t.steps ++ (unset_ready ∷ []) }
      else record { code = 1; state = t.state; steps = t.steps }

  -- A flag that is not known makes `flag.Parse` exit the process with the code 2.
  unfoldable pub main : p.State → Exit p.State
  unfolding run
  main s =
      let (good, parsed) = p.perform parse_flags s in
      let rest = run parsed in
      if good
      then record rest { steps = parse_flags ∷ rest.steps }
      else record { code = 2; state = parsed; steps = parse_flags ∷ [] }
