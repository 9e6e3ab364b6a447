-- ===== src/Dev/Graph.antt =====
-- The phases that a RhpamDev object goes through, and that the controller follows them.
use rhpam_dev_operator.Base.{◌≡◌, refl, Bool, true, false, none, if◌then◌else◌}
use rhpam_dev_operator.Api.{
  StatusPhase, RhpamDev, no_phase, accepted, realm_provisioning, realm_provisioned, prepare,
  prepared, database_installed, business_central_installed, database_ready, complete,
}
use rhpam_dev_operator.Objects.{Event, updated_dev, updated_user, deleted}
use rhpam_dev_operator.Env.{Env}
use rhpam_dev_operator.Effect.{Action, pure}
use rhpam_dev_operator.Effect.Emits.{
  Emits, Emits-mono, Emits-handle_with, Emits-bind, Emits-pure, emits_rules,
}
use rhpam_dev_operator.Effect.Returns.{Returns, Returns-bind, Returns-pure, returns_rules}
use rhpam_dev_operator.Common.Access.{IsMild}
use rhpam_dev_operator.Dev.Mildness.{
  initialize-IsMild, prepare_phase-IsMild, install_database-IsMild, install_business_central-IsMild,
  wait_for_database-IsMild, install_kie_server-IsMild, provision-IsMild,
}
use rhpam_dev_operator.Dev.Realm.{provision_realm}
use rhpam_dev_operator.Dev.Phases.{
  enter, initialize, prepare_phase, install_database, install_business_central, wait_for_database,
  install_kie_server,
}
use rhpam_dev_operator.Dev.Reconcile.{
  store_result, handle_result, reconcile_waiting, reconcile_phase,
}

infix 40 ◌⟶◌
pub data ◌⟶◌ : StatusPhase → StatusPhase → Type 0 where
  start : no_phase ⟶ accepted
  begin_realm : accepted ⟶ realm_provisioning
  finish_realm : accepted ⟶ realm_provisioned
  finish_prepare : prepare ⟶ prepared
  finish_database : prepared ⟶ database_installed
  finish_business_central : database_installed ⟶ business_central_installed
  database_up : business_central_installed ⟶ database_ready
  finish_kie_server : database_ready ⟶ complete

-- An update of a RhpamDev object takes the phase `p` along an edge; users and assets stay.
abbrev pub Follows : StatusPhase → Event → Type 0
Follows p (updated_dev d) = p ⟶ d.status.phase
Follows p (updated_user u) = ⊥
Follows p (deleted k n) = ⊥
Follows p _ = Unit

Follows-mild : (p : StatusPhase) (e : Event) → IsMild e → Follows p e
Follows-mild p (updated_dev d) h = elim h [ ]
Follows-mild p (updated_user u) h = elim h [ ]
Follows-mild p (deleted k n) h = elim h [ ]
Follows-mild p _ h = tt

abbrev pub IsAt : StatusPhase → RhpamDev → Type 0
IsAt p r = r.status.phase ≡ p

module _ ⦃env : Env⦄ where
  store_result-Follows :
      (p q : StatusPhase) (r : RhpamDev) → p ⟶ q → IsAt q r → Emits (Follows p) (store_result r)
  unfolding store_result
  store_result-Follows p q r edge at =
      let here : p ⟶ r.status.phase = rw at edge in search emits_rules

  handle_result-Follows :
      (p q : StatusPhase) (m : Action RhpamDev)
      → p ⟶ q
      → Emits (Follows p) m
      → Returns (IsAt q) m
      → Emits (Follows p) (handle_result m)
  unfolding handle_result
  handle_result-Follows p q m edge km rm =
      Emits-handle_with (IsAt q) m _ _ km rm (λ r at. store_result-Follows p q r edge at)
        (λ e. Emits-pure _)

  pub initialize-IsAt : (r : RhpamDev) → Returns (IsAt accepted) (initialize r)
  unfolding initialize
  initialize-IsAt r = search returns_rules depth 7

  pub provision_realm-IsAt : (r : RhpamDev) → Returns (IsAt realm_provisioned) (provision_realm r)
  unfolding provision_realm
  provision_realm-IsAt r = search returns_rules depth 14

  pub prepare_phase-IsAt : (r : RhpamDev) → Returns (IsAt prepared) (prepare_phase r)
  unfolding prepare_phase
  prepare_phase-IsAt r = search returns_rules

  pub install_database-IsAt :
      (r : RhpamDev) → Returns (IsAt database_installed) (install_database r)
  unfolding install_database
  install_database-IsAt r = search returns_rules depth 9

  pub install_business_central-IsAt :
      (r : RhpamDev) → Returns (IsAt business_central_installed) (install_business_central r)
  unfolding install_business_central
  install_business_central-IsAt r = search returns_rules

  pub install_kie_server-IsAt : (r : RhpamDev) → Returns (IsAt complete) (install_kie_server r)
  unfolding install_kie_server
  install_kie_server-IsAt r = search returns_rules

  -- When the database is ready, the object that is stored is in the next phase.
  abbrev pub IsReadyAt : Bool × RhpamDev → Type 0
  IsReadyAt (true, r) = IsAt database_ready r
  IsReadyAt (false, r) = Unit

  pub wait_for_database-IsReadyAt : (r : RhpamDev) → Returns IsReadyAt (wait_for_database r)
  unfolding wait_for_database
  wait_for_database-IsReadyAt r = Returns-bind _ _ λ ready. Returns-pure _ (ready_at ready)
    where
      ready_at : (ready : Bool) → IsReadyAt (ready, (if ready then enter database_ready r else r))
      ready_at true = refl
      ready_at false = tt

  stored-Follows :
      (r : Bool × RhpamDev)
      → IsReadyAt r
      → Emits
          (Follows business_central_installed)
          (if r.0 then store_result r.1 else pure (record { requeue = true; error = none }))
  stored-Follows (true, r) at = store_result-Follows _ database_ready r database_up at
  stored-Follows (false, r) at = Emits-pure _

  reconcile_waiting-Follows :
      (r : RhpamDev) → Emits (Follows business_central_installed) (reconcile_waiting r)
  unfolding reconcile_waiting
  reconcile_waiting-Follows r =
      Emits-handle_with IsReadyAt _ _ _ (Emits-mono _ (Follows-mild _) (wait_for_database-IsMild r))
        (wait_for_database-IsReadyAt r) stored-Follows (λ e. Emits-pure _)

  provision_realm-Follows : (r : RhpamDev) → Emits (Follows accepted) (provision_realm r)
  unfolding provision_realm
  provision_realm-Follows r =
      Emits-bind _ _ (search (emits_rules, begin_realm))
        λ stored. Emits-mono _ (Follows-mild _) (provision-IsMild stored)

  -- In phase `p`, every update of the RhpamDev object that the controller sends takes `p` along an
  -- edge of the diagram, and no RhpamUser is updated and nothing is deleted.
  pub reconcile_phase-Follows :
      (p : StatusPhase) (r : RhpamDev) → Emits (Follows p) (reconcile_phase p r)
  unfolding reconcile_phase
  reconcile_phase-Follows no_phase r =
      handle_result-Follows _ accepted _ start (Emits-mono _ (Follows-mild _) (initialize-IsMild r))
        (initialize-IsAt r)
  reconcile_phase-Follows accepted r =
      handle_result-Follows _ realm_provisioned _ finish_realm (provision_realm-Follows r)
        (provision_realm-IsAt r)
  reconcile_phase-Follows prepare r =
      handle_result-Follows _ prepared _ finish_prepare
        (Emits-mono _ (Follows-mild _) (prepare_phase-IsMild r)) (prepare_phase-IsAt r)
  reconcile_phase-Follows prepared r =
      handle_result-Follows _ database_installed _ finish_database
        (Emits-mono _ (Follows-mild _) (install_database-IsMild r)) (install_database-IsAt r)
  reconcile_phase-Follows database_installed r =
      handle_result-Follows _ business_central_installed _ finish_business_central
        (Emits-mono _ (Follows-mild _) (install_business_central-IsMild r))
        (install_business_central-IsAt r)
  reconcile_phase-Follows business_central_installed r = reconcile_waiting-Follows r
  reconcile_phase-Follows database_ready r =
      handle_result-Follows _ complete _ finish_kie_server
        (Emits-mono _ (Follows-mild _) (install_kie_server-IsMild r)) (install_kie_server-IsAt r)
  reconcile_phase-Follows _ r = Emits-pure _
