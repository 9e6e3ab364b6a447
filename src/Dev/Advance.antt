-- ===== src/Dev/Advance.antt =====
-- The phases move on: pkg/controller/rhpamdev/rhpamdev_controller.go and phaseHandler.go.
use rhpam_dev_operator.Base.{
  same_nat, ◌≡◌, refl, All, append-nil, ◌∙◌, Bool, true, false, none, some, List, [], ◌∷◌, ◌++◌,
  arith, if◌then◌else◌,
}
use rhpam_dev_operator.Api.{
  StatusPhase, RhpamDev, no_phase, accepted, realm_provisioned, prepare, prepared,
  database_installed, business_central_installed, database_ready, complete,
}
use rhpam_dev_operator.Objects.{Event, DeploymentConfig}
use rhpam_dev_operator.Dev.Names.{database_deployment}
use rhpam_dev_operator.Dev.Resources.{in_namespace_of}
use rhpam_dev_operator.Env.{Env, Result, ok, err, panic}
use rhpam_dev_operator.Effect.{Action, proceed, handle, ◌>>=◌}
use rhpam_dev_operator.Effect.Returns.{Holds, Returns}
use rhpam_dev_operator.Cluster.{Reconciled}
use rhpam_dev_operator.Common.Access.{IsMild}
use rhpam_dev_operator.Dev.Progress.{
  dev_updates, dev_updates-append, dev_updates_of_mild, dev_updates-store_result,
}
use rhpam_dev_operator.Dev.Mildness.{wait_for_database-IsMild}
use rhpam_dev_operator.Dev.Phases.{wait_for_database}
use rhpam_dev_operator.Dev.Reconcile.{
  return, store_result, handle_result, reconcile_waiting, reconcile_phase,
}
use rhpam_dev_operator.Dev.Graph.{
  IsAt, IsReadyAt, initialize-IsAt, provision_realm-IsAt, prepare_phase-IsAt, install_database-IsAt,
  install_business_central-IsAt, wait_for_database-IsReadyAt, install_kie_server-IsAt,
}

-- The phase after a phase that has a handler; another actor ends the other phases.
abbrev pub next : StatusPhase → StatusPhase
next no_phase = accepted
next accepted = realm_provisioned
next prepare = prepared
next prepared = database_installed
next database_installed = business_central_installed
next business_central_installed = database_ready
next database_ready = complete
next p = p

abbrev pub has_handler : StatusPhase → Bool
has_handler no_phase = true
has_handler accepted = true
has_handler prepare = true
has_handler prepared = true
has_handler database_installed = true
has_handler business_central_installed = true
has_handler database_ready = true
has_handler p = false

-- The phase that the last of the updates stores.
abbrev pub last_phase : StatusPhase → List RhpamDev → StatusPhase
last_phase p [] = p
last_phase p (d ∷ ds) = last_phase d.status.phase ds

last_phase-append :
    (p : StatusPhase) (ds : List RhpamDev) (d : RhpamDev)
    → last_phase p (ds ++ (d ∷ [])) ≡ d.status.phase
last_phase-append p [] d = refl
last_phase-append p (x ∷ ds) d = last_phase-append x.status.phase ds d

-- Whether the deployment of the database, as the cluster answered for it, has its one replica.
abbrev pub is_up : {E : Type 0} → Result E DeploymentConfig → Bool
is_up (ok dc) = same_nat dc.ready_replicas 1
is_up _ = false

-- The stored object is one phase further; but while the database is awaited, nothing is stored.
abbrev pub Advanced : StatusPhase → Bool → List RhpamDev → Type 0
Advanced business_central_installed false ds = ds ≡ []
Advanced p up ds = last_phase p ds ≡ next p

module _ ⦃env : Env⦄ where
  store_result-requeue :
      (d : RhpamDev) (s : env.State) {requeue : Bool}
      → (store_result d s).result ≡ ok (record { requeue = requeue; error = none })
      → requeue ≡ true
  unfolding store_result ◌>>=◌
  store_result-requeue d s {requeue} e = ground arith

  stored_phase :
      (p : StatusPhase) (es : List Event) (d : RhpamDev) (s : env.State)
      → last_phase p (dev_updates (es ++ (store_result d s).events)) ≡ d.status.phase
  stored_phase p es d s =
      rw (dev_updates-append es (store_result d s).events, dev_updates-store_result d s)
        (last_phase-append p (dev_updates es) d)

  proceed-advances :
      (p q : StatusPhase) (r : Result env.Error RhpamDev) (s : env.State) (es : List Event)
      {requeue : Bool}
      → Holds (IsAt q) r
      → let o = proceed store_result (λ e. return false (some e)) r s es in
        o.result ≡ ok (record { requeue = requeue; error = none })
        → (requeue ≡ true) × (last_phase p (dev_updates o.events) ≡ q)
  unfolding ◌>>=◌
  proceed-advances p q (ok d) s es h e = (store_result-requeue d s e, stored_phase p es d s ∙ h)
  proceed-advances p q (err x) s es {requeue} h e = ground arith
  proceed-advances p q (panic m) s es {requeue} h e = ground arith

  handle_result-advances :
      (p : StatusPhase) (m : Action RhpamDev) (s : env.State) {requeue : Bool}
      → Returns (IsAt (next p)) m
      → (handle_result m s).result ≡ ok (record { requeue = requeue; error = none })
      → (requeue ≡ true) × (last_phase p (dev_updates (handle_result m s).events) ≡ next p)
  unfolding handle_result handle
  handle_result-advances p m s rm e =
      proceed-advances p (next p) (m s).result (m s).state (m s).events (rm.at s) e

  -- The answer for the deployment of the database.
  abbrev pub asked : RhpamDev → env.State → Result env.Error DeploymentConfig
  asked d s = (env.get_deployment_config (in_namespace_of d database_deployment) s).0

  -- What follows the look at the database.
  abbrev after_wait : Bool × RhpamDev → Action (Reconciled env.Error)
  after_wait (ready, d) = if ready then store_result d else return true none

  -- The first part of a result says whether the database is up.
  abbrev Tells : Bool → Bool × RhpamDev → Type 0
  Tells up (ready, d) = ready ≡ up

  wait_for_database-Tells :
      (d : RhpamDev) (s : env.State)
      → Holds (Tells (is_up (asked d s))) (wait_for_database d s).result
  unfolding wait_for_database ◌>>=◌
  wait_for_database-Tells d s = ground arith

  waiting-advances :
      (up : Bool) (r : Result env.Error (Bool × RhpamDev)) (s : env.State) (es : List Event)
      {requeue : Bool}
      → Holds IsReadyAt r
      → Holds (Tells up) r
      → All IsMild es
      → let o = proceed after_wait (λ e. return false (some e)) r s es in
        o.result ≡ ok (record { requeue = requeue; error = none })
        → (requeue ≡ true) × Advanced business_central_installed up (dev_updates o.events)
  unfolding ◌>>=◌
  waiting-advances true (ok (true, d)) s es h told mild e =
      (store_result-requeue d s e, stored_phase business_central_installed es d s ∙ h)
  waiting-advances false (ok (false, d)) s es {requeue} h told mild e =
      (ground arith, rw (append-nil es) (dev_updates_of_mild es mild))
  waiting-advances true (ok (false, d)) s es {requeue} h told mild e = ground arith
  waiting-advances false (ok (true, d)) s es {requeue} h told mild e = ground arith
  waiting-advances up (err x) s es {requeue} h told mild e = ground arith
  waiting-advances up (panic m) s es {requeue} h told mild e = ground arith

  reconcile_waiting-advances :
      (d : RhpamDev) (s : env.State) {requeue : Bool}
      → (reconcile_waiting d s).result ≡ ok (record { requeue = requeue; error = none })
      → (requeue ≡ true)
        × Advanced business_central_installed
            (is_up (asked d s))
            (dev_updates (reconcile_waiting d s).events)
  unfolding reconcile_waiting handle
  reconcile_waiting-advances d s e =
      let o = wait_for_database d s in
      waiting-advances (is_up (asked d s)) o.result o.state o.events
        ((wait_for_database-IsReadyAt d).at s) (wait_for_database-Tells d s)
        ((wait_for_database-IsMild d).at s) e

  -- Where a run of the phase switch ends without an error, it asks for another run exactly in the
  -- phases that have a handler. In the phase `business central installed`, it has then stored the
  -- phase `database ready` if the deployment of the database has one ready replica, and has sent no
  -- update if not. In the other phases with a handler, the last update is one phase further; in a
  -- phase without one, the next phase is the phase itself.
  pub reconcile_phase-advances :
      (p : StatusPhase) (d : RhpamDev) (s : env.State) {requeue : Bool}
      → (reconcile_phase p d s).result ≡ ok (record { requeue = requeue; error = none })
      → (requeue ≡ has_handler p)
        × Advanced p (is_up (asked d s)) (dev_updates (reconcile_phase p d s).events)
  unfolding reconcile_phase ◌>>=◌
  reconcile_phase-advances no_phase d s e = handle_result-advances _ _ s (initialize-IsAt d) e
  reconcile_phase-advances accepted d s e = handle_result-advances _ _ s (provision_realm-IsAt d) e
  reconcile_phase-advances prepare d s e = handle_result-advances _ _ s (prepare_phase-IsAt d) e
  reconcile_phase-advances prepared d s e = handle_result-advances _ _ s (install_database-IsAt d) e
  reconcile_phase-advances database_installed d s e =
      handle_result-advances _ _ s (install_business_central-IsAt d) e
  reconcile_phase-advances business_central_installed d s e = reconcile_waiting-advances d s e
  reconcile_phase-advances database_ready d s e =
      handle_result-advances _ _ s (install_kie_server-IsAt d) e
  reconcile_phase-advances _ d s {requeue} e = (ground arith, refl)
