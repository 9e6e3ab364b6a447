-- ===== src/Dev/Reconcile.antt =====
-- `Reconcile` and `handleResult` of pkg/controller/rhpamdev/rhpamdev_controller.go. `DeepCopy` is
-- the value itself: the copy is changed, and the original is not read again.
use rhpam_dev_operator.Base.{◌==◌, Bool, true, false, Option, none, some, [], if◌then◌else◌}
use rhpam_dev_operator.Api.{
  StatusPhase, RhpamDev, no_phase, accepted, prepare, prepared, database_installed,
  business_central_installed, database_ready,
}
use rhpam_dev_operator.Env.{Env}
use rhpam_dev_operator.Effect.{Action, pure, lift, handle, ◌>>=◌}
use rhpam_dev_operator.Cluster.{ReconcileRequest, Reconciled, get_rhpamdev, update_rhpamdev}
use rhpam_dev_operator.Dev.Realm.{provision_realm}
use rhpam_dev_operator.Dev.Phases.{
  initialize, prepare_phase, install_database, install_business_central, wait_for_database,
  install_kie_server,
}
use rhpam_dev_operator.Dev.Deprovision.{deprovision}

module _ ⦃env : Env⦄ where
  -- `return reconcile.Result{Requeue: requeue}, err`
  abbrev pub return : Bool → Option env.Error → Action (Reconciled env.Error)
  return requeue error = pure (record { requeue = requeue; error = error })

  unfoldable pub store_result : RhpamDev → Action (Reconciled env.Error)
  store_result rhpam =
      handle (update_rhpamdev rhpam) (λ _. return true none) (λ e. return true (some e))

  unfoldable pub handle_result : Action RhpamDev → Action (Reconciled env.Error)
  unfolding store_result
  handle_result m = handle m store_result (λ e. return false (some e))

  unfoldable pub reconcile_deleted : RhpamDev → Action (Reconciled env.Error)
  unfolding handle_result
  reconcile_deleted rhpam = handle_result (do
    state ← deprovision rhpam
    pure (record state { metadata = record (state.metadata) { finalizers = [] } }))

  unfoldable pub reconcile_waiting : RhpamDev → Action (Reconciled env.Error)
  unfolding store_result
  reconcile_waiting rhpam =
      handle (wait_for_database rhpam)
        (λ (ready, state). if ready then store_result state else return true none)
        (λ e. return false (some e))

  -- The `switch` on the phase; the phases with no case of their own fall through.
  unfoldable pub reconcile_phase : StatusPhase → RhpamDev → Action (Reconciled env.Error)
  unfolding handle_result reconcile_waiting
  reconcile_phase no_phase rhpam = handle_result (initialize rhpam)
  reconcile_phase accepted rhpam = handle_result (provision_realm rhpam)
  reconcile_phase prepare rhpam = handle_result (prepare_phase rhpam)
  reconcile_phase prepared rhpam = handle_result (install_database rhpam)
  reconcile_phase database_installed rhpam = handle_result (install_business_central rhpam)
  reconcile_phase business_central_installed rhpam = reconcile_waiting rhpam
  reconcile_phase database_ready rhpam = handle_result (install_kie_server rhpam)
  reconcile_phase _ rhpam = return false none

  unfoldable pub reconcile_found : RhpamDev → Action (Reconciled env.Error)
  unfolding reconcile_deleted reconcile_phase
  reconcile_found rhpam = elim (rhpam.metadata.deletion_timestamp) [
    | some _ ↦ reconcile_deleted rhpam
    | none ↦ reconcile_phase rhpam.status.phase rhpam
  ]

  unfoldable pub reconcile_dev : ReconcileRequest → Action (Reconciled env.Error)
  unfolding reconcile_found
  reconcile_dev request =
      handle (lift env.watch_namespace)
        (λ namespace.
          if namespace == request.namespace
          then handle (get_rhpamdev request) reconcile_found
              (λ e. if env.is_not_found e then return false none else return false (some e))
          else return false none)
        (λ _. return false none)
