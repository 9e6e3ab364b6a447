-- ===== src/User/Reconcile.antt =====
-- `Reconcile` and `handleResult` of pkg/controller/rhpamuser/rhpamuser_controller.go. `DeepCopy` is
-- the value itself: the copy is changed, and the original is not read again.
use rhpam_dev_operator.Base.{◌==◌, Bool, true, false, Option, none, some, [], if◌then◌else◌}
use rhpam_dev_operator.Api.{
  StatusPhase, RhpamUser, no_phase, accepted, complete, deprovisioned, deprovision_failed,
  reconcile,
}
use rhpam_dev_operator.Env.{Env}
use rhpam_dev_operator.Effect.{Action, pure, lift, handle, ignore, ◌>>◌}
use rhpam_dev_operator.Cluster.{ReconcileRequest, Reconciled, get_rhpamuser, update_rhpamuser}
use rhpam_dev_operator.User.Phases.{initialize, accepted_phase, reconcile_user_phase, deprovision}

module _ ⦃env : Env⦄ where
  -- `return reconcile.Result{Requeue: requeue}, err`
  abbrev pub return : Bool → Option env.Error → Action (Reconciled env.Error)
  return requeue error = pure (record { requeue = requeue; error = error })

  unfoldable pub store_result : Bool → RhpamUser → Action (Reconciled env.Error)
  store_result requeue user =
      handle (update_rhpamuser user) (λ _. return requeue none) (λ e. return requeue (some e))

  unfoldable pub handle_result : Bool → Action RhpamUser → Action (Reconciled env.Error)
  unfolding store_result
  handle_result requeue m = handle m (store_result requeue) (λ e. return false (some e))

  -- The second half of a deletion: the finalizers go.
  unfoldable pub release : RhpamUser → Action (Reconciled env.Error)
  unfolding store_result
  release user = store_result false (record user {
    metadata = record (user.metadata) { finalizers = [] };
    status = record (user.status) { phase = complete };
  })

  -- The first half. `Deprovision` returns the object that it was given together with its error.
  unfoldable pub remove : RhpamUser → Action (Reconciled env.Error)
  unfolding store_result
  remove user = handle (deprovision user) (store_result true) (λ e. do
    ignore (
        update_rhpamuser
          (record user { status = record (user.status) { phase = deprovision_failed } }))
    return false (some e))

  unfoldable pub reconcile_deleted : StatusPhase → RhpamUser → Action (Reconciled env.Error)
  unfolding release remove
  reconcile_deleted deprovisioned user = release user
  reconcile_deleted _ user = remove user

  -- The `switch` on the phase; the phases with no case of their own fall through.
  unfoldable pub reconcile_phase : StatusPhase → RhpamUser → Action (Reconciled env.Error)
  unfolding handle_result
  reconcile_phase no_phase user = handle_result true (initialize user)
  reconcile_phase accepted user = handle_result true (accepted_phase user)
  reconcile_phase reconcile user = handle_result false (reconcile_user_phase user)
  reconcile_phase _ user = return false none

  unfoldable pub reconcile_found : RhpamUser → Action (Reconciled env.Error)
  unfolding reconcile_deleted reconcile_phase
  reconcile_found user = elim (user.metadata.deletion_timestamp) [
    | some _ ↦ reconcile_deleted user.status.phase user
    | none ↦ reconcile_phase user.status.phase user
  ]

  unfoldable pub reconcile_user : ReconcileRequest → Action (Reconciled env.Error)
  unfolding reconcile_found
  reconcile_user request =
      handle (lift env.watch_namespace)
        (λ namespace.
          if namespace == request.namespace
          then handle (get_rhpamuser request) reconcile_found
              (λ e. if env.is_not_found e then return false none else return false (some e))
          else return false none)
        (λ _. return false none)
