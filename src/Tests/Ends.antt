-- ===== src/Tests/Ends.antt =====
-- Deletions of the two objects, and a run that moves an object on.
use rhpam_dev_operator.Base.{◌≡◌, refl, true, [], ◌∷◌}
use rhpam_dev_operator.Api.{
  RhpamUser, no_phase, accepted, complete, prepare, business_central_installed, deprovisioned,
}
use rhpam_dev_operator.Effect.{for_each, ◌>>=◌}
use rhpam_dev_operator.Keycloak.Http as Http
use rhpam_dev_operator.Keycloak.Client.{delete_realm, list_users, list_roles, delete_role}
use rhpam_dev_operator.Common.{add_finalizer, authenticated_client}
use rhpam_dev_operator.Dev.Deprovision.{deprovision}
use rhpam_dev_operator.Dev.Phases.{wait_for_database}
use rhpam_dev_operator.Dev.Reconcile as Dev
use rhpam_dev_operator.Dev.Progress.{dev_updates}
use rhpam_dev_operator.Dev.Advance.{Advanced, reconcile_phase-advances}
use rhpam_dev_operator.Dev.Deletion.{released, dev_updates-reconcile_deleted}
use rhpam_dev_operator.User.Phases as User
use rhpam_dev_operator.User.Reconcile as UserReconcile
use rhpam_dev_operator.User.Advance.{Moved, reconcile_phase-moves}
use rhpam_dev_operator.User.Deletion.{user_updates, in_phase, reconcile_deleted_lem}
use rhpam_dev_operator.Tests.World.{world, metadata, dev_in}

abbrev user : RhpamUser
user = record {
  metadata = metadata;
  spec = record { roles = []; users = [] };
  status = record { phase = accepted; realm = "realm-1" };
}

dev_updates-reconcile_deleted_example :
    dev_updates (Dev.reconcile_deleted ⦃env = world⦄ (dev_in prepare) 0).events
    ≡ released (dev_in prepare) ∷ []
unfolding deprovision authenticated_client delete_realm Http.delete for_each ◌>>=◌
dev_updates-reconcile_deleted_example =
    dev_updates-reconcile_deleted ⦃env = world⦄ (dev_in prepare) 0

reconcile_deleted_lem_example :
    user_updates (UserReconcile.reconcile_deleted ⦃env = world⦄ complete user 0).events
    ≡ in_phase deprovisioned user ∷ []
unfolding User.deprovision authenticated_client list_users list_roles for_each ◌>>=◌ Http.list
    delete_role Http.delete
reconcile_deleted_lem_example = reconcile_deleted_lem ⦃env = world⦄ user complete 0

reconcile_phase-advances_example :
    (true ≡ true)
    × Advanced business_central_installed true (
        dev_updates
          (Dev.reconcile_phase ⦃env = world⦄ business_central_installed
            (dev_in business_central_installed)
            0).events)
unfolding Dev.reconcile_phase wait_for_database ◌>>=◌
reconcile_phase-advances_example =
    reconcile_phase-advances ⦃env = world⦄ business_central_installed
      (dev_in business_central_installed) 0 refl

abbrev fresh_user : RhpamUser
fresh_user = record user { status = record (user.status) { phase = no_phase } }

reconcile_phase-moves_example :
    (true ≡ true)
    × Moved no_phase
        (user_updates (UserReconcile.reconcile_phase ⦃env = world⦄ no_phase fresh_user 0).events)
unfolding UserReconcile.reconcile_phase User.initialize add_finalizer ◌>>=◌
reconcile_phase-moves_example = reconcile_phase-moves ⦃env = world⦄ no_phase fresh_user 0 refl refl
