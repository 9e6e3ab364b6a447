-- ===== src/User/Phases.antt =====
-- The phase methods of pkg/controller/rhpamuser/phaseHandler.go.
use rhpam_dev_operator.Base.{String, not, List, [], ◌∷◌, if◌then◌else◌}
use rhpam_dev_operator.Api.{
  RhpamDev, RhpamUser, rhpam_finalizer, same_phase, accepted, complete, deprovisioned, prepare,
  realm_provisioned, reconcile,
}
use rhpam_dev_operator.Env.{Env}
use rhpam_dev_operator.Effect.{Action, pure, handle, ignore, map_error, for_each, ◌>>=◌, ◌>>◌}
use rhpam_dev_operator.Cluster.{list_rhpamdevs, update_rhpamdev}
use rhpam_dev_operator.Common.{add_finalizer, authenticated_client}
use rhpam_dev_operator.Keycloak.Types.{KeycloakUser, KeycloakRole}
use rhpam_dev_operator.Keycloak.Interface.{KeycloakInterface}
use rhpam_dev_operator.User.Defaults.{
  default_roles, default_users, is_default_role, is_default_user,
}
use rhpam_dev_operator.User.Members.{create_role, create_user_with_realm_roles}
use rhpam_dev_operator.User.Sync.{reconcile_roles, reconcile_users}

-- `rhpamuser.Status.Phase = PhaseReconcile; rhpamuser.Status.Realm = rhpamdev.Status.Realm`
unfoldable pub join_realm : RhpamDev → RhpamUser → RhpamUser
join_realm dev user = record user {
  status = record { phase = reconcile; realm = dev.status.realm };
}

module _ ⦃env : Env⦄ where
  unfoldable pub initialize : RhpamUser → Action RhpamUser
  initialize user = do
    metadata ← add_finalizer user.metadata rhpam_finalizer
    pure (record user { metadata = metadata; status = record (user.status) { phase = accepted } })

  -- The roles and users that a new realm starts with. The body of the loop over the users is
  -- `createUserWithRealmRoles`, written out in the source.
  unfoldable pub create_defaults : KeycloakInterface → String → Action (Unit {0})
  create_defaults sso realm = do
    for_each (create_role sso realm) default_roles
    for_each (create_user_with_realm_roles sso realm) default_users

  unfoldable pub seed_realm : RhpamDev → RhpamUser → Action RhpamUser
  unfolding create_defaults join_realm
  seed_realm dev user = do
    (sso, _) ← authenticated_client
    create_defaults sso dev.status.realm
    ignore (update_rhpamdev (record dev { status = record (dev.status) { phase = prepare } }))
    pure (join_realm dev user)

  -- The body of the loop over the RhpamDev objects.
  unfoldable pub accept_dev : RhpamDev → RhpamUser → Action RhpamUser
  unfolding seed_realm join_realm
  accept_dev dev user =
      let user' = if same_phase dev.status.phase complete then join_realm dev user else user in
      if same_phase dev.status.phase realm_provisioned then seed_realm dev user' else pure user'

  unfoldable pub accept_devs : List RhpamDev → RhpamUser → Action RhpamUser
  unfolding accept_dev
  accept_devs [] user = pure user
  accept_devs (dev ∷ devs) user = do joined ← accept_dev dev user; accept_devs devs joined

  unfoldable pub accepted_phase : RhpamUser → Action RhpamUser
  unfolding accept_devs
  accepted_phase user = do devs ← list_rhpamdevs user.metadata.namespace; accept_devs devs user

  unfoldable pub reconcile_user_phase : RhpamUser → Action RhpamUser
  reconcile_user_phase user = do
    (sso, _) ← authenticated_client
    reconcile_roles sso user
    reconcile_users sso user
    pure user

  unfoldable pub remove_user : KeycloakInterface → String → KeycloakUser → Action (Unit {0})
  unfolding is_default_user
  remove_user sso realm user =
      if not (is_default_user user.api.user_name)
      then map_error (λ e. env.wrap e "Error deleting user in rhsso")
          (sso.delete_user user.api.id realm)
      else pure tt

  unfoldable pub remove_role : KeycloakInterface → String → KeycloakRole → Action (Unit {0})
  unfolding is_default_role
  remove_role sso realm role =
      if not (is_default_role role.name)
      then map_error (λ e. env.wrap e "Error deleting role in rhsso")
          (sso.delete_role role.name realm)
      else pure tt

  -- The error of `ListRoles` is not looked at: its list is then nil.
  unfoldable pub deprovision : RhpamUser → Action RhpamUser
  unfolding remove_user remove_role
  deprovision user = do
    (sso, _) ← authenticated_client
    let realm = user.status.realm
    users ← sso.list_users realm
    for_each (remove_user sso realm) users
    roles ← handle (sso.list_roles realm) pure (λ _. pure [])
    for_each (remove_role sso realm) roles
    pure (record user { status = record (user.status) { phase = deprovisioned } })
