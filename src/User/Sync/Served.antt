-- ===== src/User/Sync/Served.antt =====
-- `reconcileRoles` of pkg/controller/rhpamuser/phaseHandler.go with the client of
-- pkg/keycloak/keycloakclient.go, against the REST API of Keycloak.
use rhpam_dev_operator.Base.{String, ◌≡◌, true, contains}
use rhpam_dev_operator.Api.{RhpamUser}
use rhpam_dev_operator.Env.{Env}
use rhpam_dev_operator.Effect.Achieves.{Achieves}
use rhpam_dev_operator.Keycloak.Http.{Client}
use rhpam_dev_operator.Keycloak.Client.{keycloak}
use rhpam_dev_operator.Keycloak.Server.Rest.{RoleRest, client_server}
use rhpam_dev_operator.User.Sync.{spec_role_names, reconcile_roles}
use rhpam_dev_operator.User.Sync.Visits.{VisitsOnce}
use rhpam_dev_operator.User.Sync.Roles.{wanted, reconcile_roles_lem}

module _ ⦃env : Env⦄ (c : Client) (realm : String) (rest : RoleRest c realm) where
  open rest use {has, plain}

  -- Where Keycloak answers the requests for roles as its REST API says, the role template renders,
  -- and all names can stand in a URL, the run over HTTP succeeds, and the realm then has the roles of
  -- the spec and the default roles that it had, and no other, for every order in which Go visits the
  -- pairs.
  pub reconcile_roles-keycloak :
      (user : RhpamUser) (s : env.State)
      → user.status.realm ≡ realm
      → VisitsOnce has
      → ((x : String) → has s x ≡ true → plain x ≡ true)
      → ((x : String) → contains (spec_role_names user.spec.roles) x ≡ true → plain x ≡ true)
      → Achieves
          (reconcile_roles (keycloak c) user)
          s
          (λ _ s'. (x : String) → has s' x ≡ wanted (spec_role_names user.spec.roles) (has s) x)
  unfolding client_server
  reconcile_roles-keycloak user s =
      reconcile_roles_lem (keycloak c) realm (client_server c realm rest) user s
