-- ===== src/User/Sync/Mapped.antt =====
-- `reconcileUserRealmRoles` of pkg/controller/rhpamuser/phaseHandler.go with the client of
-- pkg/keycloak/keycloakclient.go, against the REST API of Keycloak.
use rhpam_dev_operator.Base.{String, ◌≡◌, true, contains}
use rhpam_dev_operator.Env.{Env}
use rhpam_dev_operator.Effect.Achieves.{Achieves}
use rhpam_dev_operator.Keycloak.Types.{KeycloakUser}
use rhpam_dev_operator.Keycloak.Http.{Client}
use rhpam_dev_operator.Keycloak.Client.{keycloak}
use rhpam_dev_operator.Keycloak.Server.MappingRest.{MappingRest, mapping_server}
use rhpam_dev_operator.User.Sync.{reconcile_user_roles}
use rhpam_dev_operator.User.Sync.Visits.{VisitsOnce}
use rhpam_dev_operator.User.Sync.Mappings.{reconcile_user_roles_lem}

module _ ⦃env : Env⦄ (c : Client) (realm username : String)
    (rest : MappingRest c realm username) where
  open rest use {has, plain}

  -- Where Keycloak answers the requests for a user's roles as its REST API says, the search for the
  -- user's name has that user first, the template renders, the roles read are those that the user
  -- has, and all names can stand in a URL and are roles of the realm, the run over HTTP succeeds, and
  -- the user then has exactly the roles of the spec, for every order in which Go visits the pairs.
  pub reconcile_user_roles-keycloak :
      (kc spec : KeycloakUser) (s : env.State)
      → kc.api.user_name ≡ username
      → ((x : String) → contains kc.api.realm_roles x ≡ has s x)
      → VisitsOnce has
      → ((x : String) → has s x ≡ true → plain x ≡ true)
      → ((x : String) → contains spec.api.realm_roles x ≡ true → plain x ≡ true)
      → Achieves
          (reconcile_user_roles (keycloak c) realm kc spec)
          s
          (λ _ s'. (x : String) → has s' x ≡ contains spec.api.realm_roles x)
  unfolding mapping_server
  reconcile_user_roles-keycloak kc spec s =
      reconcile_user_roles_lem (keycloak c) realm username (mapping_server c realm username rest) kc
        spec s
