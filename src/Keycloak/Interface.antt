-- ===== src/Keycloak/Interface.antt =====
-- `KeycloakInterface` of pkg/keycloak/keycloakclient.go, which the phase handlers call.
use rhpam_dev_operator.Base.{String, List}
use rhpam_dev_operator.Env.{Env}
use rhpam_dev_operator.Effect.{Action}
use rhpam_dev_operator.Keycloak.Types.{KeycloakClient, KeycloakApiUser, KeycloakUser, KeycloakRole}

pub record KeycloakInterface ⦃env : Env⦄ : Type 0 where
  pub create_realm : String → Action (Unit {0})
  pub delete_realm : String → Action (Unit {0})
  pub create_client : String → String → Action (Unit {0})
  pub get_client_secret : String → String → Action String
  pub list_clients : String → Action (List KeycloakClient)
  pub create_user : String → String → Action (Unit {0})
  pub find_user_by_username : String → String → Action KeycloakApiUser
  pub get_user : String → String → Action KeycloakUser
  pub list_users : String → Action (List KeycloakUser)
  pub delete_user : String → String → Action (Unit {0})
  pub create_role : String → String → Action (Unit {0})
  pub get_role : String → String → Action KeycloakRole
  pub list_roles : String → Action (List KeycloakRole)
  pub delete_role : String → String → Action (Unit {0})
  pub get_realm_role_mappings : String → String → Action (List KeycloakRole)
  pub create_user_realm_role : String → String → String → Action (Unit {0})
  pub delete_user_realm_role : String → String → String → Action (Unit {0})
