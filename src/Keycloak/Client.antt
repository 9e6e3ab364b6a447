-- ===== src/Keycloak/Client.antt =====
-- pkg/keycloak/keycloakclient.go: the methods of `Client`, and the login of a new one.
pub mod Users
use rhpam_dev_operator.Base.{
  String, ◌<>◌, ◌==◌, false, Option, none, some, List, [], ◌∷◌, lookup, if◌then◌else◌,
}
use rhpam_dev_operator.Objects.{Request, closed}
use rhpam_dev_operator.Env.{Env, Result, ok, err, panic}
use rhpam_dev_operator.Effect.{Action, pure, fail, lift, handle, map_error, deferred, ◌>>=◌}
use rhpam_dev_operator.Keycloak.Types.{KeycloakClient, KeycloakApiUser, KeycloakUser, KeycloakRole}
use rhpam_dev_operator.Keycloak.Http.{
  Client, create, get, delete, delete_with_body, list, new_request, perform, read_body,
}
use rhpam_dev_operator.Keycloak.Interface.{KeycloakInterface}

-- `&KeycloakApiUser{}`
unfoldable pub no_user : KeycloakApiUser
no_user = record {
  id = "";
  user_name = "";
  first_name = "";
  last_name = "";
  email = "";
  email_verified = false;
  enabled = false;
  realm_roles = [];
  client_roles = [];
  required_actions = [];
  groups = [];
}

unfoldable pub first_user : List KeycloakApiUser → KeycloakApiUser
unfolding no_user
first_user [] = no_user
first_user (u ∷ _) = u

-- `res["value"]`: the zero value where the key is missing.
unfoldable pub text_or_empty : Option String → String
text_or_empty none = ""
text_or_empty (some text) = text

pub record KeycloakFactory : Type 0 where
  pub admin_user : String
  pub admin_password : String
  pub admin_url : String

abbrev pub auth_url : String
auth_url = "auth/realms/master/protocol/openid-connect/token"

abbrev pub map_result : {E A B : Type 0} → (A → B) → Result E A → Result E B
map_result f (ok a) = ok (f a)
map_result f (err e) = err e
map_result f (panic m) = panic m

module _ ⦃env : Env⦄ where
  unfoldable pub create_realm : Client → String → Action (Unit {0})
  create_realm c json = create c json "realms" "realm" 201

  unfoldable pub create_client : Client → String → String → Action (Unit {0})
  create_client c json realm = create c json ("realms/" <> realm <> "/clients") "client" 201

  unfoldable pub create_role : Client → String → String → Action (Unit {0})
  create_role c json realm = create c json ("realms/" <> realm <> "/roles") "role" 201

  unfoldable pub create_user : Client → String → String → Action (Unit {0})
  create_user c json realm = create c json ("realms/" <> realm <> "/users") "user" 201

  unfoldable pub create_user_realm_role : Client → String → String → String → Action (Unit {0})
  create_user_realm_role c json user realm =
      create c json ("realms/" <> realm <> "/users/" <> user <> "/role-mappings/realm") "user-role"
        204

  unfoldable pub find_user_by_username : Client → String → String → Action KeycloakApiUser
  unfolding first_user
  find_user_by_username c name realm = do
    user ←
        get c ("realms/" <> realm <> "/users?username=" <> name) "user"
          (λ body. map_result first_user (env.unmarshal_api_users body))
    if user.id == "" then fail (env.new_error "Not Found") else pure user

  unfoldable pub get_client_secret : Client → String → String → Action String
  unfolding text_or_empty
  get_client_secret c client_id realm =
      let path = "realms/" <> realm <> "/clients/" <> client_id <> "/client-secret" in
      map_error (λ e. env.wrap e ("failed to get: " <> path))
        (get c path "client-secret" (λ body.
          map_result (λ res. text_or_empty (lookup "value" res)) (env.unmarshal_texts body)))

  -- `result.(*KeycloakApiUser)` is evaluated before the error is looked at.
  unfoldable pub get_user : Client → String → String → Action KeycloakUser
  get_user c user_id realm =
      handle (get c ("realms/" <> realm <> "/users/" <> user_id) "user" env.unmarshal_api_user)
        (λ user. pure (record { api = user; output_secret = none; password = none }))
        (λ _. lift (panic "interface conversion: keycloak.T is nil, not *keycloak.KeycloakApiUser"))

  unfoldable pub get_role : Client → String → String → Action KeycloakRole
  get_role c role realm =
      let path = "realms/" <> realm <> "/roles/" <> role in
      map_error (λ e. env.wrap e ("failed to get: " <> path)) (get c path "role" env.unmarshal_role)

  unfoldable pub get_realm_role_mappings : Client → String → String → Action (List KeycloakRole)
  get_realm_role_mappings c user realm =
      get c ("realms/" <> realm <> "/users/" <> user <> "/role-mappings/realm") "role-mapping"
        env.unmarshal_roles

  unfoldable pub delete_realm : Client → String → Action (Unit {0})
  delete_realm c realm = delete c ("realms/" <> realm) "realm"

  unfoldable pub delete_user : Client → String → String → Action (Unit {0})
  delete_user c user_id realm = delete c ("realms/" <> realm <> "/users/" <> user_id) "user"

  unfoldable pub delete_role : Client → String → String → Action (Unit {0})
  delete_role c role realm = delete c ("realms/" <> realm <> "/roles/" <> role) "role"

  unfoldable pub delete_user_realm_role : Client → String → String → String → Action (Unit {0})
  delete_user_realm_role c json user realm =
      delete_with_body c json ("realms/" <> realm <> "/users/" <> user <> "/role-mappings/realm")
        "user-role"

  unfoldable pub list_clients : Client → String → Action (List KeycloakClient)
  list_clients c realm = list c ("realms/" <> realm <> "/clients") "clients" env.unmarshal_clients

  unfoldable pub list_users : Client → String → Action (List KeycloakUser)
  list_users c realm = list c ("realms/" <> realm <> "/users") "users" env.unmarshal_users

  unfoldable pub list_roles : Client → String → Action (List KeycloakRole)
  list_roles c realm = list c ("realms/" <> realm <> "/roles") "roles" env.unmarshal_roles

  unfoldable pub login_request : Client → String → String → Request
  login_request c user pass = record {
    method = "POST";
    url = c.url <> "/" <> auth_url;
    headers = ("Content-Type", "application/x-www-form-urlencoded") ∷ [];
    body = env.form_encode (
        ("username", user)
        ∷ ("password", pass)
        ∷ ("client_id", "admin-cli")
        ∷ ("grant_type", "password")
        ∷ []);
  }

  -- The new client has the token of the answer; its status is not looked at.
  unfoldable pub login : Client → String → String → Action Client
  unfolding login_request new_request perform read_body
  login c user pass = do
    req ← new_request (login_request c user pass) "error creating login request"
    res ← perform req "error performing token request"
    deferred (closed res.stream) (do
      body ← read_body res "error reading token response"
      token ←
          map_error (λ e. env.wrap e "error parsing token response")
            (lift (env.unmarshal_token body))
      if token.error == ""
          then pure (record c { token = token.access_token })
          else fail (env.new_error token.error_description))

  unfoldable pub keycloak : Client → KeycloakInterface
  keycloak c = record {
    create_realm = create_realm c;
    delete_realm = delete_realm c;
    create_client = create_client c;
    get_client_secret = get_client_secret c;
    list_clients = list_clients c;
    create_user = create_user c;
    find_user_by_username = find_user_by_username c;
    get_user = get_user c;
    list_users = list_users c;
    delete_user = delete_user c;
    create_role = create_role c;
    get_role = get_role c;
    list_roles = list_roles c;
    delete_role = delete_role c;
    get_realm_role_mappings = get_realm_role_mappings c;
    create_user_realm_role = create_user_realm_role c;
    delete_user_realm_role = delete_user_realm_role c;
  }

  unfoldable pub authenticated_client : KeycloakFactory → Action KeycloakInterface
  unfolding login keycloak
  authenticated_client kf = do
    c ← login (record { url = kf.admin_url; token = "" }) kf.admin_user kf.admin_password
    pure (keycloak c)
