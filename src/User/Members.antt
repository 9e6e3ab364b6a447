-- ===== src/User/Members.antt =====
-- pkg/controller/rhpamuser/phaseHandler.go: creating and deleting one role, user or role mapping.
use rhpam_dev_operator.Base.{String, List, [], ◌∷◌, contains, if◌then◌else◌}
use rhpam_dev_operator.Api.{User}
use rhpam_dev_operator.Env.{Env}
use rhpam_dev_operator.Effect.{Action, pure, handle, map_error, for_each, ◌>>=◌, ◌>>◌}
use rhpam_dev_operator.Keycloak.Types.{KeycloakRole}
use rhpam_dev_operator.Keycloak.Interface.{KeycloakInterface}
use rhpam_dev_operator.Keycloak.Template.{
  load_role_template, load_user_template, load_user_role_template,
}

unfoldable pub role_names : List KeycloakRole → List String
role_names [] = []
role_names (r ∷ roles) = r.name ∷ role_names roles

module _ ⦃env : Env⦄ where
  -- `GetRole` answers, or the role is created.
  unfoldable pub create_role : KeycloakInterface → String → String → Action (Unit {0})
  create_role sso realm role =
      handle (sso.get_role role realm) (λ _. pure tt)
        (λ _. do
          json ← load_role_template (record { role_name = role })
          map_error (λ e. env.wrap e "Error creating role in rhsso") (sso.create_role json realm))

  unfoldable pub create_user : KeycloakInterface → String → String → String → Action (Unit {0})
  create_user sso realm username password =
      handle (sso.find_user_by_username username realm) (λ _. pure tt)
        (λ _. do
          json ← load_user_template (record { username = username; password = password })
          map_error (λ e. env.wrap e "Error creating user in rhsso") (sso.create_user json realm))

  unfoldable pub delete_user : KeycloakInterface → String → String → Action (Unit {0})
  delete_user sso realm username =
      handle (sso.find_user_by_username username realm)
        (λ user.
          map_error (λ e. env.wrap e "Error deleting user in rhsso")
            (sso.delete_user user.id realm))
        (λ _. pure tt)

  -- `json, err := userRoleHelper.LoadUserRoleTemplate(userRoleParams)`, the error not looked at.
  unfoldable pub user_role_json : String → KeycloakRole → Action String
  user_role_json rolename role =
      handle (load_user_role_template (record { role_name = rolename; role_id = role.id })) pure
        (λ _. pure "")

  -- `roleMap` is used as a set of names.
  unfoldable pub create_user_realm_role :
      KeycloakInterface → String → String → String → Action (Unit {0})
  unfolding role_names user_role_json
  create_user_realm_role sso realm username rolename = do
    user ← sso.find_user_by_username username realm
    mappings ← sso.get_realm_role_mappings user.id realm
    if contains (role_names mappings) rolename then pure tt else (do
      role ← sso.get_role rolename realm
      json ← user_role_json rolename role
      map_error (λ e. env.wrap e "Error creating userrole in rhsso")
          (sso.create_user_realm_role json user.id realm))

  unfoldable pub delete_user_realm_role :
      KeycloakInterface → String → String → String → Action (Unit {0})
  unfolding role_names user_role_json
  delete_user_realm_role sso realm username rolename = do
    user ← sso.find_user_by_username username realm
    mappings ← sso.get_realm_role_mappings user.id realm
    if contains (role_names mappings) rolename
        then (do
          role ← sso.get_role rolename realm
          json ← user_role_json rolename role
          map_error (λ e. env.wrap e "Error creating userrole in rhsso")
              (sso.delete_user_realm_role json user.id realm))
        else pure tt

  unfoldable pub create_user_with_realm_roles :
      KeycloakInterface → String → User → Action (Unit {0})
  unfolding create_user create_user_realm_role
  create_user_with_realm_roles sso realm user = do
    create_user sso realm user.username user.password
    for_each (create_user_realm_role sso realm user.username) user.roles
