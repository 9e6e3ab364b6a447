-- ===== src/Keycloak/Template.antt =====
-- pkg/keycloak/templateHelper.go and the helpers that load one template each.
use rhpam_dev_operator.Base.{String, ◌<>◌, ◌==◌, ◌∷◌, [], Dict, if◌then◌else◌}
use rhpam_dev_operator.Env.{Env}
use rhpam_dev_operator.Effect.{Action, lift, ◌>>=◌}

pub record RealmParameters : Type 0 where
  pub realm_id : String

pub record RealmClientParameters : Type 0 where
  pub client_id : String
  pub root_url : String
  pub admin_url : String
  pub redirect_uris : String
  pub web_origin : String
  pub bearer_only : String
  pub implicit_flow_enabled : String
  pub direct_acess_grant_enabled : String
  pub public_client : String

pub record RoleParameters : Type 0 where
  pub role_name : String

pub record UserParameters : Type 0 where
  pub username : String
  pub password : String

pub record UserRoleParameters : Type 0 where
  pub role_name : String
  pub role_id : String

-- A template reads its data's fields by their Go names.
unfoldable pub realm_fields : RealmParameters → Dict String
realm_fields p = ("RealmId", p.realm_id) ∷ []

unfoldable pub realm_client_fields : RealmClientParameters → Dict String
realm_client_fields p =
    ("ClientId", p.client_id)
    ∷ ("RootUrl", p.root_url)
    ∷ ("AdminUrl", p.admin_url)
    ∷ ("RedirectUris", p.redirect_uris)
    ∷ ("WebOrigin", p.web_origin)
    ∷ ("BearerOnly", p.bearer_only)
    ∷ ("ImplicitFlowEnabled", p.implicit_flow_enabled)
    ∷ ("DirectAcessGrantEnabled", p.direct_acess_grant_enabled)
    ∷ ("PublicClient", p.public_client)
    ∷ []

unfoldable pub role_fields : RoleParameters → Dict String
role_fields p = ("RoleName", p.role_name) ∷ []

unfoldable pub user_fields : UserParameters → Dict String
user_fields p = ("Username", p.username) ∷ ("Password", p.password) ∷ []

unfoldable pub user_role_fields : UserRoleParameters → Dict String
user_role_fields p = ("RoleName", p.role_name) ∷ ("RoleId", p.role_id) ∷ []

module _ ⦃env : Env⦄ where
  unfoldable pub template_path : String
  template_path =
      let path = env.getenv "TEMPLATE_PATH" in if path == "" then "./templates/rhsso" else path

  unfoldable pub load_template : String → String → Dict String → Action String
  load_template name path fields = do
    tpl ← lift (env.read_file (path <> "/" <> name <> ".json"))
    parsed ← lift (env.parse_template tpl)
    lift (env.execute_template parsed fields)

  unfoldable pub load_realm_template : RealmParameters → Action String
  unfolding load_template template_path realm_fields
  load_realm_template p = load_template "realm" template_path (realm_fields p)

  unfoldable pub load_realm_client_template : RealmClientParameters → Action String
  unfolding load_template template_path realm_client_fields
  load_realm_client_template p = load_template "realm-client" template_path (realm_client_fields p)

  unfoldable pub load_role_template : RoleParameters → Action String
  unfolding load_template template_path role_fields
  load_role_template p = load_template "role" template_path (role_fields p)

  unfoldable pub load_user_template : UserParameters → Action String
  unfolding load_template template_path user_fields
  load_user_template p = load_template "user" template_path (user_fields p)

  unfoldable pub load_user_role_template : UserRoleParameters → Action String
  unfolding load_template template_path user_role_fields
  load_user_role_template p = load_template "user-role" template_path (user_role_fields p)
