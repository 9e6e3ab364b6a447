-- ===== src/Dev/Realm.antt =====
-- `ProvisionRealm` of pkg/controller/rhpamdev/phaseHandler.go, and what only it calls.
use rhpam_dev_operator.Base.{String, ◌<>◌, ◌==◌, List, [], ◌∷◌, if◌then◌else◌}
use rhpam_dev_operator.Api.{RhpamDev, realm_provisioning, realm_provisioned}
use rhpam_dev_operator.Env.{Env}
use rhpam_dev_operator.Effect.{Action, pure, handle, map_error, ◌>>=◌, ◌>>◌}
use rhpam_dev_operator.Cluster.{update_rhpamdev}
use rhpam_dev_operator.Common.{authenticated_client}
use rhpam_dev_operator.Keycloak.Types.{KeycloakClient}
use rhpam_dev_operator.Keycloak.Interface.{KeycloakInterface}
use rhpam_dev_operator.Keycloak.Template.{
  RealmClientParameters, load_realm_template, load_realm_client_template,
}
use rhpam_dev_operator.Dev.Names.{
  rhpam_version, business_central_deployment, kie_server_deployment, business_central_realm_secret,
  kie_server_realm_secret,
}
use rhpam_dev_operator.Dev.Token.{generate_token}
use rhpam_dev_operator.Dev.Resources.{create_secret}

unfoldable pub root_url : RhpamDev → String → String
root_url rhpam deployment =
    "https://" <> deployment <> "-" <> rhpam.metadata.namespace <> "." <> rhpam.spec.domain

-- The parameters that the three clients have in common.
unfoldable pub client_parameters : String → String → String → String → RealmClientParameters
client_parameters client_id url bearer_only public_client = record {
  client_id = client_id;
  root_url = url;
  admin_url = url;
  redirect_uris = "\"" <> url <> "/*\"";
  web_origin = "\"" <> url <> "\"";
  bearer_only = bearer_only;
  implicit_flow_enabled = "false";
  direct_acess_grant_enabled = "true";
  public_client = public_client;
}

unfoldable pub bc_parameters : RhpamDev → RealmClientParameters
unfolding client_parameters root_url
bc_parameters rhpam =
    client_parameters "rhpambc" (root_url rhpam business_central_deployment) "false" "false"

unfoldable pub ks_parameters : RhpamDev → RealmClientParameters
unfolding client_parameters root_url
ks_parameters rhpam =
    client_parameters "rhpamks" (root_url rhpam kie_server_deployment) "true" "false"

unfoldable pub ksd_parameters : RhpamDev → RealmClientParameters
unfolding client_parameters root_url
ksd_parameters rhpam =
    client_parameters "rhpamks-direct" (root_url rhpam kie_server_deployment) "false" "true"

-- The loop of `getClientSecret`: the first client with the id, or none, which is the empty text.
unfoldable pub client_key : List KeycloakClient → String → String
client_key [] client_id = ""
client_key (c ∷ clients) client_id =
    if c.api.client_id == client_id then c.api.id else client_key clients client_id

module _ ⦃env : Env⦄ where
  unfoldable pub get_client_secret : KeycloakInterface → String → String → Action String
  unfolding client_key
  get_client_secret sso realm client_id = do
    clients ← sso.list_clients realm
    sso.get_client_secret (client_key clients client_id) realm

  unfoldable pub create_realm_secret :
      RhpamDev → String → String → String → String → String → Action (Unit {0})
  unfolding create_secret
  create_realm_secret rhpam secret url realm client client_secret = create_secret rhpam secret (
      ("sso-url", url)
      ∷ ("realm", realm)
      ∷ ("client", client)
      ∷ ("client-secret", client_secret)
      ∷ [])

  unfoldable pub create_realm_client :
      KeycloakInterface → String → RealmClientParameters → Action (Unit {0})
  create_realm_client sso realm parameters = do
    json ← load_realm_client_template parameters
    map_error (λ e. env.wrap e "Error creating realm in rhsso") (sso.create_client json realm)

  -- The secret with a client's credentials, for the server that logs in as that client.
  unfoldable pub share_client_secret :
      KeycloakInterface → RhpamDev → String → String → String → String → Action (Unit {0})
  unfolding get_client_secret create_realm_secret
  share_client_secret sso rhpam admin_url realm secret client = do
    client_secret ← get_client_secret sso realm client
    create_realm_secret rhpam secret (admin_url <> "/auth") realm client client_secret

  -- What follows the first status update.
  unfoldable pub provision : RhpamDev → Action RhpamDev
  unfolding create_realm_client share_client_secret bc_parameters ks_parameters ksd_parameters
  provision rhpam = do
    (sso, factory) ← authenticated_client
    token ← generate_token 6
    let realm = rhpam.metadata.name <> "-" <> token
    json ← load_realm_template (record { realm_id = realm })
    map_error (λ e. env.wrap e "Error creating realm in rhsso") (sso.create_realm json)
    create_realm_client sso realm (bc_parameters rhpam)
    create_realm_client sso realm (ks_parameters rhpam)
    create_realm_client sso realm (ksd_parameters rhpam)
    share_client_secret sso rhpam factory.admin_url realm business_central_realm_secret "rhpambc"
    share_client_secret sso rhpam factory.admin_url realm kie_server_realm_secret "rhpamks"
    pure (record rhpam {
      status = record { phase = realm_provisioned; version = rhpam_version; realm = realm };
    })

  -- `ph.client.Update(context.TODO(), rhpam)` with its error dropped.
  unfoldable pub store_dev : RhpamDev → Action RhpamDev
  store_dev rhpam = handle (update_rhpamdev rhpam) pure (λ _. pure rhpam)

  unfoldable pub provision_realm : RhpamDev → Action RhpamDev
  unfolding store_dev provision
  provision_realm rhpam = do
    stored ←
        store_dev (record rhpam { status = record (rhpam.status) { phase = realm_provisioning } })
    provision stored
