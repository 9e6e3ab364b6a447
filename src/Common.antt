-- ===== src/Common.antt =====
-- pkg/controller/common/utils.go, and `readSSOSecret` and `authenticatedClient` of both phase
-- handlers, which are the same text. The factory's fields are read only after they are written in
-- the same call, so they are passed on as a value.
pub mod Access
use rhpam_dev_operator.Base.{String, ◌<>◌, ◌==◌, lookup, if◌then◌else◌}
use rhpam_dev_operator.Api.{ObjectMeta}
use rhpam_dev_operator.Objects.{Secret}
use rhpam_dev_operator.Env.{Env}
use rhpam_dev_operator.Effect.{Action, pure, fail, lift, map_error, ◌>>=◌}
use rhpam_dev_operator.Cluster.{get_secret}
use rhpam_dev_operator.Keycloak.Interface.{KeycloakInterface}
use rhpam_dev_operator.Keycloak.Client.{KeycloakFactory, text_or_empty}
use rhpam_dev_operator.Keycloak.Client

module _ ⦃env : Env⦄ where
  unfoldable pub secret_error : String → String → env.Error → env.Error
  secret_error secret namespace e =
      let place = secret <> " in namespace " <> namespace in
      if env.is_not_found e
      then env.new_error ("Secret " <> place <> " not found: " <> env.error_text e)
      else env.new_error ("Error retrieving secret " <> place <> ": " <> env.error_text e)

  unfoldable pub read_sso_secret : Action Secret
  unfolding secret_error
  read_sso_secret =
      let namespace = env.getenv "SSO_NAMESPACE" in
      let name = env.getenv "SSO_ADMIN_CREDENTIALS_SECRET" in
      if namespace == ""
      then fail (env.new_error "Environment variable SSO_NAMESPACE is not set.")
      else if name == ""
      then fail (env.new_error "Environment variable SSO_ADMIN_CREDENTIALS_SECRET is not set.")
      else map_error (secret_error name namespace)
          (get_secret (record { namespace = namespace; name = name }))

  unfoldable pub add_finalizer : ObjectMeta → String → Action ObjectMeta
  add_finalizer metadata value = do
    accessor ← lift (env.accessor metadata)
    pure (record accessor { finalizers = env.sets_insert accessor.finalizers value })

  unfoldable pub sso_factory : Secret → KeycloakFactory
  unfolding text_or_empty
  sso_factory secret = record {
    admin_user = text_or_empty (lookup "SSO_ADMIN_USERNAME" secret.contents);
    admin_password = text_or_empty (lookup "SSO_ADMIN_PASSWORD" secret.contents);
    admin_url = text_or_empty (lookup "SSO_ADMIN_URL" secret.contents);
  }

  unfoldable pub authenticated_client : Action (KeycloakInterface × KeycloakFactory)
  unfolding read_sso_secret sso_factory Client.authenticated_client
  authenticated_client = do
    secret ← read_sso_secret
    sso ← Client.authenticated_client (sso_factory secret)
    pure (sso, sso_factory secret)
