-- ===== src/Dev/Deprovision.antt =====
-- `Deprovision` of pkg/controller/rhpamdev/phaseHandler.go.
pub mod Assets
pub mod Deletions
use rhpam_dev_operator.Base.{String, ◌==◌, List, [], ◌∷◌, if◌then◌else◌}
use rhpam_dev_operator.Api.{RhpamDev, RhpamUser, deprovisioned}
use rhpam_dev_operator.Objects.{
  Kind, configmap, deployment_config, persistent_volume_claim, route, secret, service,
  service_account,
}
use rhpam_dev_operator.Env.{Env}
use rhpam_dev_operator.Effect.{Action, pure, ignore, map_error, for_each, ◌>>=◌, ◌>>◌}
use rhpam_dev_operator.Cluster.{list_rhpamusers, update_rhpamuser, delete}
use rhpam_dev_operator.Common.{authenticated_client}
use rhpam_dev_operator.Dev.Names.{
  business_central_deployment, business_central_pvc, business_central_realm_secret,
  business_central_route, business_central_service, database_credentials_secret,
  database_deployment, database_init_configmap, database_pvc, database_service,
  kie_server_deployment, kie_server_realm_secret, kie_server_route,
}
use rhpam_dev_operator.Dev.Names
use rhpam_dev_operator.Dev.Resources.{in_namespace_of}

-- What is deleted, in order. The first entry is the variable `ksService` of the source.
abbrev pub assets : List (Kind × String)
assets =
    (service, business_central_service)
    ∷ (route, kie_server_route)
    ∷ (deployment_config, kie_server_deployment)
    ∷ (service, business_central_service)
    ∷ (route, business_central_route)
    ∷ (deployment_config, business_central_deployment)
    ∷ (persistent_volume_claim, business_central_pvc)
    ∷ (service, database_service)
    ∷ (deployment_config, database_deployment)
    ∷ (persistent_volume_claim, database_pvc)
    ∷ (configmap, database_init_configmap)
    ∷ (secret, database_credentials_secret)
    ∷ (secret, kie_server_realm_secret)
    ∷ (secret, business_central_realm_secret)
    ∷ (service_account, Names.service_account)
    ∷ []

module _ ⦃env : Env⦄ where
  unfoldable pub deprovision_user : RhpamDev → RhpamUser → Action (Unit {0})
  deprovision_user rhpam user =
      if rhpam.status.realm == user.status.realm
      then ignore (
          update_rhpamuser
            (record user { status = record (user.status) { phase = deprovisioned } }))
      else pure tt

  unfoldable pub delete_asset : RhpamDev → Kind × String → Action (Unit {0})
  delete_asset rhpam (kind, name) = ignore (delete kind (in_namespace_of rhpam name))

  unfoldable pub deprovision : RhpamDev → Action RhpamDev
  unfolding deprovision_user delete_asset
  deprovision rhpam = do
    (sso, _) ← authenticated_client
    map_error (λ e. env.wrap e "Error deleting realm in rhsso")
        (sso.delete_realm rhpam.status.realm)
    users ← list_rhpamusers rhpam.metadata.namespace
    for_each (deprovision_user rhpam) users
    for_each (delete_asset rhpam) assets
    pure (record rhpam { status = record (rhpam.status) { phase = deprovisioned } })
