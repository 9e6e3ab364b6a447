-- ===== src/Dev/Phases.antt =====
-- The phase methods of pkg/controller/rhpamdev/phaseHandler.go, but for `ProvisionRealm` and
-- `Deprovision`.
use rhpam_dev_operator.Base.{◌<>◌, Bool, [], ◌∷◌, if◌then◌else◌, same_nat}
use rhpam_dev_operator.Api.{
  StatusPhase, RhpamDev, accepted, prepared, database_installed, business_central_installed,
  database_ready, complete, rhpam_finalizer, defaults, validate,
}
use rhpam_dev_operator.Env.{Env}
use rhpam_dev_operator.Effect.{Action, pure, fail_some, map_error, ◌>>=◌, ◌>>◌}
use rhpam_dev_operator.Cluster.{get_deployment_config}
use rhpam_dev_operator.Common.{add_finalizer}
use rhpam_dev_operator.Dev.Names.{
  rhpam_version, database_name, database_deployment, database_credentials_secret,
  database_init_configmap,
}
use rhpam_dev_operator.Dev.Token.{generate_token}
use rhpam_dev_operator.Dev.Configmap.{
  new_configmap_helper, configmap_data, init_configmap_resources,
}
use rhpam_dev_operator.Dev.Resources.{
  create_resources, create_secret, create_configmap, in_namespace_of, service_account_resource,
  database_pvc_resource, database_service_resource, database_deployment_config_resource,
  business_central_pvc_resource, business_central_service_resource, business_central_route_resource,
  business_central_deployment_resource, kie_server_service_resource, kie_server_route_resource,
  kie_server_deployment_resource,
}

-- `rhpam.Status.Phase = phase; rhpam.Status.Version = RhpamVersion`
unfoldable pub enter : StatusPhase → RhpamDev → RhpamDev
enter phase rhpam = record rhpam {
  status = record (rhpam.status) { phase = phase; version = rhpam_version };
}

module _ ⦃env : Env⦄ where
  unfoldable pub initialize : RhpamDev → Action RhpamDev
  unfolding enter defaults validate
  initialize rhpam = do
    metadata ← add_finalizer rhpam.metadata rhpam_finalizer
    let filled = defaults (record rhpam { metadata = metadata })
    fail_some (validate filled)
    pure (enter accepted filled)

  unfoldable pub prepare_phase : RhpamDev → Action RhpamDev
  unfolding enter
  prepare_phase rhpam = do
    create_resources rhpam (service_account_resource ∷ [])
    pure (enter prepared rhpam)

  unfoldable pub install_database : RhpamDev → Action RhpamDev
  unfolding enter
  install_database rhpam = do
    suffix ← generate_token 4
    password ← generate_token 10
    create_secret rhpam database_credentials_secret (
        ("database-user", "user" <> suffix)
        ∷ ("database-password", password)
        ∷ ("database-name", database_name)
        ∷ [])
    contents ← configmap_data new_configmap_helper init_configmap_resources
    create_configmap rhpam database_init_configmap contents
    create_resources rhpam (
        database_pvc_resource ∷ database_service_resource ∷ database_deployment_config_resource
        ∷ [])
    pure (enter database_installed rhpam)

  unfoldable pub install_business_central : RhpamDev → Action RhpamDev
  unfolding enter
  install_business_central rhpam = do
    create_resources rhpam (
        business_central_pvc_resource ∷ business_central_service_resource
        ∷ business_central_route_resource ∷ business_central_deployment_resource ∷ [])
    pure (enter business_central_installed rhpam)

  unfoldable pub is_database_ready : RhpamDev → Action Bool
  is_database_ready cr = do
    dc ← get_deployment_config (in_namespace_of cr database_deployment)
    pure (same_nat dc.ready_replicas 1)

  unfoldable pub wait_for_database : RhpamDev → Action (Bool × RhpamDev)
  unfolding is_database_ready enter
  wait_for_database rhpam = do
    ready ←
        map_error (λ e. env.new_error ("Error checking for database : " <> env.error_text e))
          (is_database_ready rhpam)
    pure (ready, if ready then enter database_ready rhpam else rhpam)

  unfoldable pub install_kie_server : RhpamDev → Action RhpamDev
  unfolding enter
  install_kie_server rhpam = do
    create_resources rhpam (
        kie_server_service_resource ∷ kie_server_route_resource ∷ kie_server_deployment_resource
        ∷ [])
    pure (enter complete rhpam)
