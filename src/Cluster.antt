-- ===== src/Cluster.antt =====
-- The calls of `client.Client`, each with the event that it is.
use rhpam_dev_operator.Base.{String, Bool, Option, List}
use rhpam_dev_operator.Api.{NamespacedName, RhpamDev, RhpamUser}
use rhpam_dev_operator.Objects.{
  Secret, ConfigMap, Object, DeploymentConfig, Kind, got, listed, created_secret, created_configmap,
  created_object, updated_dev, updated_user, deleted,
}
use rhpam_dev_operator.Env.{Env}
use rhpam_dev_operator.Effect.{Action, call}

-- `reconcile.Request`, and `reconcile.Result` with the error that is returned beside it.
abbrev pub ReconcileRequest : Type 0
ReconcileRequest = NamespacedName

pub record Reconciled (E : Type 0) : Type 0 where
  pub requeue : Bool
  pub error : Option E

module _ ⦃env : Env⦄ where
  abbrev pub get_rhpamdev : NamespacedName → Action RhpamDev
  get_rhpamdev n = call (got Kind.rhpam_dev n) (env.get_rhpamdev n)

  abbrev pub get_rhpamuser : NamespacedName → Action RhpamUser
  get_rhpamuser n = call (got Kind.rhpam_user n) (env.get_rhpamuser n)

  abbrev pub get_secret : NamespacedName → Action Secret
  get_secret n = call (got Kind.secret n) (env.get_secret n)

  abbrev pub get_configmap : NamespacedName → Action ConfigMap
  get_configmap n = call (got Kind.configmap n) (env.get_configmap n)

  abbrev pub get_deployment_config : NamespacedName → Action DeploymentConfig
  get_deployment_config n = call (got Kind.deployment_config n) (env.get_deployment_config n)

  abbrev pub get_object : String → NamespacedName → Action Object
  get_object kind n = call (got Kind.unstructured n) (env.get_object kind n)

  abbrev pub list_rhpamdevs : String → Action (List RhpamDev)
  list_rhpamdevs namespace = call (listed Kind.rhpam_dev namespace) (env.list_rhpamdevs namespace)

  abbrev pub list_rhpamusers : String → Action (List RhpamUser)
  list_rhpamusers namespace =
      call (listed Kind.rhpam_user namespace) (env.list_rhpamusers namespace)

  abbrev pub create_secret : Secret → Action (Unit {0})
  create_secret x = call (created_secret x) (env.create_secret x)

  abbrev pub create_configmap : ConfigMap → Action (Unit {0})
  create_configmap x = call (created_configmap x) (env.create_configmap x)

  abbrev pub create_object : Object → Action (Unit {0})
  create_object x = call (created_object x) (env.create_object x)

  abbrev pub delete : Kind → NamespacedName → Action (Unit {0})
  delete kind n = call (deleted kind n) (env.delete kind n)

  abbrev pub update_rhpamdev : RhpamDev → Action RhpamDev
  update_rhpamdev x = call (updated_dev x) (env.update_rhpamdev x)

  abbrev pub update_rhpamuser : RhpamUser → Action RhpamUser
  update_rhpamuser x = call (updated_user x) (env.update_rhpamuser x)
