-- ===== src/Dev/Resources.antt =====
-- pkg/controller/rhpamdev/resourceHelper.go, and the methods of phaseHandler.go that create one
-- object unless it is there. A `Get` that fails leaves its target as it was.
pub mod Creation
pub mod Server
use rhpam_dev_operator.Base.{String, ◌<>◌, List, [], ◌∷◌, Dict, none, if◌then◌else◌}
use rhpam_dev_operator.Api.{ObjectMeta, NamespacedName, RhpamDev}
use rhpam_dev_operator.Objects.{Object}
use rhpam_dev_operator.Env.{Env}
use rhpam_dev_operator.Effect.{Action, pure, fail, lift, handle, map_error, for_each, ◌>>=◌}
use rhpam_dev_operator.Cluster
use rhpam_dev_operator.Cluster.{get_object, create_object, get_secret, get_configmap}
use rhpam_dev_operator.Dev.Names.{
  application_name, service_account, database_pvc, database_service, database_deployment,
  business_central_deployment, business_central_service, business_central_route,
  business_central_pvc, kie_server_route, kie_server_service, kie_server_deployment,
}
use rhpam_dev_operator.Dev.Template.{new_template_helper, load_template}

pub record Resource : Type 0 where
  pub name : String
  pub template : String

abbrev pub service_account_resource : Resource
service_account_resource = record { name = service_account; template = "rhpamdev-service-account" }

abbrev pub database_pvc_resource : Resource
database_pvc_resource = record { name = database_pvc; template = "rhpamdev-postgresql-pvc" }

abbrev pub database_service_resource : Resource
database_service_resource = record {
  name = database_service;
  template = "rhpamdev-postgresql-service";
}

abbrev pub database_deployment_config_resource : Resource
database_deployment_config_resource = record {
  name = database_deployment;
  template = "rhpamdev-postgresql-dc";
}

abbrev pub business_central_deployment_resource : Resource
business_central_deployment_resource = record {
  name = business_central_deployment;
  template = "rhpamdev-bc-dc";
}

abbrev pub business_central_service_resource : Resource
business_central_service_resource = record {
  name = business_central_service;
  template = "rhpamdev-bc-service";
}

abbrev pub business_central_route_resource : Resource
business_central_route_resource = record {
  name = business_central_route;
  template = "rhpamdev-bc-route";
}

abbrev pub business_central_pvc_resource : Resource
business_central_pvc_resource = record { name = business_central_pvc; template = "rhpamdev-bc-pvc" }

abbrev pub kie_server_route_resource : Resource
kie_server_route_resource = record { name = kie_server_route; template = "rhpamdev-ks-route" }

abbrev pub kie_server_service_resource : Resource
kie_server_service_resource = record { name = kie_server_service; template = "rhpamdev-ks-service" }

abbrev pub kie_server_deployment_resource : Resource
kie_server_deployment_resource = record {
  name = kie_server_deployment;
  template = "rhpamdev-ks-dc";
}

abbrev pub in_namespace_of : RhpamDev → String → NamespacedName
in_namespace_of cr name = record { namespace = cr.metadata.namespace; name = name }

-- The metadata that `createSecret` and `createConfigmap` start from.
abbrev pub labelled : RhpamDev → String → ObjectMeta
labelled cr name = record {
  name = name;
  namespace = cr.metadata.namespace;
  labels = ("app", application_name) ∷ [];
  finalizers = [];
  owners = [];
  deletion_timestamp = none;
  resource_version = "";
}

module _ ⦃env : Env⦄ where
  -- `ResourceHelper.createResource`
  unfoldable pub load_object : RhpamDev → Resource → Action Object
  unfolding new_template_helper load_template
  load_object cr res = do
    tpl ← load_template (new_template_helper cr) res.template
    lift (env.unmarshal_object tpl)

  -- What `createResource` does once `Get` has failed with `e`.
  unfoldable pub create_missing : RhpamDev → Resource → Object → env.Error → Action (Unit {0})
  create_missing cr res object e =
      if env.is_not_found e
      then (do
        metadata ←
            map_error
              (λ e.
                env.new_error ("Error setting the custom resource as owner: " <> env.error_text e))
              (lift (env.set_controller_reference cr object.metadata))
        map_error (λ e. env.new_error ("Error creating resource: " <> env.error_text e))
            (create_object (record object { metadata = metadata })))
      else fail
          (env.new_error ("Error reading resource '" <> res.name <> "': " <> env.error_text e))

  unfoldable pub create_resource : RhpamDev → Resource → Action (Unit {0})
  unfolding load_object create_missing
  create_resource cr res = do
    object ←
        map_error (λ e. env.new_error ("Error parsing templates: " <> env.error_text e))
          (load_object cr res)
    handle (get_object object.kind (in_namespace_of cr res.name)) (λ _. pure tt)
        (create_missing cr res object)

  unfoldable pub create_resources : RhpamDev → List Resource → Action (Unit {0})
  unfolding create_resource
  create_resources cr resources = for_each (create_resource cr) resources

  unfoldable pub create_secret : RhpamDev → String → Dict String → Action (Unit {0})
  create_secret cr name contents =
      let create = λ (metadata : ObjectMeta).
        Cluster.create_secret
          (record { metadata = metadata; contents = contents; type = "Opaque" }) in
      handle (get_secret (in_namespace_of cr name)) (λ _. pure tt)
        (λ _.
          handle (lift (env.set_controller_reference cr (labelled cr name))) create
            (λ _. create (labelled cr name)))

  unfoldable pub create_configmap : RhpamDev → String → Dict String → Action (Unit {0})
  create_configmap cr name contents =
      let create = λ (metadata : ObjectMeta).
        Cluster.create_configmap (record { metadata = metadata; contents = contents }) in
      handle (get_configmap (in_namespace_of cr name)) (λ _. pure tt)
        (λ _.
          handle (lift (env.set_controller_reference cr (labelled cr name))) create
            (λ _. create (labelled cr name)))
