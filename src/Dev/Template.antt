-- ===== src/Dev/Template.antt =====
-- pkg/controller/rhpamdev/templateHelper.go: the parameters of the resource templates.
pub mod Values
use rhpam_dev_operator.Base.{String, ◌<>◌, ◌==◌, ◌∷◌, [], Dict, if◌then◌else◌}
use rhpam_dev_operator.Api.{RhpamDev}
use rhpam_dev_operator.Env.{Env}
use rhpam_dev_operator.Effect.{Action, lift, ◌>>=◌}
use rhpam_dev_operator.Dev.Names.{
  service_account, application_name, database_pvc, database_volume_capacity, database_service,
  database_deployment, database_image, database_credentials_secret, database_max_connections,
  database_shared_buffers, database_max_prepared_transactions, database_memory_limit,
  database_init_configmap, business_central_service, business_central_pvc, business_central_route,
  business_central_deployment, business_central_volume_capacity,
  business_central_image_stream_namespace, business_central_image, business_central_image_tag,
  business_central_cpu_request, business_central_cpu_limit, business_central_memory_request,
  business_central_memory_limit, business_central_gc_max_meta_size, business_central_kie_mbeans,
  business_central_java_opts_append, business_central_realm_secret, kie_server_route,
  kie_server_service, kie_server_deployment, kie_server_image_stream_namespace, kie_server_image,
  kie_server_image_tag, kie_server_cpu_request, kie_server_cpu_limit, kie_server_memory_request,
  kie_server_memory_limit, kie_server_gc_max_meta_size, kie_server_drools_filter_classes,
  kie_server_bypass_auth_user, kie_server_controller_protocol, kie_server_controller_user,
  kie_server_controller_password, kie_server_id, kie_admin_user, kie_admin_password, kie_maven_user,
  kie_maven_password, kie_server_kie_mbeans, kie_server_realm_secret,
}

pub record RhpamdevParameters : Type 0 where
  pub service_account : String
  pub application_name : String
  pub application_namespace : String
  pub postgresql_pvc : String
  pub postgresql_pvc_capacity : String
  pub postgresql_service : String
  pub postgresql_deployment : String
  pub postgresql_image : String
  pub postgresql_secret : String
  pub postgresql_max_connections : String
  pub postgresql_shared_buffers : String
  pub postgresql_max_prepared_transactions : String
  pub postgresql_memory_limit : String
  pub postgresql_init_configmap : String
  pub business_central_service : String
  pub business_central_pvc : String
  pub business_central_route : String
  pub business_central_deployment : String
  pub business_central_volume_capacity : String
  pub business_central_image_stream_namespace : String
  pub business_central_image : String
  pub business_central_image_tag : String
  pub business_central_cpu_request : String
  pub business_central_cpu_limit : String
  pub business_central_memory_request : String
  pub business_central_memory_limit : String
  pub business_central_gc_max_meta_size : String
  pub business_central_kie_mbeans : String
  pub business_central_java_opts_append : String
  pub business_central_realm_secret : String
  pub kie_server_route : String
  pub kie_server_service : String
  pub kie_server_deployment : String
  pub kie_server_image_stream_namespace : String
  pub kie_server_image : String
  pub kie_server_image_tag : String
  pub kie_server_cpu_request : String
  pub kie_server_cpu_limit : String
  pub kie_server_memory_request : String
  pub kie_server_memory_limit : String
  pub kie_server_gc_max_meta_size : String
  pub kie_server_drools_filter_classes : String
  pub kie_server_bypass_auth_user : String
  pub kie_server_controller_protocol : String
  pub kie_server_controller_user : String
  pub kie_server_controller_password : String
  pub kie_server_id : String
  pub kie_admin_user : String
  pub kie_admin_password : String
  pub kie_maven_user : String
  pub kie_maven_password : String
  pub kie_server_kie_mbeans : String
  pub kie_server_realm_secret : String

-- A template reads the parameters by their Go names.
unfoldable pub parameter_fields : RhpamdevParameters → Dict String
parameter_fields p =
    ("ServiceAccount", p.service_account)
    ∷ ("ApplicationName", p.application_name)
    ∷ ("ApplicationNamespace", p.application_namespace)
    ∷ ("PostgresqlPvc", p.postgresql_pvc)
    ∷ ("PostgresqlPvcCapacity", p.postgresql_pvc_capacity)
    ∷ ("PostgresqlService", p.postgresql_service)
    ∷ ("PostgresqlDeployment", p.postgresql_deployment)
    ∷ ("PostgresqlImage", p.postgresql_image)
    ∷ ("PostgresqlSecret", p.postgresql_secret)
    ∷ ("PostgresqlMaxConnections", p.postgresql_max_connections)
    ∷ ("PostgresqlSharedBuffers", p.postgresql_shared_buffers)
    ∷ ("PostgresqlMaxPreparedTransactions", p.postgresql_max_prepared_transactions)
    ∷ ("PostgresqlMemoryLimit", p.postgresql_memory_limit)
    ∷ ("PostgresqlInitConfigmap", p.postgresql_init_configmap)
    ∷ ("BusinessCentralService", p.business_central_service)
    ∷ ("BusinessCentralPvc", p.business_central_pvc)
    ∷ ("BusinessCentralRoute", p.business_central_route)
    ∷ ("BusinessCentralDeployment", p.business_central_deployment)
    ∷ ("BusinessCentralVolumeCapacity", p.business_central_volume_capacity)
    ∷ ("BusinessCentralImageStreamNamespace", p.business_central_image_stream_namespace)
    ∷ ("BusinessCentralImage", p.business_central_image)
    ∷ ("BusinessCentralImageTag", p.business_central_image_tag)
    ∷ ("BusinessCentralCpuRequest", p.business_central_cpu_request)
    ∷ ("BusinessCentralCpuLimit", p.business_central_cpu_limit)
    ∷ ("BusinessCentralMemoryRequest", p.business_central_memory_request)
    ∷ ("BusinessCentralMemoryLimit", p.business_central_memory_limit)
    ∷ ("BusinessCentralGcMaxMetaSize", p.business_central_gc_max_meta_size)
    ∷ ("BusinessCentralKieMBeans", p.business_central_kie_mbeans)
    ∷ ("BusinessCentralJavaOptsAppend", p.business_central_java_opts_append)
    ∷ ("BusinessCentralRealmSecret", p.business_central_realm_secret)
    ∷ ("KieServerRoute", p.kie_server_route)
    ∷ ("KieServerService", p.kie_server_service)
    ∷ ("KieServerDeployment", p.kie_server_deployment)
    ∷ ("KieServerImageStreamNamespace", p.kie_server_image_stream_namespace)
    ∷ ("KieServerImage", p.kie_server_image)
    ∷ ("KieServerImageTag", p.kie_server_image_tag)
    ∷ ("KieServerCpuRequest", p.kie_server_cpu_request)
    ∷ ("KieServerCpuLimit", p.kie_server_cpu_limit)
    ∷ ("KieServerMemoryRequest", p.kie_server_memory_request)
    ∷ ("KieServerMemoryLimit", p.kie_server_memory_limit)
    ∷ ("KieServerGcMaxMetaSize", p.kie_server_gc_max_meta_size)
    ∷ ("KieServerDroolsFilterClasses", p.kie_server_drools_filter_classes)
    ∷ ("KieServerBypassAuthUser", p.kie_server_bypass_auth_user)
    ∷ ("KieServerControllerProtocol", p.kie_server_controller_protocol)
    ∷ ("KieServerControllerUser", p.kie_server_controller_user)
    ∷ ("KieServerControllerPassword", p.kie_server_controller_password)
    ∷ ("KieServerId", p.kie_server_id)
    ∷ ("KieAdminUser", p.kie_admin_user)
    ∷ ("KieAdminPassword", p.kie_admin_password)
    ∷ ("KieMavenUser", p.kie_maven_user)
    ∷ ("KieMavenPassword", p.kie_maven_password)
    ∷ ("KieServerKieMBeans", p.kie_server_kie_mbeans)
    ∷ ("KieServerRealmSecret", p.kie_server_realm_secret)
    ∷ []

unfoldable pub value_or_default : String → String → String
value_or_default value default_value = if value == "" then default_value else value

pub record TemplateHelper : Type 0 where
  pub parameters : RhpamdevParameters
  pub template_path : String

unfoldable pub parameters_of : RhpamDev → RhpamdevParameters
parameters_of rhpam = record {
  service_account = service_account;
  application_name = application_name;
  application_namespace = rhpam.metadata.namespace;
  postgresql_pvc = database_pvc;
  postgresql_pvc_capacity =
      value_or_default database.persistent_volume_capacity database_volume_capacity;
  postgresql_service = database_service;
  postgresql_deployment = database_deployment;
  postgresql_image = database_image;
  postgresql_secret = database_credentials_secret;
  postgresql_max_connections = value_or_default database.max_connections database_max_connections;
  postgresql_shared_buffers = value_or_default database.shared_buffers database_shared_buffers;
  postgresql_max_prepared_transactions =
      value_or_default database.max_prepared_transactions database_max_prepared_transactions;
  postgresql_memory_limit = value_or_default database.memory_limit database_memory_limit;
  postgresql_init_configmap = database_init_configmap;
  business_central_service = business_central_service;
  business_central_pvc = business_central_pvc;
  business_central_route = business_central_route;
  business_central_deployment = business_central_deployment;
  business_central_volume_capacity =
      value_or_default business_central.persistent_volume_capacity business_central_volume_capacity;
  business_central_image_stream_namespace = business_central_image_stream_namespace;
  business_central_image = business_central_image;
  business_central_image_tag = business_central_image_tag;
  business_central_cpu_request =
      value_or_default business_central.cpu_request business_central_cpu_request;
  business_central_cpu_limit =
      value_or_default business_central.cpu_limit business_central_cpu_limit;
  business_central_memory_request =
      value_or_default business_central.memory_request business_central_memory_request;
  business_central_memory_limit =
      value_or_default business_central.memory_limit business_central_memory_limit;
  business_central_gc_max_meta_size =
      value_or_default business_central.gc_max_meta_size business_central_gc_max_meta_size;
  business_central_kie_mbeans =
      value_or_default business_central.kie_mbeans business_central_kie_mbeans;
  business_central_java_opts_append =
      value_or_default business_central.java_opts_append business_central_java_opts_append;
  business_central_realm_secret = business_central_realm_secret;
  kie_server_route = kie_server_route;
  kie_server_service = kie_server_service;
  kie_server_deployment = kie_server_deployment;
  kie_server_image_stream_namespace = kie_server_image_stream_namespace;
  kie_server_image = kie_server_image;
  kie_server_image_tag = kie_server_image_tag;
  kie_server_cpu_request = value_or_default kie_server.cpu_request kie_server_cpu_request;
  kie_server_cpu_limit = value_or_default kie_server.cpu_limit kie_server_cpu_limit;
  kie_server_memory_request = value_or_default kie_server.memory_request kie_server_memory_request;
  kie_server_memory_limit = value_or_default kie_server.memory_limit kie_server_memory_limit;
  kie_server_gc_max_meta_size =
      value_or_default kie_server.gc_max_meta_size kie_server_gc_max_meta_size;
  kie_server_drools_filter_classes =
      value_or_default kie_server.drools_filter_classes kie_server_drools_filter_classes;
  kie_server_bypass_auth_user =
      value_or_default kie_server.bypass_auth_user kie_server_bypass_auth_user;
  kie_server_controller_protocol = kie_server_controller_protocol;
  kie_server_controller_user = kie_server_controller_user;
  kie_server_controller_password = kie_server_controller_password;
  kie_server_id = kie_server_id;
  kie_admin_user = kie_admin_user;
  kie_admin_password = kie_admin_password;
  kie_maven_user = kie_maven_user;
  kie_maven_password = kie_maven_password;
  kie_server_kie_mbeans = value_or_default kie_server.kie_mbeans kie_server_kie_mbeans;
  kie_server_realm_secret = kie_server_realm_secret;
}
  where
    open rhpam.spec.config use {
      database_config as database, business_central_config as business_central,
      kie_server_config as kie_server,
    }

module _ ⦃env : Env⦄ where
  unfoldable pub new_template_helper : RhpamDev → TemplateHelper
  unfolding parameters_of
  new_template_helper rhpam = record {
    parameters = parameters_of rhpam;
    template_path =
        let path = env.getenv "TEMPLATE_PATH" in if path == "" then "./templates" else path;
  }

  unfoldable pub load_template : TemplateHelper → String → Action String
  unfolding parameter_fields
  load_template h name = do
    tpl ← lift (env.read_file (h.template_path <> "/" <> name <> ".yaml"))
    parsed ← lift (env.parse_template tpl)
    lift (env.execute_template parsed (parameter_fields h.parameters))
