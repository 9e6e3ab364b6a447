-- ===== src/Dev/Names.antt =====
-- The constants of pkg/controller/rhpamdev/rhpamdev_controller.go.
use rhpam_dev_operator.Base.{String}

abbrev pub rhpam_version : String
rhpam_version = "7.2.1.GA"

abbrev pub application_name : String
application_name = "rhpam"

abbrev pub service_account : String
service_account = "rhpam"

abbrev pub database_credentials_secret : String
database_credentials_secret = "rhpam-postgresql"

abbrev pub database_name : String
database_name = "rhpam"

abbrev pub database_pvc : String
database_pvc = "rhpam-postgresql"

abbrev pub database_service : String
database_service = "rhpam-postgresql"

abbrev pub database_deployment : String
database_deployment = "rhpam-postgresql"

abbrev pub database_volume_capacity : String
database_volume_capacity = "1Gi"

abbrev pub database_image : String
database_image = "registry.redhat.io/rhscl/postgresql-96-rhel7:latest"

abbrev pub database_max_connections : String
database_max_connections = "100"

abbrev pub database_max_prepared_transactions : String
database_max_prepared_transactions = "100"

abbrev pub database_shared_buffers : String
database_shared_buffers = "32MB"

abbrev pub database_memory_limit : String
database_memory_limit = "512Mi"

abbrev pub database_init_configmap : String
database_init_configmap = "rhpam-postgresql-init"

abbrev pub business_central_service : String
business_central_service = "rhpam-bc"

abbrev pub business_central_pvc : String
business_central_pvc = "rhpam-bc"

abbrev pub business_central_route : String
business_central_route = "rhpam-bc"

abbrev pub business_central_deployment : String
business_central_deployment = "rhpam-bc"

abbrev pub business_central_volume_capacity : String
business_central_volume_capacity = "1Gi"

abbrev pub business_central_image_stream_namespace : String
business_central_image_stream_namespace = "openshift"

abbrev pub business_central_image : String
business_central_image = "rhpam72-businesscentral-openshift"

abbrev pub business_central_image_tag : String
business_central_image_tag = "1.1"

abbrev pub business_central_cpu_request : String
business_central_cpu_request = "200m"

abbrev pub business_central_cpu_limit : String
business_central_cpu_limit = "2000m"

abbrev pub business_central_memory_request : String
business_central_memory_request = "1Gi"

abbrev pub business_central_memory_limit : String
business_central_memory_limit = "3Gi"

abbrev pub kie_admin_user : String
kie_admin_user = "adminuser"

abbrev pub kie_admin_password : String
kie_admin_password = "admin1!"

abbrev pub business_central_gc_max_meta_size : String
business_central_gc_max_meta_size = "500"

abbrev pub business_central_kie_mbeans : String
business_central_kie_mbeans = "enabled"

abbrev pub kie_server_controller_user : String
kie_server_controller_user = "controllerUser"

abbrev pub kie_server_controller_password : String
kie_server_controller_password = "controller1!"

abbrev pub kie_server_user : String
kie_server_user = "executionuser"

abbrev pub kie_server_password : String
kie_server_password = "execution1!"

abbrev pub kie_maven_user : String
kie_maven_user = "mavenuser"

abbrev pub kie_maven_password : String
kie_maven_password = "maven1!"

abbrev pub eap_admin_user_name : String
eap_admin_user_name = "eapadmin"

abbrev pub eap_admin_password : String
eap_admin_password = "eapadmin1!"

abbrev pub business_central_java_opts_append : String
business_central_java_opts_append = "-Dorg.uberfire.nio.git.ssh.algorithm=RSA"

abbrev pub business_central_realm_secret : String
business_central_realm_secret = "rhpam-bc-sso"

abbrev pub kie_server_route : String
kie_server_route = "rhpam-kieserver"

abbrev pub kie_server_service : String
kie_server_service = "rhpam-kieserver"

abbrev pub kie_server_deployment : String
kie_server_deployment = "rhpam-kieserver"

abbrev pub kie_server_image_stream_namespace : String
kie_server_image_stream_namespace = "openshift"

abbrev pub kie_server_image : String
kie_server_image = "rhpam72-kieserver-openshift"

abbrev pub kie_server_image_tag : String
kie_server_image_tag = "1.1"

abbrev pub kie_server_cpu_request : String
kie_server_cpu_request = "200m"

abbrev pub kie_server_cpu_limit : String
kie_server_cpu_limit = "1000m"

abbrev pub kie_server_memory_request : String
kie_server_memory_request = "1Gi"

abbrev pub kie_server_memory_limit : String
kie_server_memory_limit = "3Gi"

abbrev pub kie_server_gc_max_meta_size : String
kie_server_gc_max_meta_size = "500"

abbrev pub kie_server_drools_filter_classes : String
kie_server_drools_filter_classes = "true"

abbrev pub kie_server_bypass_auth_user : String
kie_server_bypass_auth_user = "false"

abbrev pub kie_server_controller_protocol : String
kie_server_controller_protocol = "ws"

abbrev pub kie_server_id : String
kie_server_id = "kieserver-dev"

abbrev pub kie_server_kie_mbeans : String
kie_server_kie_mbeans = "enabled"

abbrev pub kie_server_realm_secret : String
kie_server_realm_secret = "rhpam-ks-sso"
