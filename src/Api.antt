-- ===== src/Api.antt =====
-- The custom resources: pkg/apis/rhpam/v1alpha1/types.go, rhpamdev_types.go, rhpamuser_types.go.
-- A resource's metadata has the fields of `metav1.ObjectMeta` that the operator reads or writes.
use rhpam_dev_operator.Base.{ℕ, String, Bool, Option, none, List, Dict, ◌==◌}

-- `StatusPhase` is a string type: `other` is any text that is none of the declared constants.
pub data StatusPhase : Type 0 where
  no_phase initialized accepted realm_provisioning realm_provisioned prepare : StatusPhase
  prepared database_installed business_central_installed database_ready : StatusPhase
  kie_server_installed reconcile complete deprovisioned deprovision_failed : StatusPhase
  other : String → StatusPhase

unfoldable pub phase_text : StatusPhase → String
phase_text no_phase = ""
phase_text initialized = "initialized"
phase_text accepted = "accepted"
phase_text realm_provisioning = "realm provisioning"
phase_text realm_provisioned = "realm provisioned"
phase_text prepare = "prepare provisioning"
phase_text prepared = "prepared"
phase_text database_installed = "database installed"
phase_text business_central_installed = "business central installed"
phase_text database_ready = "database ready"
phase_text kie_server_installed = "kie server installed"
phase_text reconcile = "reconcile"
phase_text complete = "complete"
phase_text deprovisioned = "deprovisioned"
phase_text deprovision_failed = "deprovision failed"
phase_text (other text) = text

abbrev pub rhpam_finalizer : String
rhpam_finalizer = "finalizer.rhpam"

pub record NamespacedName : Type 0 where
  pub namespace : String
  pub name : String

pub record ObjectMeta : Type 0 where
  pub name : String
  pub namespace : String
  pub labels : Dict String
  pub finalizers : List String
  pub owners : List String
  pub deletion_timestamp : Option ℕ
  pub resource_version : String

pub record RhpamDatabaseConfig : Type 0 where
  pub persistent_volume_capacity : String
  pub max_connections : String
  pub shared_buffers : String
  pub max_prepared_transactions : String
  pub memory_limit : String

pub record RhpamBusinessCentralConfig : Type 0 where
  pub persistent_volume_capacity : String
  pub cpu_request : String
  pub cpu_limit : String
  pub memory_request : String
  pub memory_limit : String
  pub gc_max_meta_size : String
  pub kie_mbeans : String
  pub java_opts_append : String

pub record RhpamKieServerConfig : Type 0 where
  pub cpu_request : String
  pub cpu_limit : String
  pub memory_request : String
  pub memory_limit : String
  pub gc_max_meta_size : String
  pub kie_mbeans : String
  pub kie_server_id : String
  pub drools_filter_classes : String
  pub bypass_auth_user : String

pub record RhpamConfig : Type 0 where
  pub database_config : RhpamDatabaseConfig
  pub business_central_config : RhpamBusinessCentralConfig
  pub kie_server_config : RhpamKieServerConfig

pub record RhpamDevSpec : Type 0 where
  pub domain : String
  pub config : RhpamConfig

pub record RhpamDevStatus : Type 0 where
  pub phase : StatusPhase
  pub version : String
  pub realm : String

pub record RhpamDev : Type 0 where
  pub metadata : ObjectMeta
  pub spec : RhpamDevSpec
  pub status : RhpamDevStatus

-- `Defaults` has an empty body, and `Validate` returns nil.
unfoldable pub defaults : RhpamDev → RhpamDev
defaults r = r

unfoldable pub validate {ℓ} : {E : Type ℓ} → RhpamDev → Option E
validate r = none

pub record Role : Type 0 where
  pub name : String

pub record User : Type 0 where
  pub username : String
  pub password : String
  pub roles : List String

pub record RhpamUserSpec : Type 0 where
  pub roles : List Role
  pub users : List User

pub record RhpamUserStatus : Type 0 where
  pub phase : StatusPhase
  pub realm : String

pub record RhpamUser : Type 0 where
  pub metadata : ObjectMeta
  pub spec : RhpamUserSpec
  pub status : RhpamUserStatus

-- Go's `==` on two phases compares their texts.
unfoldable pub same_phase : StatusPhase → StatusPhase → Bool
unfolding phase_text
same_phase p q = phase_text p == phase_text q
