-- ===== src/Objects.antt =====
-- What the operator exchanges with the cluster and over HTTP, and the record of its calls.
use rhpam_dev_operator.Base.{ℕ, String, Dict}
use rhpam_dev_operator.Api.{ObjectMeta, NamespacedName, RhpamDev, RhpamUser}

pub record Secret : Type 0 where
  pub metadata : ObjectMeta
  pub contents : Dict String
  pub type : String

pub record ConfigMap : Type 0 where
  pub metadata : ObjectMeta
  pub contents : Dict String

-- `unstructured.Unstructured`: its kind and metadata, and the text of all else.
pub record Object : Type 0 where
  pub kind : String
  pub metadata : ObjectMeta
  pub body : String

-- `appsv1.DeploymentConfig`, of which only one field is read.
pub record DeploymentConfig : Type 0 where
  pub ready_replicas : ℕ

-- `http.Request` and `http.Response`. `nil` as a body is the empty text.
pub record Request : Type 0 where
  pub method : String
  pub url : String
  pub headers : Dict String
  pub body : String

pub record Response : Type 0 where
  pub status_code : ℕ
  pub status : String
  pub stream : ℕ

pub data Kind : Type 0 where
  rhpam_dev rhpam_user secret configmap deployment_config service route : Kind
  persistent_volume_claim service_account unstructured : Kind

-- The calls that leave the operator, in the order in which they are made.
pub data Event : Type 0 where
  got : Kind → NamespacedName → Event
  listed : Kind → String → Event
  created_secret : Secret → Event
  created_configmap : ConfigMap → Event
  created_object : Object → Event
  updated_dev : RhpamDev → Event
  updated_user : RhpamUser → Event
  deleted : Kind → NamespacedName → Event
  requested : Request → Event
  received : ℕ → Event
  closed : ℕ → Event
