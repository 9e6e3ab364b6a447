-- ===== src/Env.antt =====
-- What the operator calls and does not implement: the Kubernetes client, HTTP, JSON and YAML
-- decoding, templates, files, the environment, time, randomness, and Go's order of map iteration.
-- `State` is all that lies outside the process.
use rhpam_dev_operator.Base.{ℕ, String, Bool, true, false, Option, List, Dict}
use rhpam_dev_operator.Api.{ObjectMeta, NamespacedName, RhpamDev, RhpamUser}
use rhpam_dev_operator.Objects.{
  Secret, ConfigMap, Object, DeploymentConfig, Request, Response, Kind,
}
use rhpam_dev_operator.Keycloak.Types.{
  KeycloakClient, KeycloakApiUser, KeycloakUser, KeycloakRole, KeycloakUserPair, KeycloakRolePair,
  TokenResponse,
}

-- How a Go function ends: with values, with an error, or by a panic.
pub data Result (E A : Type 0) : Type 0 where
  ok : A → Result E A
  err : E → Result E A
  panic : String → Result E A

abbrev pub is_ok : {E A : Type 0} → Result E A → Bool
is_ok (ok a) = true
is_ok _ = false

pub record Env : Type 1 where
  pub State : Type 0
  pub Error : Type 0
  pub Template : Type 0
  -- errors.New and fmt.Errorf, errors.Wrap, Error(), k8serrors.IsNotFound
  pub new_error : String → Error
  pub wrap : Error → String → Error
  pub error_text : Error → String
  pub is_not_found : Error → Bool
  -- fmt's %d, os.Getenv, ioutil.ReadFile, template.Parse and Execute
  pub decimal : ℕ → String
  pub getenv : String → String
  pub read_file : String → Result Error String
  pub parse_template : String → Result Error Template
  pub execute_template : Template → Dict String → Result Error String
  -- k8sutil.GetWatchNamespace, meta.Accessor, and sets.NewString(xs...) with Insert and List
  pub watch_namespace : Result Error String
  pub accessor : ObjectMeta → Result Error ObjectMeta
  pub sets_insert : List String → String → List String
  -- time.Now().Unix(), and the i-th rand.Intn(bound) after rand.Seed(seed)
  pub unix_time : State → ℕ × State
  pub intn : ℕ → ℕ → ℕ → ℕ
  -- controllerutil.SetControllerReference
  pub set_controller_reference : RhpamDev → ObjectMeta → Result Error ObjectMeta
  -- client.Client
  pub get_rhpamdev : NamespacedName → State → Result Error RhpamDev × State
  pub get_rhpamuser : NamespacedName → State → Result Error RhpamUser × State
  pub get_secret : NamespacedName → State → Result Error Secret × State
  pub get_configmap : NamespacedName → State → Result Error ConfigMap × State
  pub get_deployment_config : NamespacedName → State → Result Error DeploymentConfig × State
  pub get_object : String → NamespacedName → State → Result Error Object × State
  pub list_rhpamdevs : String → State → Result Error (List RhpamDev) × State
  pub list_rhpamusers : String → State → Result Error (List RhpamUser) × State
  pub create_secret : Secret → State → Result Error (Unit {0}) × State
  pub create_configmap : ConfigMap → State → Result Error (Unit {0}) × State
  pub create_object : Object → State → Result Error (Unit {0}) × State
  pub delete : Kind → NamespacedName → State → Result Error (Unit {0}) × State
  -- `Update` writes the server's answer into the object that it is given.
  pub update_rhpamdev : RhpamDev → State → Result Error RhpamDev × State
  pub update_rhpamuser : RhpamUser → State → Result Error RhpamUser × State
  -- net/http: the error of http.NewRequest at a URL, Do, reading a body; url.Values.Encode
  pub url_error : String → Option Error
  pub do_request : Request → State → Result Error Response × State
  pub read_all : ℕ → State → Result Error String × State
  pub form_encode : Dict String → String
  -- encoding/json and yaml
  pub unmarshal_clients : String → Result Error (List KeycloakClient)
  pub unmarshal_api_users : String → Result Error (List KeycloakApiUser)
  pub unmarshal_api_user : String → Result Error KeycloakApiUser
  pub unmarshal_users : String → Result Error (List KeycloakUser)
  pub unmarshal_roles : String → Result Error (List KeycloakRole)
  pub unmarshal_role : String → Result Error KeycloakRole
  pub unmarshal_texts : String → Result Error (Dict String)
  pub unmarshal_token : String → Result Error TokenResponse
  pub unmarshal_object : String → Result Error Object
  -- the order in which `for range` visits a map
  pub range_role_pairs : Dict KeycloakRolePair → State → Dict KeycloakRolePair × State
  pub range_user_pairs : Dict KeycloakUserPair → State → Dict KeycloakUserPair × State
