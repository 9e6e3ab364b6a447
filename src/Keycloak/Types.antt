-- ===== src/Keycloak/Types.antt =====
-- pkg/keycloak/types.go and the parameters of the templates.
use rhpam_dev_operator.Base.{ℤ, String, Bool, Option, List, Dict}

pub record KeycloakProtocolMapper : Type 0 where
  pub id : String
  pub name : String
  pub protocol : String
  pub protocol_mapper : String
  pub consent_required : Bool
  pub consent_text : String
  pub config : Dict String

pub record KeycloakApiClient : Type 0 where
  pub id : String
  pub client_id : String
  pub secret : String
  pub name : String
  pub base_url : String
  pub admin_url : String
  pub root_url : String
  pub description : String
  pub surrogate_auth_required : Bool
  pub enabled : Bool
  pub client_authenticator_type : String
  pub default_roles : List String
  pub redirect_uris : List String
  pub web_origins : List String
  pub not_before : ℤ
  pub bearer_only : Bool
  pub consent_required : Bool
  pub standard_flow_enabled : Bool
  pub implicit_flow_enabled : Bool
  pub direct_access_grants_enabled : Bool
  pub service_accounts_enabled : Bool
  pub public_client : Bool
  pub frontchannel_logout : Bool
  pub protocol : String
  pub attributes : Dict String
  pub full_scope_allowed : Bool
  pub node_re_registration_timeout : ℤ
  pub protocol_mappers : List KeycloakProtocolMapper
  pub use_template_config : Bool
  pub use_template_scope : Bool
  pub use_template_mappers : Bool
  pub access : Dict Bool

pub record KeycloakClient : Type 0 where
  pub api : KeycloakApiClient
  pub output_secret : Option String

pub record KeycloakApiUser : Type 0 where
  pub id : String
  pub user_name : String
  pub first_name : String
  pub last_name : String
  pub email : String
  pub email_verified : Bool
  pub enabled : Bool
  pub realm_roles : List String
  pub client_roles : Dict (List String)
  pub required_actions : List String
  pub groups : List String

-- The embedded pointer is a field, which is always set here. `encoding/json` leaves it nil for a JSON
-- object with none of the fields of `KeycloakApiUser`, and reading a field of it then panics: an
-- answer with such an object is outside the model.
pub record KeycloakUser : Type 0 where
  pub api : KeycloakApiUser
  pub output_secret : Option String
  pub password : Option String

pub record KeycloakRole : Type 0 where
  pub id : String
  pub name : String
  pub scope_param_required : Bool
  pub composite : Bool
  pub client_role : Bool
  pub container_id : String

pub record KeycloakUserPair : Type 0 where
  pub kc_user : Option KeycloakUser
  pub spec_user : Option KeycloakUser

pub record KeycloakRolePair : Type 0 where
  pub kc_role : String
  pub spec_role : String

pub record TokenResponse : Type 0 where
  pub access_token : String
  pub expires_in : ℤ
  pub refresh_expires_in : ℤ
  pub refresh_token : String
  pub token_type : String
  pub not_before_policy : ℤ
  pub session_state : String
  pub error : String
  pub error_description : String
