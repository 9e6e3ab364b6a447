-- ===== src/Tests/World.antt =====
-- An outside world with one RhpamDev object, in which every request is answered by `status`, and
-- whose API server refuses what its flag says.
use mathlib.Core.Logic.{ite, if_pos, if_neg}
use native.Mathlib.Decide.{dec_lt}
use rhpam_dev_operator.Base.{
  contains, ℕ, suc, ◌+◌, ◌<◌, String, ◌==◌, true, false, none, [], ◌∷◌, pos, if◌then◌else◌,
}
use rhpam_dev_operator.Api.{
  StatusPhase, ObjectMeta, RhpamConfig, RhpamDev, accepted, realm_provisioning,
}
use rhpam_dev_operator.Objects.{Secret}
use rhpam_dev_operator.Env.{Env, ok, err}
use rhpam_dev_operator.Keycloak.Types.{KeycloakApiUser, KeycloakRole, TokenResponse}

abbrev pub metadata : ObjectMeta
metadata = record {
  name = "demo";
  namespace = "rhpam";
  labels = [];
  finalizers = "finalizer.rhpam" ∷ [];
  owners = [];
  deletion_timestamp = none;
  resource_version = "7";
}

abbrev config : RhpamConfig
config = record {
  database_config = record {
    persistent_volume_capacity = "";
    max_connections = "50";
    shared_buffers = "";
    max_prepared_transactions = "";
    memory_limit = "";
  };
  business_central_config = record {
    persistent_volume_capacity = "";
    cpu_request = "";
    cpu_limit = "";
    memory_request = "";
    memory_limit = "4Gi";
    gc_max_meta_size = "";
    kie_mbeans = "";
    java_opts_append = "";
  };
  kie_server_config = record {
    cpu_request = "";
    cpu_limit = "";
    memory_request = "";
    memory_limit = "";
    gc_max_meta_size = "";
    kie_mbeans = "";
    kie_server_id = "mine";
    drools_filter_classes = "";
    bypass_auth_user = "";
  };
}

abbrev pub dev_in : StatusPhase → RhpamDev
dev_in phase = record {
  metadata = metadata;
  spec = record { domain = "apps.example.org"; config = config };
  status = record { phase = phase; version = ""; realm = "" };
}

abbrev pub ann : KeycloakApiUser
ann = record {
  id = "u1";
  user_name = "ann";
  first_name = "Ann";
  last_name = "";
  email = "";
  email_verified = false;
  enabled = true;
  realm_roles = [];
  client_roles = [];
  required_actions = [];
  groups = [];
}

abbrev pub role_called : String → KeycloakRole
role_called name = record {
  id = name;
  name = name;
  scope_param_required = false;
  composite = false;
  client_role = false;
  container_id = "";
}

abbrev token : TokenResponse
token = record {
  access_token = "t0";
  expires_in = pos 60;
  refresh_expires_in = pos 60;
  refresh_token = "";
  token_type = "bearer";
  not_before_policy = pos 0;
  session_state = "";
  error = "";
  error_description = "";
}

-- `k` modulo `bound`, by counting down.
abbrev pub wrap_index : ℕ → ℕ → ℕ → ℕ
wrap_index seed i bound = ite (dec_lt (seed + i) bound) (seed + i) 0

abbrev sso_secret : Secret
sso_secret = record {
  metadata = metadata;
  contents =
      ("SSO_ADMIN_USERNAME", "admin")
      ∷ ("SSO_ADMIN_PASSWORD", "pw")
      ∷ ("SSO_ADMIN_URL", "https://sso")
      ∷ [];
  type = "Opaque";
}

-- An outside world whose state changes by `tick` at a call and is seen through `number`. Of the
-- secrets, only the one with the credentials is there.
abbrev pub world_over : (S : Type 0) → (S → S) → (S → ℕ) → Env
world_over S tick number = record {
  State = S;
  Error = String;
  Template = String;
  new_error = λ m. m;
  wrap = λ e m. m;
  error_text = λ e. e;
  is_not_found = λ e. e == "not found";
  decimal = λ n. "";
  getenv = λ k. if k == "TEMPLATE_PATH" then "" else "sso";
  read_file = λ path. ok path;
  parse_template = λ text. ok text;
  execute_template = λ t fields. ok t;
  watch_namespace = ok "rhpam";
  accessor = λ m. ok m;
  sets_insert = λ xs x. if contains xs x then xs else x ∷ xs;
  unix_time = λ s. (number s, tick s);
  intn = wrap_index;
  set_controller_reference = λ cr m. ok (record m { owners = cr.metadata.name ∷ [] });
  get_rhpamdev = λ n s. (ok (dev_in realm_provisioning), tick s);
  get_rhpamuser = λ n s. (err "not found", tick s);
  get_secret = λ n s. (if n.name == "sso" then ok sso_secret else err "not found", tick s);
  get_configmap = λ n s. (err "not found", tick s);
  get_deployment_config = λ n s. (ok (record { ready_replicas = 1 }), tick s);
  get_object = λ k n s. (err "not found", tick s);
  list_rhpamdevs = λ n s. (ok (dev_in accepted ∷ []), tick s);
  list_rhpamusers = λ n s. (ok [], tick s);
  create_secret = λ x s. (ok tt, tick s);
  create_configmap = λ x s. (ok tt, tick s);
  create_object = λ x s. (ok tt, tick s);
  delete = λ k n s. (ok tt, tick s);
  update_rhpamdev = λ r s. (ok r, tick s);
  update_rhpamuser = λ r s. (ok r, tick s);
  url_error = λ url. none;
  do_request = λ r s. (
    ok (record {
      status_code = if r.method == "POST" then 201 else if r.method == "DELETE" then 204 else 200;
      status = "";
      stream = number s;
    }),
    tick s,
  );
  read_all = λ n s. (ok "body", s);
  form_encode = λ form. "form";
  unmarshal_clients = λ t. ok [];
  unmarshal_api_users = λ t. ok (ann ∷ []);
  unmarshal_api_user = λ t. err "bad json";
  unmarshal_users = λ t. ok [];
  unmarshal_roles = λ t. ok (role_called "admin" ∷ role_called "guest" ∷ []);
  unmarshal_role = λ t. ok (role_called "admin");
  unmarshal_texts = λ t. ok (("value", "s3cret") ∷ []);
  unmarshal_token = λ t. ok token;
  unmarshal_object = λ t. ok (record { kind = "Service"; metadata = metadata; body = t });
  range_role_pairs = λ pairs s. (pairs, s);
  range_user_pairs = λ pairs s. (pairs, s);
}

-- The state is the number of calls so far.
instance abbrev pub world : Env
world = world_over ℕ suc (λ s. s)

-- The same world without the credentials.
abbrev pub locked_world : Env
locked_world = record world { get_secret = λ n s. (err "not found", suc s) }

pub wrap_index-lt : (seed i bound : ℕ) → 0 < bound → wrap_index seed i bound < bound
wrap_index-lt seed i bound h = elim (dec_lt (seed + i) bound) [
  | yes p ↦ rw (if_pos _ p) p
  | no p ↦ rw (if_neg _ p) h
]
