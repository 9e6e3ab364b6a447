-- ===== src/Tests/Realm.antt =====
-- A Keycloak whose only realm is a list of role names, and roles brought to a spec in it.
use rhpam_dev_operator.Base.{
  String, ◌≡◌, refl, ap, ◌==◌, ◌||◌, ◌&&◌, not, true, false, List, [], ◌∷◌, contains, lookup, arith,
  eq_iff, if◌then◌else◌,
}
use rhpam_dev_operator.Api.{RhpamUser, accepted}
use rhpam_dev_operator.Env.{Env, ok, err, panic}
use rhpam_dev_operator.Effect.{Action, Outcome, for_each, ◌>>=◌}
use rhpam_dev_operator.Effect.Achieves.{Achieves}
use rhpam_dev_operator.Keycloak.Types.{KeycloakRole}
use rhpam_dev_operator.Keycloak.Client.{text_or_empty}
use rhpam_dev_operator.Keycloak.Interface.{KeycloakInterface}
use rhpam_dev_operator.Keycloak.Template.{load_role_template}
use rhpam_dev_operator.Keycloak.Server.{RoleServer}
use rhpam_dev_operator.User.Members.{role_names}
use rhpam_dev_operator.User.Sync.{spec_role_names, reconcile_roles}
use rhpam_dev_operator.User.Sync.Roles.{wanted, reconcile_roles_lem}
use rhpam_dev_operator.Tests.World.{world_over, metadata, role_called}

-- A role's template renders as the role's name.
instance abbrev realm_world : Env
realm_world = record (world_over (List String) (λ s. s) (λ s. 0)) {
  execute_template = λ t fields. ok (text_or_empty (lookup "RoleName" fields));
}

abbrev without : String → List String → List String
without r [] = []
without r (x ∷ xs) = let rest = without r xs in if x == r then rest else x ∷ rest

abbrev pub called : List String → List KeycloakRole
called [] = []
called (x ∷ xs) = role_called x ∷ called xs

abbrev does :
    {A : Type 0} → (List String → Outcome String (List String) A) → Action ⦃env = realm_world⦄ A
does f = f

abbrev unused : {A : Type 0} → Action ⦃env = realm_world⦄ A
unused s = record { result = panic "unused"; state = s; events = [] }

abbrev pub sso : KeycloakInterface ⦃env = realm_world⦄
sso = record {
  create_realm = λ json. unused;
  delete_realm = λ realm. unused;
  create_client = λ json realm. unused;
  get_client_secret = λ id realm. unused;
  list_clients = λ realm. unused;
  create_user = λ json realm. unused;
  find_user_by_username = λ name realm. unused;
  get_user = λ id realm. unused;
  list_users = λ realm. unused;
  delete_user = λ id realm. unused;
  create_role = λ json realm s. record { result = ok tt; state = json ∷ s; events = [] };
  get_role = λ r realm s. record {
    result = if contains s r then ok (role_called r) else err "not found";
    state = s;
    events = [];
  };
  list_roles = λ realm s. record { result = ok (called s); state = s; events = [] };
  delete_role = λ r realm s. record { result = ok tt; state = without r s; events = [] };
  get_realm_role_mappings = λ user realm. unused;
  create_user_realm_role = λ json user realm. unused;
  delete_user_realm_role = λ json user realm. unused;
}

contains-called : (s : List String) (x : String) → contains (role_names (called s)) x ≡ contains s x
unfolding role_names
contains-called [] x = refl
contains-called (y ∷ s) x = ap (λ b. x == y || b) (contains-called s x)

contains-without :
    (r : String) (s : List String) (x : String)
    → contains (without r s) x ≡ (not (x == r) && contains s x)
contains-without r [] x = ground arith
contains-without r (y ∷ s) x =
    ground (arith, contains-without r s x, eq_iff x y, eq_iff y r, eq_iff x r)

load_role_template-Achieves :
    (s : List String) (r : String)
    → Achieves ⦃env = realm_world⦄
        (load_role_template ⦃env = realm_world⦄ (record { role_name = r }))
        s
        (λ json s'. (json ≡ r) × ((x : String) → contains s' x ≡ contains s x))
unfolding load_role_template text_or_empty ◌>>=◌
load_role_template-Achieves s r = record { value = r; ends = refl; holds = (refl, λ x. refl) }

abbrev role_server : RoleServer ⦃env = realm_world⦄ sso "demo"
role_server = record {
  has = λ s. contains s;
  plain = λ r. not (r == "");
  rendered = λ r. r;
  empty_not_plain = refl;
  lists = λ s. record { value = called s; ends = refl; holds = λ x. (contains-called s x, refl) };
  finds = λ s r p h. record { value = role_called r; ends = rw h; holds = λ x. refl };
  misses = λ s r p h. record { error = "not found"; ends = rw h; holds = λ x. refl };
  renders = λ s r p. load_role_template-Achieves s r;
  creates = λ s r p h. record { value = tt; ends = refl; holds = λ x. refl };
  deletes = λ s r p h. record { value = tt; ends = refl; holds = contains-without r s };
}

abbrev pub user : RhpamUser
user = record {
  metadata = metadata;
  spec = record { roles = record { name = "clerk" } ∷ []; users = [] };
  status = record { phase = accepted; realm = "demo" };
}

full_of :
    (xs : List String) (x : String)
    → contains xs "" ≡ false
    → contains xs x ≡ true
    → not (x == "") ≡ true
full_of xs x full h = ground (arith, eq_iff x "")

reconcile_roles_lem_example :
    Achieves ⦃env = realm_world⦄
      (reconcile_roles ⦃env = realm_world⦄ sso user)
      ("admin" ∷ "guest" ∷ [])
      (λ done s'.
        (x : String) → contains s' x ≡ wanted ("clerk" ∷ []) (contains ("admin" ∷ "guest" ∷ [])) x)
unfolding spec_role_names
reconcile_roles_lem_example =
    reconcile_roles_lem ⦃env = realm_world⦄ sso "demo" role_server user ("admin" ∷ "guest" ∷ [])
      refl (λ pairs s u. (u, λ x. refl, λ x. refl))
      (λ x h. full_of ("admin" ∷ "guest" ∷ []) x refl h) (λ x h. full_of ("clerk" ∷ []) x refl h)

-- The run itself: "guest" goes, "clerk" comes, "admin" stays.
reconcile_roles_run :
    (reconcile_roles ⦃env = realm_world⦄ sso user ("admin" ∷ "guest" ∷ [])).state
    ≡ "clerk" ∷ "admin" ∷ []
unfolding reconcile_roles load_role_template text_or_empty ◌>>=◌ for_each
reconcile_roles_run = refl
