-- ===== src/User/Sync.antt =====
-- pkg/controller/rhpamuser/phaseHandler.go: bringing roles, users and mappings to the spec.
pub mod Visits
pub mod Roles
pub mod Mappings
pub mod Served
pub mod Mapped
use rhpam_dev_operator.Base.{
  String, ◌==◌, not, ◌&&◌, Option, none, some, List, [], ◌∷◌, ◌++◌, insert, if◌then◌else◌,
}
use rhpam_dev_operator.Api.{Role, User, RhpamUser}
use rhpam_dev_operator.Env.{Env, panic}
use rhpam_dev_operator.Effect.{Action, pure, ignore, step, for_each, lift, ◌>>=◌}
use rhpam_dev_operator.Keycloak.Types.{KeycloakUser, KeycloakRole, KeycloakRolePair}
use rhpam_dev_operator.Keycloak.Interface.{KeycloakInterface}
use rhpam_dev_operator.Keycloak.Client.{no_user, text_or_empty}
use rhpam_dev_operator.User.Defaults.{is_default_role, is_default_user}
use rhpam_dev_operator.User.Members.{
  role_names, create_role, delete_user, create_user_realm_role, delete_user_realm_role,
  create_user_with_realm_roles,
}
use rhpam_dev_operator.User.Pairs.{RolePairs, UserPairs, role_pairs, pair_spec_users}

unfoldable pub spec_role_names : List Role → List String
spec_role_names [] = []
spec_role_names (r ∷ roles) = r.name ∷ spec_role_names roles

-- The `KeycloakUser` that stands for a user of the spec.
unfoldable pub spec_user : User → KeycloakUser
unfolding no_user
spec_user u = record {
  api = record no_user { user_name = u.username; realm_roles = u.roles };
  output_secret = none;
  password = some u.password;
}

unfoldable pub spec_users : List User → List KeycloakUser
unfolding spec_user
spec_users [] = []
spec_users (u ∷ users) = spec_user u ∷ spec_users users

-- `user.RealmRoles = append(user.RealmRoles, role.Name)` for each role.
unfoldable pub with_roles : KeycloakUser → List KeycloakRole → KeycloakUser
unfolding role_names
with_roles u roles = record u {
  api = record (u.api) { realm_roles = u.api.realm_roles ++ role_names roles };
}

module _ ⦃env : Env⦄ where
  unfoldable pub reconcile_role : KeycloakInterface → String → KeycloakRolePair → Action (Unit {0})
  unfolding is_default_role create_role
  reconcile_role sso realm pair =
      if pair.spec_role == "" && not (is_default_role pair.kc_role)
      then sso.delete_role pair.kc_role realm
      else if pair.kc_role == ""
      then create_role sso realm pair.spec_role
      else pure tt

  unfoldable pub reconcile_user_realm_role :
      KeycloakInterface → String → String → KeycloakRolePair → Action (Unit {0})
  unfolding create_user_realm_role delete_user_realm_role
  reconcile_user_realm_role sso realm user pair =
      if pair.kc_role == ""
      then create_user_realm_role sso realm user pair.spec_role
      else if pair.spec_role == ""
      then delete_user_realm_role sso realm user pair.kc_role
      else pure tt

  -- `for _, pair := range pairs`, in the order that the run time picks.
  unfoldable pub each_role_pair :
      (KeycloakRolePair → Action (Unit {0})) → RolePairs → Action (Unit {0})
  each_role_pair f pairs = do
    visited ← step (env.range_role_pairs pairs)
    for_each (λ (_, pair). f pair) visited

  unfoldable pub reconcile_roles : KeycloakInterface → RhpamUser → Action (Unit {0})
  unfolding reconcile_role each_role_pair role_names spec_role_names role_pairs
  reconcile_roles sso user = do
    roles ← sso.list_roles user.status.realm
    each_role_pair (reconcile_role sso user.status.realm)
        (role_pairs (role_names roles) (spec_role_names user.spec.roles))

  unfoldable pub reconcile_user_roles :
      KeycloakInterface → String → KeycloakUser → KeycloakUser → Action (Unit {0})
  unfolding reconcile_user_realm_role each_role_pair role_pairs
  reconcile_user_roles sso realm kc spec =
      each_role_pair (reconcile_user_realm_role sso realm kc.api.user_name)
        (role_pairs kc.api.realm_roles spec.api.realm_roles)

  unfoldable pub drop_user : KeycloakInterface → String → KeycloakUser → Action (Unit {0})
  unfolding is_default_user delete_user
  drop_user sso realm kc =
      if not (is_default_user kc.api.user_name)
      then ignore (delete_user sso realm kc.api.user_name)
      else pure tt

  -- `*specUser.Password`: the pointer is set in every value that `spec_user` builds.
  unfoldable pub add_user : KeycloakInterface → String → KeycloakUser → Action (Unit {0})
  unfolding create_user_with_realm_roles text_or_empty
  add_user sso realm spec = create_user_with_realm_roles sso realm (record {
    username = spec.api.user_name;
    password = text_or_empty spec.password;
    roles = spec.api.realm_roles;
  })

  -- Where both sides are nil, `kcUser.UserName` panics.
  unfoldable pub reconcile_user :
      KeycloakInterface → String → Option KeycloakUser → Option KeycloakUser → Action (Unit {0})
  unfolding drop_user add_user reconcile_user_roles
  reconcile_user sso realm (some kc) none = drop_user sso realm kc
  reconcile_user sso realm none (some spec) = add_user sso realm spec
  reconcile_user sso realm (some kc) (some spec) = reconcile_user_roles sso realm kc spec
  reconcile_user sso realm none none =
      lift (panic "invalid memory address or nil pointer dereference")

  -- The first loop of `reconcileUsers`: each user with its mapped roles.
  unfoldable pub pair_kc_users :
      KeycloakInterface → String → List KeycloakUser → UserPairs → Action UserPairs
  unfolding with_roles
  pair_kc_users sso realm [] pairs = pure pairs
  pair_kc_users sso realm (u ∷ users) pairs = do
    mappings ← sso.get_realm_role_mappings u.api.id realm
    pair_kc_users sso realm users (
        insert u.api.user_name (record { kc_user = some (with_roles u mappings); spec_user = none })
          pairs)

  unfoldable pub reconcile_users : KeycloakInterface → RhpamUser → Action (Unit {0})
  unfolding pair_kc_users pair_spec_users spec_users reconcile_user
  reconcile_users sso user = do
    let realm = user.status.realm
    users ← sso.list_users realm
    kc_pairs ← pair_kc_users sso realm users []
    visited ← step (env.range_user_pairs (pair_spec_users (spec_users user.spec.users) kc_pairs))
    for_each (λ (_, pair). reconcile_user sso realm pair.kc_user pair.spec_user) visited
