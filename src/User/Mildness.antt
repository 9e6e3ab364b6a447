-- ===== src/User/Mildness.antt =====
-- Bringing a realm to a spec, in pkg/controller/rhpamuser/phaseHandler.go, updates and deletes
-- nothing in the cluster.
use rhpam_dev_operator.Base.{String, List, [], ◌∷◌, Option, none, some}
use rhpam_dev_operator.Api.{RhpamUser}
use rhpam_dev_operator.Env.{Env}
use rhpam_dev_operator.Effect.Emits.{
  Emits, Emits-bind, Emits-bind_with, Emits-step, Emits-for_each, emits_rules,
}
use rhpam_dev_operator.Common.Access.{
  IsMild, IsAuthenticated, authenticated_client-IsMild, authenticated_client-IsAuthenticated,
}
use rhpam_dev_operator.Keycloak.Types.{KeycloakUser, KeycloakRolePair}
use rhpam_dev_operator.Keycloak.Interface.{KeycloakInterface}
use rhpam_dev_operator.Keycloak.Traffic.{Confined}
use rhpam_dev_operator.Effect.{Action}
use rhpam_dev_operator.User.Handover.{
  template_rules, create_role-IsMild, create_user_with_realm_roles-IsMild,
}
use rhpam_dev_operator.User.Pairs.{RolePairs, UserPairs}
use rhpam_dev_operator.User.Sync.{
  reconcile_role, reconcile_user_realm_role, each_role_pair, reconcile_roles, drop_user,
  reconcile_user, pair_kc_users, reconcile_users,
}
use rhpam_dev_operator.User.Phases.{reconcile_user_phase}

module _ ⦃env : Env⦄ where
  each_role_pair-IsMild :
      (f : KeycloakRolePair → Action (Unit {0})) (pairs : RolePairs)
      → ((pair : KeycloakRolePair) → Emits IsMild (f pair))
      → Emits IsMild (each_role_pair f pairs)
  unfolding each_role_pair
  each_role_pair-IsMild f pairs h =
      Emits-bind _ _ (Emits-step _) λ visited. Emits-for_each _ visited (λ (name, pair). h pair)

module _ ⦃env : Env⦄ (sso : KeycloakInterface) (c : Confined IsMild sso) (realm : String) where
  reconcile_role-IsMild : (pair : KeycloakRolePair) → Emits IsMild (reconcile_role sso realm pair)
  unfolding reconcile_role
  reconcile_role-IsMild pair = search (emits_rules, c.delete_role, create_role-IsMild sso c realm)

  reconcile_user_realm_role-IsMild :
      (user : String) (pair : KeycloakRolePair)
      → Emits IsMild (reconcile_user_realm_role sso realm user pair)
  unfolding reconcile_user_realm_role
  reconcile_user_realm_role-IsMild user pair =
      search
        (
          emits_rules, template_rules, c.find_user_by_username, c.get_realm_role_mappings,
          c.get_role, c.create_user_realm_role, c.delete_user_realm_role,
        )
        depth 14

  drop_user-IsMild : (kc : KeycloakUser) → Emits IsMild (drop_user sso realm kc)
  unfolding drop_user
  drop_user-IsMild kc = search (emits_rules, c.find_user_by_username, c.delete_user) depth 8

  reconcile_user-IsMild :
      (kc spec : Option KeycloakUser) → Emits IsMild (reconcile_user sso realm kc spec)
  unfolding reconcile_user
  reconcile_user-IsMild (some kc) none = drop_user-IsMild kc
  reconcile_user-IsMild none (some spec) = create_user_with_realm_roles-IsMild sso c realm _
  reconcile_user-IsMild (some kc) (some spec) =
      each_role_pair-IsMild _ _ (reconcile_user_realm_role-IsMild kc.api.user_name)
  reconcile_user-IsMild none none = search emits_rules

  pair_kc_users-IsMild :
      (users : List KeycloakUser) (pairs : UserPairs)
      → Emits IsMild (pair_kc_users sso realm users pairs)
  unfolding pair_kc_users
  pair_kc_users-IsMild [] pairs = search emits_rules
  pair_kc_users-IsMild (u ∷ users) pairs =
      Emits-bind _ _ (c.get_realm_role_mappings _ _) λ mappings. pair_kc_users-IsMild users _

module _ ⦃env : Env⦄ (sso : KeycloakInterface) (c : Confined IsMild sso) (user : RhpamUser) where
  reconcile_roles-IsMild : Emits IsMild (reconcile_roles sso user)
  unfolding reconcile_roles
  reconcile_roles-IsMild =
      Emits-bind _ _ (c.list_roles _)
        λ roles. each_role_pair-IsMild _ _ (reconcile_role-IsMild sso c user.status.realm)

  reconcile_users-IsMild : Emits IsMild (reconcile_users sso user)
  unfolding reconcile_users
  reconcile_users-IsMild =
      let realm = user.status.realm in
      Emits-bind _ _ (c.list_users _) λ users.
        Emits-bind _ _ (pair_kc_users-IsMild sso c realm users []) λ pairs.
          Emits-bind _ _ (Emits-step _) λ visited.
            Emits-for_each _ visited
              (λ (name, pair). reconcile_user-IsMild sso c realm pair.kc_user pair.spec_user)

module _ ⦃env : Env⦄ where
  pub reconcile_user_phase-IsMild : (user : RhpamUser) → Emits IsMild (reconcile_user_phase user)
  unfolding reconcile_user_phase
  reconcile_user_phase-IsMild user =
      Emits-bind_with IsAuthenticated _ _ authenticated_client-IsMild
        authenticated_client-IsAuthenticated
        λ (sso, factory) c.
          Emits-bind _ _ (reconcile_roles-IsMild sso c user)
            λ _. Emits-bind _ _ (reconcile_users-IsMild sso c user) λ _. search emits_rules
