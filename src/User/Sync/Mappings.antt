-- ===== src/User/Sync/Mappings.antt =====
-- `reconcileUserRealmRoles` of pkg/controller/rhpamuser/phaseHandler.go brings a user's realm roles
-- to the spec, for every order in which Go visits the map of pairs.
use rhpam_dev_operator.Base.{
  String, ◌≡◌, refl, ◌∙◌, ap, ◌==◌, ◌||◌, ◌&&◌, not, Bool, true, false, some, List, contains, arith,
  eq_iff, if◌then◌else◌,
}
use rhpam_dev_operator.Env.{Env}
use rhpam_dev_operator.Effect.{Action, pure, map_error, ◌>>=◌}
use rhpam_dev_operator.Effect.Achieves.{
  Achieves, Achieves-pure, Achieves-bind, Achieves-handle, Achieves-map_error, Achieves-mono,
}
use rhpam_dev_operator.Keycloak.Types.{KeycloakUser, KeycloakRolePair}
use rhpam_dev_operator.Keycloak.Interface.{KeycloakInterface}
use rhpam_dev_operator.Keycloak.Server.Mappings.{MappingServer}
use rhpam_dev_operator.User.Members.{user_role_json, create_user_realm_role, delete_user_realm_role}
use rhpam_dev_operator.User.Pairs.Lookup.{pair_of}
use rhpam_dev_operator.User.Sync.{reconcile_user_realm_role, reconcile_user_roles}
use rhpam_dev_operator.User.Sync.Visits.{VisitsOnce, Steps, each_role_pair_lem}

module _ ⦃env : Env⦄ (sso : KeycloakInterface) (realm username : String)
    (server : MappingServer sso realm username) where
  open server use {has, plain}

  abbrev pub Becomes : (String → Bool) → env.State → Type 0
  Becomes roles s' = (x : String) → has s' x ≡ roles x

  user_role_json-Achieves :
      (s : env.State) (r : String)
      → plain r ≡ true
      → Achieves
          (user_role_json r (server.role r))
          s
          (λ json s'. (json ≡ server.rendered r) × Becomes (has s) s')
  unfolding user_role_json
  user_role_json-Achieves s r p =
      Achieves-handle _ _ _ _ (server.renders s r p) λ json s1 h. Achieves-pure json h

  -- The end of both operations: the role is looked up, and its JSON text is sent.
  send_role-Achieves :
      (wrapped : env.Error → env.Error) (send : String → Action (Unit {0})) (roles : String → Bool)
      (s : env.State) (r : String)
      → plain r ≡ true
      → ((s' : env.State)
          → Becomes (has s) s'
          → Achieves (send (server.rendered r)) s' (λ _. Becomes roles))
      → Achieves
          (do
            role ← sso.get_role r realm
            json ← user_role_json r role
            map_error wrapped (send json))
          s
          (λ _. Becomes roles)
  send_role-Achieves wrapped send roles s r p sent =
      Achieves-bind _ _ _ (server.finds_role s r p) λ role s1 (found, same). rw found (
        Achieves-bind _ _ _ (user_role_json-Achieves s1 r p)
          λ json s2 (text, kept). rw text (Achieves-map_error _ _ (sent s2 λ x. kept x ∙ same x)))

  create_user_realm_role-Achieves :
      (s : env.State) (r : String)
      → plain r ≡ true
      → has s r ≡ false
      → Achieves
          (create_user_realm_role sso realm username r)
          s
          (λ _. Becomes (λ x. x == r || has s x))
  unfolding create_user_realm_role
  create_user_realm_role-Achieves s r p absent =
      Achieves-bind _ _ _ (server.finds_user s) λ user s1 (id, at1). rw id (
        Achieves-bind _ _ _ (server.lists s1) λ roles s2 listed.
          rw ((listed r).0 ∙ at1 r ∙ absent) (
            let at2 = λ (x : String). (listed x).1 ∙ at1 x in
            send_role-Achieves _ _ _ s2 r p λ s3 same.
              Achieves-mono _ _ (server.adds s3 r p (same r ∙ at2 r ∙ absent))
                λ done s4 b x. b x ∙ ap (λ v. x == r || v) (same x ∙ at2 x)))

  delete_user_realm_role-Achieves :
      (s : env.State) (r : String)
      → plain r ≡ true
      → has s r ≡ true
      → Achieves
          (delete_user_realm_role sso realm username r)
          s
          (λ _. Becomes (λ x. not (x == r) && has s x))
  unfolding delete_user_realm_role
  delete_user_realm_role-Achieves s r p present =
      Achieves-bind _ _ _ (server.finds_user s) λ user s1 (id, at1). rw id (
        Achieves-bind _ _ _ (server.lists s1) λ roles s2 listed.
          rw ((listed r).0 ∙ at1 r ∙ present) (
            let at2 = λ (x : String). (listed x).1 ∙ at1 x in
            send_role-Achieves _ _ _ s2 r p λ s3 same.
              Achieves-mono _ _ (server.removes s3 r p (same r ∙ at2 r ∙ present))
                λ done s4 b x. b x ∙ ap (λ v. not (x == r) && v) (same x ∙ at2 x)))

  abbrev step : KeycloakRolePair → Action (Unit {0})
  step = reconcile_user_realm_role sso realm username

  -- What the step for a role is, by its pair.
  module _ (r : String) (full : (r == "") ≡ false) where
    step-add :
        step (record { kc_role = ""; spec_role = r }) ≡ create_user_realm_role sso realm username r
    unfolding reconcile_user_realm_role
    step-add = refl

    step-drop :
        step (record { kc_role = r; spec_role = "" }) ≡ delete_user_realm_role sso realm username r
    unfolding reconcile_user_realm_role
    step-drop = rw full refl

    step-both : step (record { kc_role = r; spec_role = r }) ≡ pure tt
    unfolding reconcile_user_realm_role
    step-both = rw full refl

  some_inj : {A : Type 0} {a b : A} → some a ≡ some b → a ≡ b
  some_inj e = cc

  step_case :
      (s : env.State) (r : String) (spec : List String) (h c : Bool) (pair : KeycloakRolePair)
      → plain r ≡ true
      → (r == "") ≡ false
      → has s r ≡ h
      → contains spec r ≡ c
      → pair_of r h c ≡ some pair
      → Achieves (step pair) s (λ _. Becomes (λ x. if x == r then contains spec r else has s x))
  step_case s r spec true true pair p full hs hc e =
      rw (← some_inj e, step-both r full) (Achieves-pure tt λ x. ground (arith, eq_iff x r))
  step_case s r spec true false pair p full hs hc e =
      rw (← some_inj e, step-drop r full)
        (Achieves-mono (λ _. Becomes (λ x. not (x == r) && has s x)) _
          (delete_user_realm_role-Achieves s r p hs)
          λ done s' b x. b x ∙ ground (arith, eq_iff x r))
  step_case s r spec false true pair p full hs hc e =
      rw (← some_inj e, step-add r full)
        (Achieves-mono (λ _. Becomes (λ x. x == r || has s x)) _
          (create_user_realm_role-Achieves s r p hs)
          λ done s' b x. b x ∙ ground (arith, eq_iff x r))
  step_case s r spec false false pair p full hs hc e = ground arith

  steps : (spec : List String) → Steps has plain spec (λ x h. contains spec x) step
  steps spec s r pair p e =
      step_case s r spec (has s r) (contains spec r) pair p
        (ground (arith, eq_iff r "", server.empty_not_plain)) refl refl e

  -- Where the server keeps its promises about a user, who has the roles that were read, and names
  -- that a URL can carry are all that the user and the spec have, `reconcileUserRealmRoles` succeeds,
  -- and the user then has exactly the roles of the spec, for every order in which Go visits the
  -- pairs.
  pub reconcile_user_roles_lem :
      (kc spec : KeycloakUser) (s : env.State)
      → kc.api.user_name ≡ username
      → ((x : String) → contains kc.api.realm_roles x ≡ has s x)
      → VisitsOnce has
      → ((x : String) → has s x ≡ true → plain x ≡ true)
      → ((x : String) → contains spec.api.realm_roles x ≡ true → plain x ≡ true)
      → Achieves
          (reconcile_user_roles sso realm kc spec)
          s
          (λ _. Becomes (contains spec.api.realm_roles))
  unfolding reconcile_user_roles
  reconcile_user_roles_lem kc spec s name read order plain_had plain_spec =
      let wanted = spec.api.realm_roles in
      rw name (
        each_role_pair_lem has plain wanted (λ x h. contains wanted x) step (steps wanted)
          kc.api.realm_roles s order read plain_had plain_spec (λ x h. h))
