-- ===== src/User/Sync/Roles.antt =====
-- `reconcileRoles` brings a realm to its spec, for every order in which Go visits the map of pairs.
use rhpam_dev_operator.Base.{
  String, ◌≡◌, refl, sym, ◌∙◌, ap, ◌==◌, ◌||◌, ◌&&◌, not, Bool, true, false, some, List, contains,
  arith, eq_iff, if◌then◌else◌,
}
use rhpam_dev_operator.Api.{RhpamUser}
use rhpam_dev_operator.Env.{Env}
use rhpam_dev_operator.Effect.{pure}
use rhpam_dev_operator.Effect.Achieves.{
  Achieves, Achieves-pure, Achieves-bind, Achieves-map_error, Achieves-rescue, Achieves-mono,
}
use rhpam_dev_operator.Keycloak.Types.{KeycloakRolePair}
use rhpam_dev_operator.Keycloak.Interface.{KeycloakInterface}
use rhpam_dev_operator.Keycloak.Server.{RoleServer}
use rhpam_dev_operator.User.Defaults.{is_default_role}
use rhpam_dev_operator.User.Members.{role_names, create_role}
use rhpam_dev_operator.User.Pairs.Lookup.{pair_of}
use rhpam_dev_operator.User.Sync.Visits.{VisitsOnce, Steps, each_role_pair_lem}
use rhpam_dev_operator.User.Sync.{spec_role_names, reconcile_role, reconcile_roles}

-- A role stays or comes if the spec has it, and a default role stays.
abbrev stays : List String → String → Bool → Bool
stays spec r had = contains spec r || (had && is_default_role r)

abbrev pub wanted : List String → (String → Bool) → String → Bool
wanted spec had r = stays spec r (had r)

some_inj : {A : Type 0} {a b : A} → some a ≡ some b → a ≡ b
some_inj e = cc

module _ ⦃env : Env⦄ (sso : KeycloakInterface) (realm : String)
    (server : RoleServer sso realm) where
  open server use {has, plain}

  abbrev pub Becomes : (String → Bool) → env.State → Type 0
  Becomes roles s' = (x : String) → has s' x ≡ roles x

  create_role_lem :
      (s : env.State) (r : String)
      → plain r ≡ true
      → has s r ≡ false
      → Achieves (create_role sso realm r) s (λ _. Becomes (λ x. x == r || has s x))
  unfolding create_role
  create_role_lem s r p absent =
      Achieves-rescue (λ _. Becomes (has s)) _ _ _ (server.misses s r p absent)
        λ e s1 same.
          Achieves-bind (λ json s2. (json ≡ server.rendered r) × Becomes (has s) s2) _ _
            (Achieves-mono (λ json s2. (json ≡ server.rendered r) × Becomes (has s1) s2) _
              (server.renders s1 r p) λ json s2 (j, k). (j, λ x. k x ∙ same x))
            λ json s2 (j, k). Achieves-map_error _ _ (
              rw j (
                Achieves-mono (λ _. Becomes (λ x. x == r || has s2 x)) _
                  (server.creates s2 r p (k r ∙ absent))
                  λ done s3 b x. b x ∙ ap (λ v. x == r || v) (k x)))

  -- What the step for a role is, by its pair.
  module _ (r : String) (full : (r == "") ≡ false) where
    reconcile_role-drop :
        is_default_role r ≡ false
        → reconcile_role sso realm (record { kc_role = r; spec_role = "" })
          ≡ sso.delete_role r realm
    unfolding reconcile_role
    reconcile_role-drop other = rw other

    reconcile_role-default :
        is_default_role r ≡ true
        → reconcile_role sso realm (record { kc_role = r; spec_role = "" }) ≡ pure tt
    unfolding reconcile_role
    reconcile_role-default default = rw (default, full)

    reconcile_role-add :
        reconcile_role sso realm (record { kc_role = ""; spec_role = r }) ≡ create_role sso realm r
    unfolding reconcile_role
    reconcile_role-add = rw full

    reconcile_role-both : reconcile_role sso realm (record { kc_role = r; spec_role = r }) ≡ pure tt
    unfolding reconcile_role
    reconcile_role-both = rw full

  -- The step for one role, by whether the realm has it (`h`), the spec has it (`c`), and it is a
  -- default role (`d`).
  reconcile_role_case :
      (s : env.State) (r : String) (spec : List String) (h c d : Bool) (pair : KeycloakRolePair)
      → plain r ≡ true
      → (r == "") ≡ false
      → has s r ≡ h
      → contains spec r ≡ c
      → is_default_role r ≡ d
      → pair_of r h c ≡ some pair
      → Achieves
          (reconcile_role sso realm pair)
          s
          (λ _. Becomes (λ x. if x == r then wanted spec (has s) r else has s x))
  reconcile_role_case s r spec true true d pair p full hs hc hd e =
      rw (← some_inj e, reconcile_role-both r full)
        (Achieves-pure tt λ x. ground (arith, eq_iff x r))
  reconcile_role_case s r spec true false true pair p full hs hc hd e =
      rw (← some_inj e, reconcile_role-default r full hd)
        (Achieves-pure tt λ x. ground (arith, eq_iff x r))
  reconcile_role_case s r spec true false false pair p full hs hc hd e =
      rw (← some_inj e, reconcile_role-drop r full hd)
        (Achieves-mono (λ _. Becomes (λ x. not (x == r) && has s x)) _ (server.deletes s r p hs)
          λ done s' b x. b x ∙ ground (arith, eq_iff x r))
  reconcile_role_case s r spec false true d pair p full hs hc hd e =
      rw (← some_inj e, reconcile_role-add r full)
        (Achieves-mono (λ _. Becomes (λ x. x == r || has s x)) _ (create_role_lem s r p hs)
          λ done s' b x. b x ∙ ground (arith, eq_iff x r))
  reconcile_role_case s r spec false false d pair p full hs hc hd e = ground arith

  plain-full : (r : String) → plain r ≡ true → (r == "") ≡ false
  plain-full r p = ground (arith, eq_iff r "", server.empty_not_plain)

  reconcile_role-Steps :
      (spec : List String) → Steps has plain spec (stays spec) (reconcile_role sso realm)
  reconcile_role-Steps spec s r pair p e =
      reconcile_role_case s r spec (has s r) (contains spec r) (is_default_role r) pair p
        (plain-full r p) refl refl refl e

  -- Where the server keeps its promises and names that a URL can carry are all that the realm and
  -- the spec have, `reconcileRoles` succeeds, and the realm then has the roles of the spec and the
  -- default roles that it had, and no other, for every order in which Go visits the pairs.
  pub reconcile_roles_lem :
      (user : RhpamUser) (s : env.State)
      → user.status.realm ≡ realm
      → VisitsOnce has
      → ((x : String) → has s x ≡ true → plain x ≡ true)
      → ((x : String) → contains (spec_role_names user.spec.roles) x ≡ true → plain x ≡ true)
      → Achieves
          (reconcile_roles sso user)
          s
          (λ _. Becomes (wanted (spec_role_names user.spec.roles) (has s)))
  unfolding reconcile_roles
  reconcile_roles_lem user s at order plain_had plain_spec =
      let spec = spec_role_names user.spec.roles in
      rw at (
        Achieves-bind _ _ _ (server.lists s) λ roles s1 listed.
          let same = λ (x : String). (listed x).1 in
          Achieves-mono (λ _. Becomes (λ x. stays spec x (has s1 x))) _
            (each_role_pair_lem has plain spec (stays spec) _ (reconcile_role-Steps spec)
              (role_names roles) s1 order (λ x. (listed x).0 ∙ sym (same x))
              (λ x h. plain_had x (sym (same x) ∙ h)) plain_spec (λ x h. rw h refl))
            λ done s2 b x. b x ∙ ap (stays spec x) (same x))
