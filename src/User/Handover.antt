-- ===== src/User/Handover.antt =====
-- The RhpamUser controller hands a RhpamDev object on: pkg/controller/rhpamuser/phaseHandler.go.
use rhpam_dev_operator.Base.{String, ◌≡◌, refl, true, if◌then◌else◌}
use rhpam_dev_operator.Api.{
  RhpamDev, RhpamUser, User, same_phase, realm_provisioned, prepare, complete,
}
use rhpam_dev_operator.Objects.{Event, updated_dev, updated_user, deleted}
use rhpam_dev_operator.Env.{Env}
use rhpam_dev_operator.Effect.Emits.{
  Emits, Emits-mono, Emits-bind, Emits-bind_with, Emits-if, Emits-pure, emits_rules,
}
use rhpam_dev_operator.Common.Access.{
  IsMild, IsAuthenticated, authenticated_client-IsMild, authenticated_client-IsAuthenticated,
}
use rhpam_dev_operator.Keycloak.Interface.{KeycloakInterface}
use rhpam_dev_operator.Keycloak.Traffic.{Confined}
use rhpam_dev_operator.Keycloak.Template.{
  RoleParameters, UserParameters, UserRoleParameters, load_role_template, load_user_template,
  load_user_role_template,
}
use rhpam_dev_operator.User.Members.{create_role, create_user_with_realm_roles}
use rhpam_dev_operator.User.Phases.{create_defaults, join_realm, seed_realm, accept_dev}

-- An update of a RhpamDev object moves `dev` from `realm provisioned` to `prepare`.
abbrev pub HandsOver : RhpamDev → Event → Type 0
HandsOver dev (updated_dev d) =
    (same_phase dev.status.phase realm_provisioned ≡ true)
    × (d ≡ record dev { status = record (dev.status) { phase = prepare } })
HandsOver dev (updated_user u) = ⊥
HandsOver dev (deleted k n) = ⊥
HandsOver dev _ = Unit

HandsOver-mild : (dev : RhpamDev) (e : Event) → IsMild e → HandsOver dev e
HandsOver-mild dev (updated_dev d) h = elim h [ ]
HandsOver-mild dev (updated_user u) h = elim h [ ]
HandsOver-mild dev (deleted k n) h = elim h [ ]
HandsOver-mild dev _ h = tt

module _ ⦃env : Env⦄ where
  pub load_role_template-IsMild : (p : RoleParameters) → Emits IsMild (load_role_template p)
  unfolding load_role_template
  load_role_template-IsMild p = search emits_rules

  pub load_user_template-IsMild : (p : UserParameters) → Emits IsMild (load_user_template p)
  unfolding load_user_template
  load_user_template-IsMild p = search emits_rules

  pub load_user_role_template-IsMild :
      (p : UserRoleParameters) → Emits IsMild (load_user_role_template p)
  unfolding load_user_role_template
  load_user_role_template-IsMild p = search emits_rules

pub ruleset template_rules =
    (load_role_template-IsMild, load_user_template-IsMild, load_user_role_template-IsMild)

module _ ⦃env : Env⦄ (sso : KeycloakInterface) (c : Confined IsMild sso) (realm : String) where
  pub create_role-IsMild : (role : String) → Emits IsMild (create_role sso realm role)
  unfolding create_role
  create_role-IsMild role = search (emits_rules, template_rules, c.get_role, c.create_role) depth 8

  pub create_user_with_realm_roles-IsMild :
      (u : User) → Emits IsMild (create_user_with_realm_roles sso realm u)
  unfolding create_user_with_realm_roles
  create_user_with_realm_roles-IsMild u =
      search
        (
          emits_rules, template_rules, c.find_user_by_username, c.create_user,
          c.get_realm_role_mappings, c.get_role, c.create_user_realm_role,
        )
        depth 14

  pub create_defaults-IsMild : Emits IsMild (create_defaults sso realm)
  unfolding create_defaults
  create_defaults-IsMild =
      search (emits_rules, create_role-IsMild, create_user_with_realm_roles-IsMild)

module _ ⦃env : Env⦄ (dev : RhpamDev) where
  seed_realm-HandsOver :
      (user : RhpamUser)
      → same_phase dev.status.phase realm_provisioned ≡ true
      → Emits (HandsOver dev) (seed_realm dev user)
  unfolding seed_realm
  seed_realm-HandsOver user at =
      Emits-bind_with IsAuthenticated _ _
        (Emits-mono _ (HandsOver-mild dev) authenticated_client-IsMild)
        authenticated_client-IsAuthenticated
        λ (sso, factory) c.
          Emits-bind _ _
            (Emits-mono _ (HandsOver-mild dev) (create_defaults-IsMild sso c dev.status.realm))
            λ _.
              let moved : HandsOver dev
                  (updated_dev (record dev { status = record (dev.status) { phase = prepare } })) =
                (at, refl) in
              search emits_rules

  abbrev joined : RhpamUser → RhpamUser
  joined user = if same_phase dev.status.phase complete then join_realm dev user else user

  -- The step of phase `accepted` for one RhpamDev object updates it only if its phase is
  -- `realm provisioned`, and only to set the phase `prepare`; it updates no RhpamUser object and
  -- deletes nothing in the cluster.
  pub accept_dev-HandsOver : (user : RhpamUser) → Emits (HandsOver dev) (accept_dev dev user)
  unfolding accept_dev
  accept_dev-HandsOver user =
      Emits-if _ _ _ (seed_realm-HandsOver (joined user)) (λ other. Emits-pure _)
