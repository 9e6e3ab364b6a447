-- ===== src/Dev/Mildness.antt =====
-- The phase methods of pkg/controller/rhpamdev/phaseHandler.go update and delete nothing but for
-- the first step of `ProvisionRealm` and for `Deprovision`.
use rhpam_dev_operator.Base.{String, List, Dict, ◌∷◌, []}
use rhpam_dev_operator.Api.{RhpamDev}
use rhpam_dev_operator.Env.{Env}
use rhpam_dev_operator.Effect.Emits.{Emits, Emits-bind_with, emits_rules}
use rhpam_dev_operator.Common.Access.{
  IsMild, IsAuthenticated, add_finalizer-IsMild, authenticated_client-IsMild,
  authenticated_client-IsAuthenticated,
}
use rhpam_dev_operator.Keycloak.Template.{
  RealmParameters, RealmClientParameters, load_realm_template, load_realm_client_template,
}
use rhpam_dev_operator.Keycloak.Interface.{KeycloakInterface}
use rhpam_dev_operator.Keycloak.Traffic.{Confined}
use rhpam_dev_operator.Dev.Template
use rhpam_dev_operator.Dev.Token.{generate_token}
use rhpam_dev_operator.Dev.Configmap.{ConfigmapHelper, load_file, fill, configmap_data}
use rhpam_dev_operator.Dev.Resources.{
  Resource, create_resource, create_resources, create_secret, create_configmap,
}
use rhpam_dev_operator.Dev.Realm.{create_realm_client, share_client_secret, provision}
use rhpam_dev_operator.Dev.Phases.{
  initialize, prepare_phase, install_database, install_business_central, wait_for_database,
  install_kie_server,
}

module _ ⦃env : Env⦄ where
  create_resource-IsMild : (cr : RhpamDev) (res : Resource) → Emits IsMild (create_resource cr res)
  unfolding create_resource Template.load_template
  create_resource-IsMild cr res = search emits_rules depth 9

  create_resources-IsMild :
      (cr : RhpamDev) (resources : List Resource) → Emits IsMild (create_resources cr resources)
  unfolding create_resources
  create_resources-IsMild cr resources = search (emits_rules, create_resource-IsMild)

  create_secret-IsMild :
      (cr : RhpamDev) (name : String) (contents : Dict String)
      → Emits IsMild (create_secret cr name contents)
  unfolding create_secret
  create_secret-IsMild cr name contents = search emits_rules depth 7

  create_configmap-IsMild :
      (cr : RhpamDev) (name : String) (contents : Dict String)
      → Emits IsMild (create_configmap cr name contents)
  unfolding create_configmap
  create_configmap-IsMild cr name contents = search emits_rules depth 7

  generate_token-IsMild : (n : _) → Emits IsMild (generate_token n)
  unfolding generate_token
  generate_token-IsMild n = search emits_rules

  fill-IsMild :
      (c : ConfigmapHelper) (names : List String) (contents : Dict String)
      → Emits IsMild (fill c names contents)
  unfolding fill load_file
  fill-IsMild c [] contents = search emits_rules
  fill-IsMild c (name ∷ names) contents = search (emits_rules, fill-IsMild c names)

  ruleset steps = (
    emits_rules, add_finalizer-IsMild, create_resources-IsMild, create_secret-IsMild,
    create_configmap-IsMild, generate_token-IsMild, fill-IsMild,
  )

  pub initialize-IsMild : (r : RhpamDev) → Emits IsMild (initialize r)
  unfolding initialize
  initialize-IsMild r = search steps

  pub prepare_phase-IsMild : (r : RhpamDev) → Emits IsMild (prepare_phase r)
  unfolding prepare_phase
  prepare_phase-IsMild r = search steps

  pub install_database-IsMild : (r : RhpamDev) → Emits IsMild (install_database r)
  unfolding install_database configmap_data
  install_database-IsMild r = search steps depth 9

  pub install_business_central-IsMild : (r : RhpamDev) → Emits IsMild (install_business_central r)
  unfolding install_business_central
  install_business_central-IsMild r = search steps

  pub wait_for_database-IsMild : (r : RhpamDev) → Emits IsMild (wait_for_database r)
  unfolding wait_for_database
  wait_for_database-IsMild r = search steps depth 7

  pub install_kie_server-IsMild : (r : RhpamDev) → Emits IsMild (install_kie_server r)
  unfolding install_kie_server
  install_kie_server-IsMild r = search steps

module _ ⦃env : Env⦄ where
  load_realm_template-IsMild : (p : RealmParameters) → Emits IsMild (load_realm_template p)
  unfolding load_realm_template
  load_realm_template-IsMild p = search emits_rules depth 7

  create_realm_client-IsMild :
      (sso : KeycloakInterface) (realm : String) (p : RealmClientParameters)
      → Confined IsMild sso
      → Emits IsMild (create_realm_client sso realm p)
  unfolding create_realm_client load_realm_client_template
  create_realm_client-IsMild sso realm p c = search (emits_rules, c.create_client) depth 8

  share_client_secret-IsMild :
      (sso : KeycloakInterface) (rhpam : RhpamDev) (url realm secret client : String)
      → Confined IsMild sso
      → Emits IsMild (share_client_secret sso rhpam url realm secret client)
  unfolding share_client_secret
  share_client_secret-IsMild sso rhpam url realm secret client c =
      search (emits_rules, c.list_clients, c.get_client_secret, create_secret-IsMild) depth 8

  pub provision-IsMild : (r : RhpamDev) → Emits IsMild (provision r)
  unfolding provision
  provision-IsMild r =
      Emits-bind_with IsAuthenticated _ _ authenticated_client-IsMild
        authenticated_client-IsAuthenticated
        λ (sso, factory) c.
          search
            (
              emits_rules, generate_token-IsMild, load_realm_template-IsMild, c.create_realm,
              create_realm_client-IsMild, share_client_secret-IsMild,
            )
            depth 14
