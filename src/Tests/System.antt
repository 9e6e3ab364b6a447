-- ===== src/Tests/System.antt =====
-- Runs of the controllers at one object.
use rhpam_dev_operator.Base.{ℕ, ◌+◌, ◌≤◌, ◌≡◌, refl, [], ◌∷◌}
use rhpam_dev_operator.Api.{RhpamDev, no_phase, accepted, realm_provisioning, realm_provisioned}
use rhpam_dev_operator.Effect.{◌>>=◌}
use rhpam_dev_operator.Common.{add_finalizer, authenticated_client}
use rhpam_dev_operator.Dev.Names.{rhpam_version}
use rhpam_dev_operator.Dev.Phases.{initialize}
use rhpam_dev_operator.Dev.Realm.{provision_realm}
use rhpam_dev_operator.Dev.Reconcile.{reconcile_found}
use rhpam_dev_operator.Dev.Token.{generate_token}
use rhpam_dev_operator.Keycloak.Template.{load_realm_template, load_realm_client_template}
use rhpam_dev_operator.Keycloak.Client.{
  create_realm, create_client, list_clients, get_client_secret,
}
use rhpam_dev_operator.Keycloak.Http as Http
use native.Mathlib.Decide.{dec_lt}
use rhpam_dev_operator.System.{no_more, taken, DevStep, Run, DevRun, reconciles}
use rhpam_dev_operator.System.Runs.{IsEarly, Run-bound, DevRun-waits, Run-stranded}
use rhpam_dev_operator.System.Rising.{rank}
use rhpam_dev_operator.Tests.World.{world, dev_in}

abbrev accepted_dev : RhpamDev
accepted_dev = record (dev_in accepted) {
  status = record { phase = accepted; version = rhpam_version; realm = "" };
}

first_step : DevStep ⦃env = world⦄ no_phase 1 accepted
unfolding reconcile_found initialize add_finalizer ◌>>=◌
first_step =
    reconciles (dev_in no_phase) 0 (accepted_dev ∷ []) refl refl (taken accepted_dev no_more) refl
      refl

abbrev provisioned_dev : RhpamDev
provisioned_dev = record (dev_in accepted) {
  status = record { phase = realm_provisioned; version = rhpam_version; realm = "demo-defghi" };
}

-- Both updates of `ProvisionRealm`'s reconciliation take effect.
second_step : DevStep ⦃env = world⦄ accepted 2 realm_provisioned
unfolding reconcile_found provision_realm authenticated_client generate_token load_realm_template
    create_realm Http.create load_realm_client_template create_client list_clients Http.list
    get_client_secret Http.get dec_lt ◌>>=◌
second_step =
    reconciles (dev_in accepted) 0 (dev_in realm_provisioning ∷ provisioned_dev ∷ []) refl refl
      (taken _ (taken _ no_more)) refl refl

-- Nothing is done in the phase `realm provisioning`.
idle_step : DevStep ⦃env = world⦄ realm_provisioning 0 realm_provisioning
unfolding reconcile_found ◌>>=◌
idle_step = reconciles (dev_in realm_provisioning) 0 [] refl refl no_more refl refl

Run-bound_example : ((3 ≤ 9) × (3 + rank no_phase ≤ 9))
Run-bound_example =
    Run-bound ⦃env = world⦄ (Run.by_dev (Run.by_dev Run.here first_step) second_step)

DevRun-waits_example : IsEarly realm_provisioned
DevRun-waits_example =
    DevRun-waits ⦃env = world⦄ (DevRun.by_dev (DevRun.by_dev DevRun.here first_step) second_step)

Run-stranded_example : (◌≡◌ {A = ℕ} 0 0) × (realm_provisioning ≡ realm_provisioning)
Run-stranded_example = Run-stranded ⦃env = world⦄ (Run.by_dev Run.here idle_step)
