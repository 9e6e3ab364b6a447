-- ===== src/Tests/Users.antt =====
-- Roles of a realm, and the objects that the RhpamDev controller creates and deletes.
use rhpam_dev_operator.Base.{map, ◌≡◌, refl, true, some, [], ◌∷◌}
use rhpam_dev_operator.Api.{RhpamDev, RhpamUser, accepted, realm_provisioned}
use rhpam_dev_operator.Effect.{for_each, ◌>>=◌}
use rhpam_dev_operator.Effect.Emits.{Emits}
use rhpam_dev_operator.Keycloak.Http as Http
use rhpam_dev_operator.Keycloak.Http.{Client}
use rhpam_dev_operator.Keycloak.Client.{delete_realm}
use rhpam_dev_operator.Common.{authenticated_client}
use rhpam_dev_operator.Env.{is_ok}
use rhpam_dev_operator.Dev.Deprovision.{deprovision}
use rhpam_dev_operator.Dev.Deprovision.Deletions.{
  deletions, expected, located, deprovision-deletions,
}
use rhpam_dev_operator.Dev.Deprovision.Assets.{Spares, deprovision-Spares}
use rhpam_dev_operator.Dev.Resources.{
  Resource, service_account_resource, load_object, create_resource,
}
use rhpam_dev_operator.Dev.Resources.Creation.{created_objects, create_resource_lem}
use rhpam_dev_operator.User.Pairs.{role_pairs}
use rhpam_dev_operator.User.Pairs.Lookup.{lookup-role_pairs}
use rhpam_dev_operator.User.Phases.{accept_dev}
use rhpam_dev_operator.User.Reconcile.{reconcile_phase}
use rhpam_dev_operator.User.Graph.{Tracks, reconcile_phase-Tracks}
use rhpam_dev_operator.User.Handover.{HandsOver, accept_dev-HandsOver}
use rhpam_dev_operator.Base.{lookup}
use rhpam_dev_operator.Tests.World.{world, metadata, dev_in}

abbrev client : Client
client = record { url = "https://sso"; token = "t0" }

abbrev user : RhpamUser
user = record {
  metadata = metadata;
  spec = record { roles = record { name = "clerk" } ∷ []; users = [] };
  status = record { phase = accepted; realm = "realm-1" };
}

abbrev resource : Resource
resource = service_account_resource

deprovision-Spares_example :
    Emits ⦃env = world⦄ (Spares (dev_in accepted)) (deprovision ⦃env = world⦄ (dev_in accepted))
deprovision-Spares_example = deprovision-Spares ⦃env = world⦄ (dev_in accepted)

lookup-role_pairs_example :
    lookup "guest" (role_pairs ("admin" ∷ "guest" ∷ []) ("clerk" ∷ []))
    ≡ some (record { kc_role = "guest"; spec_role = "" })
lookup-role_pairs_example = lookup-role_pairs "guest" ("admin" ∷ "guest" ∷ []) ("clerk" ∷ [])

create_resource_lem_example :
    (created_objects (create_resource ⦃env = world⦄ (dev_in accepted) resource 0).events
      ≡ record {
        kind = "Service";
        metadata = record metadata { owners = "demo" ∷ [] };
        body = "./templates/rhpamdev-service-account.yaml";
      }
        ∷ [])
    × (is_ok (create_resource ⦃env = world⦄ (dev_in accepted) resource 0).result ≡ true)
unfolding load_object ◌>>=◌
create_resource_lem_example = create_resource_lem ⦃env = world⦄ (dev_in accepted) resource 0 refl

abbrev fresh_dev : RhpamDev
fresh_dev = dev_in realm_provisioned

accept_dev-HandsOver_example :
    Emits ⦃env = world⦄ (HandsOver fresh_dev) (accept_dev ⦃env = world⦄ fresh_dev user)
accept_dev-HandsOver_example = accept_dev-HandsOver ⦃env = world⦄ fresh_dev user

reconcile_phase-Tracks_example :
    Emits ⦃env = world⦄ (Tracks accepted) (reconcile_phase ⦃env = world⦄ accepted user)
reconcile_phase-Tracks_example = reconcile_phase-Tracks ⦃env = world⦄ user

deprovision-deletions_example :
    deletions (deprovision ⦃env = world⦄ (dev_in accepted) 0).events
    ≡ map (located (dev_in accepted)) expected
unfolding deprovision authenticated_client delete_realm Http.delete for_each ◌>>=◌
deprovision-deletions_example =
    deprovision-deletions ⦃env = world⦄ (dev_in accepted) (λ kind n s. refl) 0
