-- ===== src/Tests/Phases.antt =====
-- The phases of a RhpamDev object.
use Prim.Native.Char.{Char}
use rhpam_dev_operator.Base.{
  suc, List, All, String, ◌<>◌, Dict, lookup, contains, if◌then◌else◌, ◌≡◌, refl, true, false, none,
  some, [], ◌∷◌, arith, length, take,
}
use rhpam_dev_operator.Api.{accepted, realm_provisioning}
use rhpam_dev_operator.Objects.{Kind, got}
use rhpam_dev_operator.Env.{Env, ok}
use rhpam_dev_operator.Effect.{◌>>=◌}
use rhpam_dev_operator.Effect.Emits.{Emits}
use rhpam_dev_operator.Common.{authenticated_client}
use rhpam_dev_operator.Dev.Configmap.{ConfigmapHelper, configmap_data}
use rhpam_dev_operator.Dev.Configmap.Contents.{configmap_data_lem}
use rhpam_dev_operator.Dev.Graph.{Follows, reconcile_phase-Follows}
use rhpam_dev_operator.Dev.Progress.{
  idle_realm_provisioning, dev_updates, reconcile_dev-idle, provision_realm-stranded,
}
use rhpam_dev_operator.Dev.Realm.{provision_realm}
use rhpam_dev_operator.Dev.Reconcile.{reconcile_phase, reconcile_dev}
use rhpam_dev_operator.Dev.Template.{parameters_of, parameter_fields}
use rhpam_dev_operator.Dev.Template.Values.{
  all_set, with_kie_server_id, parameters_of-set, parameters_of-kie_server_id,
}
use rhpam_dev_operator.Dev.Token.{generate_token, text_of}
use rhpam_dev_operator.Dev.Token.Letters.{IsLetter, generate_token_lem}
use rhpam_dev_operator.Tests.World.{world, locked_world, dev_in, wrap_index-lt}

abbrev helper : ConfigmapHelper
helper = record { resource_path = "sql" }

reconcile_phase-Follows_example :
    Emits ⦃env = world⦄
      (Follows accepted)
      (reconcile_phase ⦃env = world⦄ accepted (dev_in accepted))
reconcile_phase-Follows_example = reconcile_phase-Follows ⦃env = world⦄ accepted (dev_in accepted)

reconcile_dev-idle_example :
    reconcile_dev ⦃env = world⦄ (record { namespace = "rhpam"; name = "demo" }) 0 ≡ record {
      result = ok (record { requeue = false; error = none });
      state = 1;
      events = got Kind.rhpam_dev (record { namespace = "rhpam"; name = "demo" }) ∷ [];
    }
reconcile_dev-idle_example =
    reconcile_dev-idle ⦃env = world⦄ (record { namespace = "rhpam"; name = "demo" }) 0 1
      {r = dev_in realm_provisioning} refl refl refl idle_realm_provisioning

provision_realm-stranded_example :
    let o = reconcile_phase ⦃env = locked_world⦄ accepted (dev_in accepted) 0 in
    (o.result
      ≡ ok (record {
        requeue = false;
        error = some "Secret sso in namespace sso not found: not found";
      }))
    × (dev_updates o.events ≡ dev_in realm_provisioning ∷ [])
    × (reconcile_dev ⦃env = locked_world⦄ (record { namespace = "rhpam"; name = "demo" }) 7
        ≡ record {
          result = ok (record { requeue = false; error = none });
          state = 8;
          events = got Kind.rhpam_dev (record { namespace = "rhpam"; name = "demo" }) ∷ [];
        })
unfolding provision_realm authenticated_client ◌>>=◌
provision_realm-stranded_example =
    provision_realm-stranded ⦃env = locked_world⦄ (dev_in accepted) (dev_in realm_provisioning) 0 7
      8 (record { namespace = "rhpam"; name = "demo" }) refl refl refl refl refl

-- A world in which the clock stands still.
abbrev still_world : Env
still_world = record world { unix_time = λ s. (5, suc s) }

generate_token_lem_example :
    (short : List Char) × (long : List Char) × ((generate_token ⦃env = still_world⦄ 4 0).result
      ≡ ok (text_of short))
    × ((generate_token ⦃env = still_world⦄ 10 1).result ≡ ok (text_of long))
    × (length short ≡ 4)
    × (length long ≡ 10)
    × All IsLetter long
    × (take 4 long ≡ short)
generate_token_lem_example =
    generate_token_lem ⦃env = still_world⦄ wrap_index-lt 0 1 4 10 (omega arith) refl

parameters_of-set_example : all_set (parameter_fields (parameters_of (dev_in accepted))) ≡ true
parameters_of-set_example = parameters_of-set (dev_in accepted)

parameters_of-kie_server_id_example :
    parameters_of (with_kie_server_id "yours" (dev_in accepted)) ≡ parameters_of (dev_in accepted)
parameters_of-kie_server_id_example = parameters_of-kie_server_id (dev_in accepted) "yours"

configmap_data_lem_example :
    (contents : Dict String) × (configmap_data ⦃env = world⦄ helper ("a.sql" ∷ "b.sh" ∷ []) 0
      ≡ record { result = ok contents; state = 0; events = [] })
    × ((r : String)
        → lookup r contents
          ≡ (if contains ("a.sql" ∷ "b.sh" ∷ []) r then some ("sql/" <> r) else none))
configmap_data_lem_example =
    configmap_data_lem ⦃env = world⦄ helper (λ name. "sql/" <> name) 0 ("a.sql" ∷ "b.sh" ∷ [])
      (refl, (refl, tt))
