-- ===== src/Tests/Cluster.antt =====
-- A cluster that keeps the objects that are created in it, and the installation in it.
use rhpam_dev_operator.Base.{
  String, ◌<>◌, ◌≡◌, refl, ◌==◌, ◌||◌, ◌&&◌, Bool, false, List, [], ◌∷◌, if◌then◌else◌,
}
use rhpam_dev_operator.Api.{RhpamDev, prepare, prepared, business_central_installed, complete}
use rhpam_dev_operator.Objects.{Object, Secret, ConfigMap}
use rhpam_dev_operator.Env.{Env, ok, err}
use rhpam_dev_operator.Effect.{lift, call, for_each, ◌>>=◌}
use rhpam_dev_operator.Dev.Resources.{Resource, load_object, create_resource, create_resources}
use rhpam_dev_operator.Dev.Phases.{prepare_phase, install_business_central, install_kie_server}
use rhpam_dev_operator.Dev.Resources.Server.{
  ObjectServer, Loads, account_resources, business_central_resources, kie_server_resources,
}
use rhpam_dev_operator.Dev.Installed.{Installs, installs_lem}
use rhpam_dev_operator.Tests.World.{world_over, metadata, dev_in}

abbrev pub Objects : Type 0
Objects = List (String × String)

abbrev pub there : Objects → String → String → Bool
there [] k n = false
there ((kind, name) ∷ objects) k n = (k == kind && n == name) || there objects k n

abbrev pub object_of : String → String → Object
object_of kind name = record {
  kind = kind;
  metadata = record metadata { name = name; owners = [] };
  body = "";
}

abbrev pub parsed : String → Object
parsed text =
    if text == "./templates/rhpamdev-postgresql-pvc.yaml"
    then object_of "PersistentVolumeClaim" "rhpam-postgresql"
    else if text == "./templates/rhpamdev-postgresql-service.yaml"
    then object_of "Service" "rhpam-postgresql"
    else if text == "./templates/rhpamdev-postgresql-dc.yaml"
    then object_of "DeploymentConfig" "rhpam-postgresql"
    else if text == "./templates/rhpamdev-service-account.yaml"
    then object_of "ServiceAccount" "rhpam"
    else if text == "./templates/rhpamdev-bc-pvc.yaml"
    then object_of "PersistentVolumeClaim" "rhpam-bc"
    else if text == "./templates/rhpamdev-bc-service.yaml"
    then object_of "Service" "rhpam-bc"
    else if text == "./templates/rhpamdev-bc-route.yaml"
    then object_of "Route" "rhpam-bc"
    else if text == "./templates/rhpamdev-bc-dc.yaml"
    then object_of "DeploymentConfig" "rhpam-bc"
    else if text == "./templates/rhpamdev-ks-service.yaml"
    then object_of "Service" "rhpam-kieserver"
    else if text == "./templates/rhpamdev-ks-route.yaml"
    then object_of "Route" "rhpam-kieserver"
    else object_of "DeploymentConfig" "rhpam-kieserver"

abbrev pub kind_of : Resource → String
kind_of res = (parsed ("./templates" <> "/" <> res.template <> ".yaml")).kind

abbrev pub a_secret : Secret
a_secret = record { metadata = metadata; contents = []; type = "Opaque" }

abbrev pub a_configmap : ConfigMap
a_configmap = record { metadata = metadata; contents = [] }

instance abbrev pub cluster : Env
cluster = record (world_over Objects (λ s. s) (λ s. 0)) {
  unmarshal_object = λ text. ok (parsed text);
  get_object =
      λ kind n s. (if there s kind n.name then ok (object_of kind n.name) else err "not found", s);
  get_secret = λ n s. (if there s "Secret" n.name then ok a_secret else err "not found", s);
  create_secret = λ x s. (ok tt, ("Secret", x.metadata.name) ∷ s);
  get_configmap =
      λ n s. (if there s "ConfigMap" n.name then ok a_configmap else err "not found", s);
  create_configmap = λ x s. (ok tt, ("ConfigMap", x.metadata.name) ∷ s);
  create_object = λ x s. (ok tt, (x.kind, x.metadata.name) ∷ s);
}

abbrev pub dev : RhpamDev
dev = dev_in prepare

-- Each template renders its own path.
pub load_object-Loads :
    (res : Resource)
    → let object = parsed ("./templates" <> "/" <> res.template <> ".yaml") in
      (object.metadata.name ≡ res.name) × (object.metadata.namespace ≡ dev.metadata.namespace)
      → Loads ⦃env = cluster⦄ dev there kind_of res
unfolding load_object ◌>>=◌
load_object-Loads res (name, place) s = record {
  value = parsed ("./templates" <> "/" <> res.template <> ".yaml");
  ends = refl;
  holds = (refl, name, place, λ k n. refl);
}

unfoldable pub server : ObjectServer ⦃env = cluster⦄ dev
unfolding call lift
server = record {
  has = there;
  kind_of = kind_of;
  loads = (
    load_object-Loads _ (refl, refl),
    (
      load_object-Loads _ (refl, refl),
      (
        load_object-Loads _ (refl, refl),
        (
          load_object-Loads _ (refl, refl),
          (
            load_object-Loads _ (refl, refl),
            (
              load_object-Loads _ (refl, refl),
              (load_object-Loads _ (refl, refl), (load_object-Loads _ (refl, refl), tt)),
            ),
          ),
        ),
      ),
    ),
  );
  finds = λ s kind name h. record {
    value = object_of kind name;
    ends = rw h refl;
    holds = λ k n. refl;
  };
  misses = λ s kind name h. record {
    error = "not found";
    ends = rw h refl;
    holds = (refl, λ k n. refl);
  };
  owns = λ s m h. record {
    value = record m { owners = "demo" ∷ [] };
    ends = refl;
    holds = (refl, refl, λ k n. refl);
  };
  creates = λ s object placed h. record { value = tt; ends = refl; holds = λ k n. refl };
}

-- One of the services is there already.
abbrev pub partly : Objects
partly = ("Service", "rhpam-bc") ∷ []

installs_lem_example :
    Installs ⦃env = cluster⦄ dev server partly
      (prepare_phase ⦃env = cluster⦄ dev)
      prepared
      account_resources
    × Installs ⦃env = cluster⦄ dev server partly
        (install_business_central ⦃env = cluster⦄ dev)
        business_central_installed
        business_central_resources
    × Installs ⦃env = cluster⦄ dev server partly
        (install_kie_server ⦃env = cluster⦄ dev)
        complete
        kie_server_resources
installs_lem_example = installs_lem ⦃env = cluster⦄ dev server partly

-- The run itself creates the other three.
install_business_central_run :
    (install_business_central ⦃env = cluster⦄ dev partly).state
    ≡ ("DeploymentConfig", "rhpam-bc")
      ∷ ("Route", "rhpam-bc")
      ∷ ("PersistentVolumeClaim", "rhpam-bc")
      ∷ partly
unfolding install_business_central create_resources create_resource for_each ◌>>=◌
install_business_central_run = refl
