-- ===== src/Tests/Database.antt =====
-- The installation of the database in a cluster that keeps the objects that are created in it.
use rhpam_dev_operator.Base.{◌≡◌, refl, ◌||◌, [], ◌∷◌}
use rhpam_dev_operator.Api.{database_installed}
use rhpam_dev_operator.Effect.{call, for_each, ◌>>=◌}
use rhpam_dev_operator.Effect.Achieves.{Achieves}
use rhpam_dev_operator.Dev.Token.{generate_token}
use rhpam_dev_operator.Dev.Configmap.{
  configmap_data, new_configmap_helper, init_configmap_resources,
}
use rhpam_dev_operator.Dev.Resources.{
  create_resources, create_resource, create_secret, create_configmap,
}
use rhpam_dev_operator.Dev.Resources.Server.{Contains}
use rhpam_dev_operator.Dev.Phases.{enter, install_database}
use rhpam_dev_operator.Dev.Installed.Database.{
  DatabaseServer, IsReadable, is_of_database, install_database_lem,
}
use rhpam_dev_operator.Tests.Cluster.{
  Objects, there, kind_of, cluster, dev, server, load_object-Loads, a_secret, a_configmap,
}

readable : (name : _) → IsReadable ⦃env = cluster⦄ name
unfolding new_configmap_helper
readable name = record { text = _; reads = refl }

unfoldable database_server : DatabaseServer ⦃env = cluster⦄ dev server
unfolding server call init_configmap_resources
database_server = record {
  ticks = λ s k n. refl;
  finds_secret = λ s name h. record { value = a_secret; ends = rw h refl; holds = λ k n. refl };
  misses_secret = λ s name h. record { error = "not found"; ends = rw h refl; holds = λ k n. refl };
  creates_secret = λ s x placed h. record { value = tt; ends = refl; holds = λ k n. refl };
  finds_configmap =
      λ s name h. record { value = a_configmap; ends = rw h refl; holds = λ k n. refl };
  misses_configmap =
      λ s name h. record { error = "not found"; ends = rw h refl; holds = λ k n. refl };
  creates_configmap = λ s x placed h. record { value = tt; ends = refl; holds = λ k n. refl };
  loads = (
    load_object-Loads _ (refl, refl),
    (load_object-Loads _ (refl, refl), (load_object-Loads _ (refl, refl), tt)),
  );
  files = (readable _, (readable _, (readable _, (readable _, (readable _, tt)))));
}

-- Another configmap is there.
abbrev occupied : Objects
occupied = ("ConfigMap", "elsewhere") ∷ []

install_database_lem_example :
    Achieves ⦃env = cluster⦄ (install_database ⦃env = cluster⦄ dev) occupied (λ d s'.
      (d ≡ enter database_installed dev)
      × Contains ⦃env = cluster⦄ dev server
          (λ k n. is_of_database kind_of k n || there occupied k n)
          s')
unfolding server
install_database_lem_example =
    install_database_lem ⦃env = cluster⦄ dev server database_server occupied

-- The run itself.
install_database_run :
    (install_database ⦃env = cluster⦄ dev occupied).state
    ≡ ("DeploymentConfig", "rhpam-postgresql")
      ∷ ("Service", "rhpam-postgresql")
      ∷ ("PersistentVolumeClaim", "rhpam-postgresql")
      ∷ ("ConfigMap", "rhpam-postgresql-init")
      ∷ ("Secret", "rhpam-postgresql")
      ∷ occupied
unfolding install_database generate_token create_secret configmap_data create_configmap
    create_resources create_resource init_configmap_resources for_each ◌>>=◌
install_database_run = refl
