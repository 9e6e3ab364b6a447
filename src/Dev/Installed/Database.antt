-- ===== src/Dev/Installed/Database.antt =====
-- `InstallDatabase` of pkg/controller/rhpamdev/phaseHandler.go, with the secret and the configmap
-- that it creates before the resources.
use rhpam_dev_operator.Base.{
  ℕ, String, ◌<>◌, ◌≡◌, refl, ◌∙◌, ◌||◌, Bool, true, false, List, [], ◌∷◌, All, Dict, arith, eq_iff,
}
use rhpam_dev_operator.Api.{RhpamDev, database_installed}
use rhpam_dev_operator.Objects.{Secret, ConfigMap}
use rhpam_dev_operator.Env.{Env, ok}
use rhpam_dev_operator.Effect.Achieves.{
  Achieves, Refuses, Achieves-pure, Achieves-bind, Achieves-handle, Achieves-rescue, Achieves-step,
  Achieves-lift, Achieves-map_error, Achieves-mono,
}
use rhpam_dev_operator.Cluster
use rhpam_dev_operator.Cluster.{get_secret, get_configmap}
use rhpam_dev_operator.Dev.Names.{database_credentials_secret, database_init_configmap}
use rhpam_dev_operator.Dev.Token.{generate_token}
use rhpam_dev_operator.Dev.Configmap.{
  load_file, fill, configmap_data, new_configmap_helper, init_configmap_resources,
}
use rhpam_dev_operator.Dev.Resources.{
  Resource, create_secret, create_configmap, in_namespace_of, labelled, database_pvc_resource,
  database_service_resource, database_deployment_config_resource,
}
use rhpam_dev_operator.Dev.Resources.Server.{
  ObjectServer, Contains, Loads, is_object, is_one_of, create_resources-Achieves,
}
use rhpam_dev_operator.Dev.Phases.{enter, install_database}

abbrev pub database_resources : List Resource
database_resources =
    database_pvc_resource ∷ database_service_resource ∷ database_deployment_config_resource ∷ []

-- What the phase adds: the secret, the configmap and the resources.
abbrev pub is_of_database : (Resource → String) → String → String → Bool
is_of_database kind_of k n =
    is_object "Secret" database_credentials_secret k n
    || is_object "ConfigMap" database_init_configmap k n
    || is_one_of kind_of database_resources k n

pub record IsReadable ⦃env : Env⦄ (name : String) : Type 0 where
  pub text : String
  pub reads : env.read_file (new_configmap_helper.resource_path <> "/" <> name) ≡ ok text

-- Secrets and configmaps are objects of these two kinds; the clock changes no object, and the files
-- of the configmap are there.
pub record DatabaseServer ⦃env : Env⦄ (cr : RhpamDev) (server : ObjectServer cr) : Type 0 where
  pub ticks : (s : env.State) → Contains cr server (server.has s) (env.unix_time s).1
  pub finds_secret :
      (s : env.State) (name : String)
      → server.has s "Secret" name ≡ true
      → Achieves (get_secret (in_namespace_of cr name)) s (λ _. Contains cr server (server.has s))
  pub misses_secret :
      (s : env.State) (name : String)
      → server.has s "Secret" name ≡ false
      → Refuses (get_secret (in_namespace_of cr name)) s (λ _. Contains cr server (server.has s))
  pub creates_secret :
      (s : env.State) (x : Secret)
      → x.metadata.namespace ≡ cr.metadata.namespace
      → server.has s "Secret" x.metadata.name ≡ false
      → Achieves (Cluster.create_secret x) s (λ _.
        Contains cr server (λ k n. is_object "Secret" x.metadata.name k n || server.has s k n))
  pub finds_configmap :
      (s : env.State) (name : String)
      → server.has s "ConfigMap" name ≡ true
      → Achieves
          (get_configmap (in_namespace_of cr name))
          s
          (λ _. Contains cr server (server.has s))
  pub misses_configmap :
      (s : env.State) (name : String)
      → server.has s "ConfigMap" name ≡ false
      → Refuses (get_configmap (in_namespace_of cr name)) s (λ _. Contains cr server (server.has s))
  pub creates_configmap :
      (s : env.State) (x : ConfigMap)
      → x.metadata.namespace ≡ cr.metadata.namespace
      → server.has s "ConfigMap" x.metadata.name ≡ false
      → Achieves (Cluster.create_configmap x) s (λ _.
        Contains cr server (λ k n. is_object "ConfigMap" x.metadata.name k n || server.has s k n))
  pub loads : All (Loads cr server.has server.kind_of) database_resources
  pub files : All IsReadable init_configmap_resources

module _ ⦃env : Env⦄ (cr : RhpamDev) (server : ObjectServer cr)
    (db : DatabaseServer cr server) where
  open server use {has, kind_of}

  generate_token-Achieves :
      (s : env.State) (n : ℕ) → Achieves (generate_token n) s (λ _. Contains cr server (has s))
  unfolding generate_token
  generate_token-Achieves s n =
      Achieves-bind (λ seed. Contains cr server (has s)) _ _ (Achieves-step _ (db.ticks s))
        λ seed s1 same. Achieves-pure _ same

  fill-Achieves :
      (s : env.State) (names : List String) (contents : Dict String)
      → All IsReadable names
      → Achieves (fill new_configmap_helper names contents) s (λ _. Contains cr server (has s))
  unfolding fill load_file
  fill-Achieves s [] contents all = Achieves-pure _ λ k n. refl
  fill-Achieves s (name ∷ names) contents (file, all) =
      Achieves-bind (λ text. Contains cr server (has s)) _ _
        (Achieves-map_error _ _ (Achieves-lift _ _ file.reads λ k n. refl))
        λ text s1 same.
          Achieves-mono (λ _. Contains cr server (has s1)) _ (fill-Achieves s1 names _ all)
            λ done s2 b k n. b k n ∙ same k n

  create_secret-Achieves :
      (s : env.State) (name : String) (contents : Dict String) (there : Bool)
      → has s "Secret" name ≡ there
      → Achieves
          (create_secret cr name contents)
          s
          (λ _. Contains cr server (λ k n. is_object "Secret" name k n || has s k n))
  unfolding create_secret
  create_secret-Achieves s name contents true h =
      Achieves-handle _ _ _ _ (db.finds_secret s name h) λ found s1 same.
        Achieves-pure _ λ k n. same k n ∙ ground (arith, eq_iff k "Secret", eq_iff n name)
  create_secret-Achieves s name contents false h =
      Achieves-rescue _ _ _ _ (db.misses_secret s name h) λ e s1 same.
        Achieves-handle _ _ _ _ (server.owns s1 (labelled cr name) refl)
          λ owned s2 (at, namespace, kept).
            Achieves-mono _ _ (db.creates_secret s2 _ namespace (rw at (kept _ _ ∙ same _ _ ∙ h)))
              λ done s3 b k n. b k n ∙ rw (at, kept k n, same k n) refl

  create_configmap-Achieves :
      (s : env.State) (name : String) (contents : Dict String) (there : Bool)
      → has s "ConfigMap" name ≡ there
      → Achieves
          (create_configmap cr name contents)
          s
          (λ _. Contains cr server (λ k n. is_object "ConfigMap" name k n || has s k n))
  unfolding create_configmap
  create_configmap-Achieves s name contents true h =
      Achieves-handle _ _ _ _ (db.finds_configmap s name h) λ found s1 same.
        Achieves-pure _ λ k n. same k n ∙ ground (arith, eq_iff k "ConfigMap", eq_iff n name)
  create_configmap-Achieves s name contents false h =
      Achieves-rescue _ _ _ _ (db.misses_configmap s name h) λ e s1 same.
        Achieves-handle _ _ _ _ (server.owns s1 (labelled cr name) refl)
          λ owned s2 (at, namespace, kept).
            Achieves-mono _ _
              (db.creates_configmap s2 _ namespace (rw at (kept _ _ ∙ same _ _ ∙ h)))
              λ done s3 b k n. b k n ∙ rw (at, kept k n, same k n) refl

  -- Where the API server keeps its promises, the templates give the objects that their resources
  -- name and the files of the configmap are there, `InstallDatabase` succeeds from every state of
  -- the cluster, with some of the objects there or none. The object is then in the next phase; the
  -- secret, the configmap and the three resources of the database are there, and otherwise exactly
  -- what was there before.
  pub install_database_lem :
      (s : env.State)
      → Achieves (install_database cr) s (λ d s'.
        (d ≡ enter database_installed cr)
        × Contains cr server (λ k n. is_of_database kind_of k n || has s k n) s')
  unfolding install_database configmap_data
  install_database_lem s = Achieves-bind _ _ _ (generate_token-Achieves s 4) λ suffix s1 at1.
      Achieves-bind _ _ _ (generate_token-Achieves s1 10) λ password s2 at2.
        Achieves-bind _ _ _ (create_secret-Achieves s2 _ _ _ refl) λ done s3 at3.
          Achieves-bind _ _ _ (fill-Achieves s3 init_configmap_resources [] db.files)
            λ contents s4 at4.
              Achieves-bind _ _ _ (create_configmap-Achieves s4 _ _ _ refl) λ done s5 at5.
                Achieves-bind _ _ _
                  (create_resources-Achieves cr server s5 database_resources db.loads)
                  λ done s6 at6. Achieves-pure _ (
                    refl,
                    λ k n. at6 k n ∙ ground (arith, at1 k n, at2 k n, at3 k n, at4 k n, at5 k n),
                  )
