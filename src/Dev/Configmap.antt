-- ===== src/Dev/Configmap.antt =====
-- pkg/controller/rhpamdev/configmapHelper.go and initConfigmapResources.go
pub mod Contents
use rhpam_dev_operator.Base.{String, ◌<>◌, ◌==◌, List, [], ◌∷◌, Dict, insert, if◌then◌else◌}
use rhpam_dev_operator.Env.{Env}
use rhpam_dev_operator.Effect.{Action, pure, lift, map_error, ◌>>=◌}

unfoldable pub init_configmap_resources : List String
init_configmap_resources =
    "postgresql-jbpm-schema.sql" ∷ "postgresql-jbpm-lo-trigger-clob.sql"
    ∷ "quartz_tables_postgres.sql" ∷ "create_rhpam_database.sh" ∷ "wait_for_postgresql.sh" ∷ []

pub record ConfigmapHelper : Type 0 where
  pub resource_path : String

module _ ⦃env : Env⦄ where
  unfoldable pub new_configmap_helper : ConfigmapHelper
  new_configmap_helper =
      let path = env.getenv "RESOURCE_PATH" in
      record { resource_path = if path == "" then "./resources" else path }

  unfoldable pub load_file : ConfigmapHelper → String → Action String
  load_file c name = lift (env.read_file (c.resource_path <> "/" <> name))

  -- The loop of `data`, from the map that is filled so far.
  unfoldable pub fill : ConfigmapHelper → List String → Dict String → Action (Dict String)
  unfolding load_file
  fill c [] contents = pure contents
  fill c (name ∷ names) contents = do
    s ←
        map_error
          (λ e. env.new_error ("Error reading resource " <> name <> ": " <> env.error_text e))
          (load_file c name)
    fill c names (insert name s contents)

  unfoldable pub configmap_data : ConfigmapHelper → List String → Action (Dict String)
  unfolding fill
  configmap_data c resources = fill c resources []
