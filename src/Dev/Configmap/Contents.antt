-- ===== src/Dev/Configmap/Contents.antt =====
-- What the configmap of pkg/controller/rhpamdev/configmapHelper.go holds.
use rhpam_dev_operator.Base.{
  String, ◌<>◌, ◌≡◌, refl, ◌∙◌, All, none, some, List, [], ◌∷◌, contains, Dict, lookup, insert,
  lookup-insert, arith, eq_iff, if◌then◌else◌,
}
use rhpam_dev_operator.Env.{Env, ok}
use rhpam_dev_operator.Effect.{◌>>=◌}
use rhpam_dev_operator.Dev.Configmap.{ConfigmapHelper, fill, configmap_data}

abbrev put_all : (String → String) → List String → Dict String → Dict String
put_all files [] m = m
put_all files (name ∷ names) m = put_all files names (insert name (files name) m)

lookup-put_all :
    (files : String → String) (names : List String) (m : Dict String) (r : String)
    → lookup r (put_all files names m) ≡ (if contains names r then some (files r) else lookup r m)
lookup-put_all files [] m r = refl
lookup-put_all files (k ∷ names) m r =
    lookup-put_all files names _ r ∙ ground (arith, eq_iff r k, lookup-insert r k (files k) m)

module _ ⦃env : Env⦄ (c : ConfigmapHelper) (files : String → String) (s : env.State) where
  -- The resource directory has these files.
  abbrev pub Has : String → Type 0
  Has name = env.read_file (c.resource_path <> "/" <> name) ≡ ok (files name)

  fill_lem :
      (names : List String) (m : Dict String)
      → All Has names
      → fill c names m s ≡ record { result = ok (put_all files names m); state = s; events = [] }
  unfolding fill ◌>>=◌
  fill_lem [] m all = refl
  fill_lem (name ∷ names) m (h, all) =
      ground (arith, h, fill_lem names (insert name (files name) m) all)

  -- Where the resource directory has every file of the list, `data` succeeds and has no effect, and
  -- its map has the content of each file of the list under the file's name, and nothing else.
  pub configmap_data_lem :
      (names : List String)
      → All Has names
      → (contents : Dict String) × (configmap_data c names s
          ≡ record { result = ok contents; state = s; events = [] })
        × ((r : String) → lookup r contents ≡ (if contains names r then some (files r) else none))
  unfolding configmap_data
  configmap_data_lem names all =
      (put_all files names [], fill_lem names [] all, lookup-put_all files names [])
