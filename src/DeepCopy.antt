-- ===== src/DeepCopy.antt =====
-- pkg/apis/rhpam/v1alpha1/zz_generated.deepcopy.go. `DeepCopyInto` first writes all of `*out`, so it
-- is modelled by what it writes; where it writes an array item by item, the array is written once,
-- when its items are there, since nothing reads it before.
pub mod Memory
pub mod Cells
pub mod Holds
pub mod Independence
pub mod Objects
use rhpam_dev_operator.Base.{ℕ, String, Option, none, some, List, [], ◌∷◌}
use rhpam_dev_operator.Api.{
  RhpamDatabaseConfig, RhpamBusinessCentralConfig, RhpamKieServerConfig, RhpamConfig, RhpamDevSpec,
  RhpamDevStatus, RhpamUserStatus, Role,
}
use rhpam_dev_operator.DeepCopy.Memory.{
  Library, Ptr, UserStruct, UserSpecStruct, DevStruct, UserObjectStruct, ListStruct, InCell, M,
  pure, new, load, store, ◌>>=◌, ◌>>◌,
}
use rhpam_dev_operator.DeepCopy.Cells.{
  database_config_in_cell, business_central_config_in_cell, kie_server_config_in_cell,
  config_in_cell, dev_spec_in_cell, dev_status_in_cell, dev_in_cell, list_object_in_cell,
  user_object_in_cell, user_spec_in_cell, user_status_in_cell, role_in_cell, user_in_cell,
  texts_in_cell, pointers_in_cell, devs_in_cell, user_objects_in_cell,
}

module _ ⦃lib : Library⦄ where
  -- The common text of the `DeepCopy` functions, and of the copies of what a field points to.
  unfoldable pub deep_copy : {T : Type 0} ⦃t : InCell T⦄ → (T → M T) → Ptr → M Ptr
  deep_copy into none = pure none
  deep_copy into (some a) = do out ← new; x ← load a; y ← into x; store out y; pure (some out)

  -- `for i := range *in { … }`
  unfoldable pub copy_each : {T : Type 0} → (T → M T) → List T → M (List T)
  copy_each into [] = pure []
  copy_each into (x ∷ xs) = do y ← into x; ys ← copy_each into xs; pure (y ∷ ys)

  unfoldable pub database_config_into : RhpamDatabaseConfig → M RhpamDatabaseConfig
  database_config_into x = pure x

  unfoldable pub database_config_deep_copy : Ptr → M Ptr
  unfolding deep_copy database_config_into
  database_config_deep_copy = deep_copy database_config_into

  unfoldable pub business_central_config_into :
      RhpamBusinessCentralConfig → M RhpamBusinessCentralConfig
  business_central_config_into x = pure x

  unfoldable pub business_central_config_deep_copy : Ptr → M Ptr
  unfolding deep_copy business_central_config_into
  business_central_config_deep_copy = deep_copy business_central_config_into

  unfoldable pub kie_server_config_into : RhpamKieServerConfig → M RhpamKieServerConfig
  kie_server_config_into x = pure x

  unfoldable pub kie_server_config_deep_copy : Ptr → M Ptr
  unfolding deep_copy kie_server_config_into
  kie_server_config_deep_copy = deep_copy kie_server_config_into

  unfoldable pub dev_status_into : RhpamDevStatus → M RhpamDevStatus
  dev_status_into x = pure x

  unfoldable pub dev_status_deep_copy : Ptr → M Ptr
  unfolding deep_copy dev_status_into
  dev_status_deep_copy = deep_copy dev_status_into

  unfoldable pub user_status_into : RhpamUserStatus → M RhpamUserStatus
  user_status_into x = pure x

  unfoldable pub user_status_deep_copy : Ptr → M Ptr
  unfolding deep_copy user_status_into
  user_status_deep_copy = deep_copy user_status_into

  unfoldable pub role_into : Role → M Role
  role_into x = pure x

  unfoldable pub role_deep_copy : Ptr → M Ptr
  unfolding deep_copy role_into
  role_deep_copy = deep_copy role_into

  unfoldable pub config_into : RhpamConfig → M RhpamConfig
  config_into x = pure (record x {
    database_config = x.database_config;
    business_central_config = x.business_central_config;
    kie_server_config = x.kie_server_config;
  })

  unfoldable pub config_deep_copy : Ptr → M Ptr
  unfolding deep_copy config_into
  config_deep_copy = deep_copy config_into

  unfoldable pub dev_spec_into : RhpamDevSpec → M RhpamDevSpec
  dev_spec_into x = pure (record x { config = x.config })

  unfoldable pub dev_spec_deep_copy : Ptr → M Ptr
  unfolding deep_copy dev_spec_into
  dev_spec_deep_copy = deep_copy dev_spec_into

  unfoldable pub dev_into : DevStruct → M DevStruct
  dev_into x = pure (record x {
    type_meta = x.type_meta;
    object_meta = lib.deep_copy_into x.object_meta;
    spec = x.spec;
    status = x.status;
  })

  unfoldable pub dev_deep_copy : Ptr → M Ptr
  unfolding deep_copy dev_into
  dev_deep_copy = deep_copy dev_into

  unfoldable pub dev_list_into : ListStruct → M ListStruct
  unfolding deep_copy copy_each dev_into
  dev_list_into x = do
    items ← deep_copy (copy_each dev_into) x.items
    pure (record x { items = items })

  unfoldable pub dev_list_deep_copy : Ptr → M Ptr
  unfolding deep_copy dev_list_into
  dev_list_deep_copy = deep_copy dev_list_into

  unfoldable pub user_into : UserStruct → M UserStruct
  unfolding deep_copy
  user_into x = do
    roles ← deep_copy {T = List String} pure x.roles
    pure (record x { roles = roles })

  unfoldable pub user_deep_copy : Ptr → M Ptr
  unfolding deep_copy user_into
  user_deep_copy = deep_copy user_into

  unfoldable pub user_spec_into : UserSpecStruct → M UserSpecStruct
  unfolding deep_copy copy_each role_into user_into
  user_spec_into x = do
    roles ← deep_copy (copy_each (deep_copy role_into)) x.roles
    users ← deep_copy (copy_each (deep_copy user_into)) x.users
    pure (record { roles = roles; users = users })

  unfoldable pub user_spec_deep_copy : Ptr → M Ptr
  unfolding deep_copy user_spec_into
  user_spec_deep_copy = deep_copy user_spec_into

  unfoldable pub user_object_into : UserObjectStruct → M UserObjectStruct
  unfolding user_spec_into
  user_object_into x = do
    spec ← user_spec_into x.spec
    pure (record x { object_meta = lib.deep_copy_into x.object_meta; spec = spec })

  unfoldable pub user_object_deep_copy : Ptr → M Ptr
  unfolding deep_copy user_object_into
  user_object_deep_copy = deep_copy user_object_into

  unfoldable pub user_list_into : ListStruct → M ListStruct
  unfolding deep_copy copy_each user_object_into
  user_list_into x = do
    items ← deep_copy (copy_each user_object_into) x.items
    pure (record x { items = items })

  unfoldable pub user_list_deep_copy : Ptr → M Ptr
  unfolding deep_copy user_list_into
  user_list_deep_copy = deep_copy user_list_into

  -- `if c := in.DeepCopy(); c != nil { return c }; return nil`: a nil pointer gives the nil object.
  unfoldable pub as_object : Ptr → M (Option ℕ)
  as_object none = pure none
  as_object (some a) = pure (some a)

  unfoldable pub dev_deep_copy_object : Ptr → M (Option ℕ)
  unfolding as_object dev_deep_copy
  dev_deep_copy_object p = do c ← dev_deep_copy p; as_object c

  unfoldable pub dev_list_deep_copy_object : Ptr → M (Option ℕ)
  unfolding as_object dev_list_deep_copy
  dev_list_deep_copy_object p = do c ← dev_list_deep_copy p; as_object c

  unfoldable pub user_object_deep_copy_object : Ptr → M (Option ℕ)
  unfolding as_object user_object_deep_copy
  user_object_deep_copy_object p = do c ← user_object_deep_copy p; as_object c

  unfoldable pub user_list_deep_copy_object : Ptr → M (Option ℕ)
  unfolding as_object user_list_deep_copy
  user_list_deep_copy_object p = do c ← user_list_deep_copy p; as_object c
