-- ===== src/DeepCopy/Cells.antt =====
-- Each type's place in a cell.
use rhpam_dev_operator.Base.{refl, String, Option, none, some, List}
use rhpam_dev_operator.Api.{
  RhpamDatabaseConfig, RhpamBusinessCentralConfig, RhpamKieServerConfig, RhpamConfig, RhpamDevSpec,
  RhpamDevStatus, RhpamUserStatus, Role,
}
use rhpam_dev_operator.DeepCopy.Memory.{
  Library, Ptr, UserStruct, UserSpecStruct, DevStruct, UserObjectStruct, ListStruct, Cell, InCell,
  database_config, business_central_config, kie_server_config, config, dev_spec, dev_status, dev,
  list_object, user_object, user_spec, user_status, role, user, texts, pointers, devs, user_objects,
}

module _ ⦃lib : Library⦄ where
  abbrev to_database_config : Cell → Option RhpamDatabaseConfig
  to_database_config (database_config x) = some x
  to_database_config _ = none

  instance abbrev pub database_config_in_cell : InCell RhpamDatabaseConfig
  database_config_in_cell = record {
    pack = database_config;
    unpack = to_database_config;
    unpack-pack = λ x. refl;
  }

  abbrev to_business_central_config : Cell → Option RhpamBusinessCentralConfig
  to_business_central_config (business_central_config x) = some x
  to_business_central_config _ = none

  instance abbrev pub business_central_config_in_cell : InCell RhpamBusinessCentralConfig
  business_central_config_in_cell = record {
    pack = business_central_config;
    unpack = to_business_central_config;
    unpack-pack = λ x. refl;
  }

  abbrev to_kie_server_config : Cell → Option RhpamKieServerConfig
  to_kie_server_config (kie_server_config x) = some x
  to_kie_server_config _ = none

  instance abbrev pub kie_server_config_in_cell : InCell RhpamKieServerConfig
  kie_server_config_in_cell = record {
    pack = kie_server_config;
    unpack = to_kie_server_config;
    unpack-pack = λ x. refl;
  }

  abbrev to_config : Cell → Option RhpamConfig
  to_config (config x) = some x
  to_config _ = none

  instance abbrev pub config_in_cell : InCell RhpamConfig
  config_in_cell = record { pack = config; unpack = to_config; unpack-pack = λ x. refl }

  abbrev to_dev_spec : Cell → Option RhpamDevSpec
  to_dev_spec (dev_spec x) = some x
  to_dev_spec _ = none

  instance abbrev pub dev_spec_in_cell : InCell RhpamDevSpec
  dev_spec_in_cell = record { pack = dev_spec; unpack = to_dev_spec; unpack-pack = λ x. refl }

  abbrev to_dev_status : Cell → Option RhpamDevStatus
  to_dev_status (dev_status x) = some x
  to_dev_status _ = none

  instance abbrev pub dev_status_in_cell : InCell RhpamDevStatus
  dev_status_in_cell = record { pack = dev_status; unpack = to_dev_status; unpack-pack = λ x. refl }

  abbrev to_dev : Cell → Option DevStruct
  to_dev (dev x) = some x
  to_dev _ = none

  instance abbrev pub dev_in_cell : InCell DevStruct
  dev_in_cell = record { pack = dev; unpack = to_dev; unpack-pack = λ x. refl }

  abbrev to_list_object : Cell → Option ListStruct
  to_list_object (list_object x) = some x
  to_list_object _ = none

  instance abbrev pub list_object_in_cell : InCell ListStruct
  list_object_in_cell = record {
    pack = list_object;
    unpack = to_list_object;
    unpack-pack = λ x. refl;
  }

  abbrev to_user_object : Cell → Option UserObjectStruct
  to_user_object (user_object x) = some x
  to_user_object _ = none

  instance abbrev pub user_object_in_cell : InCell UserObjectStruct
  user_object_in_cell = record {
    pack = user_object;
    unpack = to_user_object;
    unpack-pack = λ x. refl;
  }

  abbrev to_user_spec : Cell → Option UserSpecStruct
  to_user_spec (user_spec x) = some x
  to_user_spec _ = none

  instance abbrev pub user_spec_in_cell : InCell UserSpecStruct
  user_spec_in_cell = record { pack = user_spec; unpack = to_user_spec; unpack-pack = λ x. refl }

  abbrev to_user_status : Cell → Option RhpamUserStatus
  to_user_status (user_status x) = some x
  to_user_status _ = none

  instance abbrev pub user_status_in_cell : InCell RhpamUserStatus
  user_status_in_cell = record {
    pack = user_status;
    unpack = to_user_status;
    unpack-pack = λ x. refl;
  }

  abbrev to_role : Cell → Option Role
  to_role (role x) = some x
  to_role _ = none

  instance abbrev pub role_in_cell : InCell Role
  role_in_cell = record { pack = role; unpack = to_role; unpack-pack = λ x. refl }

  abbrev to_user : Cell → Option UserStruct
  to_user (user x) = some x
  to_user _ = none

  instance abbrev pub user_in_cell : InCell UserStruct
  user_in_cell = record { pack = user; unpack = to_user; unpack-pack = λ x. refl }

  abbrev to_texts : Cell → Option (List String)
  to_texts (texts x) = some x
  to_texts _ = none

  instance abbrev pub texts_in_cell : InCell (List String)
  texts_in_cell = record { pack = texts; unpack = to_texts; unpack-pack = λ x. refl }

  abbrev to_pointers : Cell → Option (List Ptr)
  to_pointers (pointers x) = some x
  to_pointers _ = none

  instance abbrev pub pointers_in_cell : InCell (List Ptr)
  pointers_in_cell = record { pack = pointers; unpack = to_pointers; unpack-pack = λ x. refl }

  abbrev to_devs : Cell → Option (List DevStruct)
  to_devs (devs x) = some x
  to_devs _ = none

  instance abbrev pub devs_in_cell : InCell (List DevStruct)
  devs_in_cell = record { pack = devs; unpack = to_devs; unpack-pack = λ x. refl }

  abbrev to_user_objects : Cell → Option (List UserObjectStruct)
  to_user_objects (user_objects x) = some x
  to_user_objects _ = none

  instance abbrev pub user_objects_in_cell : InCell (List UserObjectStruct)
  user_objects_in_cell = record {
    pack = user_objects;
    unpack = to_user_objects;
    unpack-pack = λ x. refl;
  }
