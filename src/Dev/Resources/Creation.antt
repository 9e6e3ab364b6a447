-- ===== src/Dev/Resources/Creation.antt =====
-- When `createResource` of pkg/controller/rhpamdev/phaseHandler.go creates an object.
use rhpam_dev_operator.Base.{Bool, true, false, ◌&&◌, ◌≡◌, List, [], ◌∷◌, arith, if◌then◌else◌}
use rhpam_dev_operator.Api.{ObjectMeta, RhpamDev}
use rhpam_dev_operator.Objects.{Event, Object, created_object}
use rhpam_dev_operator.Env.{Env, Result, ok, err, is_ok}
use rhpam_dev_operator.Effect.{◌>>=◌}
use rhpam_dev_operator.Dev.Resources.{Resource, load_object, create_resource, in_namespace_of}

abbrev pub created_objects : List Event → List Object
created_objects [] = []
created_objects (created_object x ∷ es) = x ∷ created_objects es
created_objects (_ ∷ es) = created_objects es

-- What is to be created, by how `Get` and the setting of the owner end.
abbrev pub to_create :
    {E : Type 0} → (E → Bool) → Result E Object → Result E ObjectMeta → Object → List Object
to_create is_not_found (err e) (ok metadata) object =
    if is_not_found e then record object { metadata = metadata } ∷ [] else []
to_create is_not_found _ _ object = []

-- Whether `createResource` succeeds, by how `Get`, the setting of the owner and `Create` end.
abbrev pub succeeds :
    {E : Type 0}
    → (E → Bool)
    → Result E Object
    → Result E ObjectMeta
    → (ObjectMeta → Result E (Unit {0}))
    → Bool
succeeds is_not_found (ok x) _ _ = true
succeeds is_not_found (err e) (ok metadata) create = is_not_found e && is_ok (create metadata)
succeeds is_not_found _ _ _ = false

module _ ⦃env : Env⦄ (cr : RhpamDev) (res : Resource) (s : env.State) {object : Object} where
  -- Where the template gives an object without an event, `createResource` looks it up under the
  -- resource's name in the namespace of `cr`. It creates the object, with its owner set, exactly if
  -- the lookup fails with "not found" and the owner can be set, and creates nothing in every other
  -- case. It succeeds exactly if the lookup finds the object or the creation succeeds.
  pub create_resource_lem :
      load_object cr res s ≡ record { result = ok object; state = s; events = [] }
      → let found = env.get_object object.kind (in_namespace_of cr res.name) s in
        let owned = env.set_controller_reference cr object.metadata in
        let created =
          λ (m : ObjectMeta). (env.create_object (record object { metadata = m }) found.1).0 in
        let o = create_resource cr res s in
        (created_objects o.events ≡ to_create env.is_not_found found.0 owned object)
        × (is_ok o.result ≡ succeeds env.is_not_found found.0 owned created)
  unfolding create_resource ◌>>=◌
  create_resource_lem h = (ground arith, ground arith)
