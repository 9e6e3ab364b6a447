-- ===== src/Dev/Resources/Server.antt =====
-- What the API server and the templates promise about the objects that `createResource` of
-- pkg/controller/rhpamdev/phaseHandler.go looks up and creates, and what `createResource` makes of it.
use rhpam_dev_operator.Base.{
  String, ◌≡◌, refl, ◌∙◌, ◌==◌, ◌||◌, ◌&&◌, Bool, true, false, List, [], ◌∷◌, ◌++◌, All, arith,
  eq_iff,
}
use rhpam_dev_operator.Api.{ObjectMeta, RhpamDev}
use rhpam_dev_operator.Objects.{Object}
use rhpam_dev_operator.Env.{Env}
use rhpam_dev_operator.Effect.{pure, lift, handle, for_each}
use rhpam_dev_operator.Effect.Achieves.{
  Achieves, Achieves-pure, Achieves-bind, Achieves-handle, Achieves-rescue, Achieves-map_error,
  Achieves-mono, Refuses,
}
use rhpam_dev_operator.Cluster.{get_object, create_object}
use rhpam_dev_operator.Dev.Resources.{
  Resource, load_object, create_missing, create_resource, create_resources, in_namespace_of,
  service_account_resource, business_central_pvc_resource, business_central_service_resource,
  business_central_route_resource, business_central_deployment_resource,
  kie_server_service_resource, kie_server_route_resource, kie_server_deployment_resource,
}

abbrev pub account_resources : List Resource
account_resources = service_account_resource ∷ []

abbrev pub business_central_resources : List Resource
business_central_resources =
    business_central_pvc_resource ∷ business_central_service_resource
    ∷ business_central_route_resource ∷ business_central_deployment_resource ∷ []

abbrev pub kie_server_resources : List Resource
kie_server_resources =
    kie_server_service_resource ∷ kie_server_route_resource ∷ kie_server_deployment_resource ∷ []

abbrev pub installed_resources : List Resource
installed_resources = account_resources ++ business_central_resources ++ kie_server_resources

-- The resource's template renders to an object of a kind, under the resource's name.
abbrev pub Loads :
    ⦃env : Env⦄
    → RhpamDev
    → (env.State → String → String → Bool)
    → (Resource → String)
    → Resource
    → Type 0
Loads ⦃env⦄ cr has kind_of res =
    (s : env.State)
    → Achieves (load_object cr res) s (λ object s'.
      (object.kind ≡ kind_of res)
      × (object.metadata.name ≡ res.name)
      × (object.metadata.namespace ≡ cr.metadata.namespace)
      × ((k n : String) → has s' k n ≡ has s k n))

-- The objects in the namespace of `cr`, by kind and name. `kind_of` is the kind in a resource's
-- template.
pub record ObjectServer ⦃env : Env⦄ (cr : RhpamDev) : Type 0 where
  pub has : env.State → String → String → Bool
  pub kind_of : Resource → String
  pub loads : All (Loads cr has kind_of) installed_resources
  pub finds :
      (s : env.State) (kind name : String)
      → has s kind name ≡ true
      → Achieves
          (get_object kind (in_namespace_of cr name))
          s
          (λ found s'. (k n : String) → has s' k n ≡ has s k n)
  pub misses :
      (s : env.State) (kind name : String)
      → has s kind name ≡ false
      → Refuses
          (get_object kind (in_namespace_of cr name))
          s
          (λ e s'. (env.is_not_found e ≡ true) × ((k n : String) → has s' k n ≡ has s k n))
  pub owns :
      (s : env.State) (metadata : ObjectMeta)
      → metadata.namespace ≡ cr.metadata.namespace
      → Achieves (lift (env.set_controller_reference cr metadata)) s (λ owned s'.
        (owned.name ≡ metadata.name)
        × (owned.namespace ≡ metadata.namespace)
        × ((k n : String) → has s' k n ≡ has s k n))
  pub creates :
      (s : env.State) (object : Object)
      → object.metadata.namespace ≡ cr.metadata.namespace
      → has s object.kind object.metadata.name ≡ false
      → Achieves (create_object object) s (λ done s'.
        (k n : String)
        → has s' k n ≡ ((k == object.kind && n == object.metadata.name) || has s k n))

abbrev pub is_object : String → String → String → String → Bool
is_object kind name k n = k == kind && n == name

-- Whether one of the resources is of this kind and name.
abbrev pub is_one_of : (Resource → String) → List Resource → String → String → Bool
is_one_of kind_of [] k n = false
is_one_of kind_of (res ∷ resources) k n =
    is_object (kind_of res) res.name k n || is_one_of kind_of resources k n

module _ ⦃env : Env⦄ (cr : RhpamDev) (server : ObjectServer cr) where
  open server use {has, kind_of}

  abbrev pub Contains : (String → String → Bool) → env.State → Type 0
  Contains objects s' = (k n : String) → has s' k n ≡ objects k n

  create_missing-Achieves :
      (s : env.State) (res : Resource) (object : Object) (e : env.Error)
      → object.metadata.namespace ≡ cr.metadata.namespace
      → has s object.kind object.metadata.name ≡ false
      → env.is_not_found e ≡ true
      → Achieves
          (create_missing cr res object e)
          s
          (λ _. Contains (λ k n. is_object object.kind object.metadata.name k n || has s k n))
  unfolding create_missing
  create_missing-Achieves s res object e placed absent missing = rw missing (
      Achieves-bind _ _ _ (Achieves-map_error _ _ (server.owns s object.metadata placed))
        λ owned s1 (name, namespace, same). Achieves-map_error _ _ (
          Achieves-mono _ _
            (server.creates s1 (record object { metadata = owned }) (namespace ∙ placed)
              (same _ _ ∙ rw name absent))
            λ done s2 b k n. b k n ∙ rw (name, same k n) refl))

  -- An object that is there changes nothing when it is counted again.
  counted_again :
      (s : env.State) (kind name k n : String)
      → has s kind name ≡ true
      → has s k n ≡ (is_object kind name k n || has s k n)
  counted_again s kind name k n h = ground (arith, eq_iff k kind, eq_iff n name)

  look_up-Achieves :
      (s : env.State) (res : Resource) (object : Object) (there : Bool)
      → object.metadata.name ≡ res.name
      → object.metadata.namespace ≡ cr.metadata.namespace
      → has s object.kind res.name ≡ there
      → Achieves
          (handle
            (get_object object.kind (in_namespace_of cr res.name))
            (λ _. pure tt)
            (create_missing cr res object))
          s
          (λ _. Contains (λ k n. is_object object.kind res.name k n || has s k n))
  look_up-Achieves s res object true name placed h =
      Achieves-handle _ _ _ _ (server.finds s object.kind res.name h) λ found s1 same.
        Achieves-pure _ λ k n. same k n ∙ counted_again s object.kind res.name k n h
  look_up-Achieves s res object false name placed h =
      Achieves-rescue _ _ _ _ (server.misses s object.kind res.name h) λ e s1 (missing, same).
        Achieves-mono _ _
          (create_missing-Achieves s1 res object e placed (same _ _ ∙ rw name h) missing)
          λ done s2 b k n. b k n ∙ rw (name, same k n) refl

  create_resource-Achieves :
      (s : env.State) (res : Resource)
      → Loads cr has kind_of res
      → Achieves
          (create_resource cr res)
          s
          (λ _. Contains (λ k n. is_object (kind_of res) res.name k n || has s k n))
  unfolding create_resource
  create_resource-Achieves s res loads =
      Achieves-bind _ _ _ (Achieves-map_error _ _ (loads s))
        λ object s1 (kind, name, namespace, same).
          Achieves-mono _ _ (look_up-Achieves s1 res object _ name namespace refl)
            λ done s2 b k n. b k n ∙ rw (kind, same k n) refl

  -- `createResource` for each of the resources, in any state of the cluster.
  pub create_resources-Achieves :
      (s : env.State) (resources : List Resource)
      → All (Loads cr has kind_of) resources
      → Achieves
          (create_resources cr resources)
          s
          (λ _. Contains (λ k n. is_one_of kind_of resources k n || has s k n))
  unfolding create_resources for_each
  create_resources-Achieves s [] all = Achieves-pure _ λ k n. refl
  create_resources-Achieves s (res ∷ resources) (loads, all) =
      Achieves-bind _ _ _ (create_resource-Achieves s res loads) λ done s1 b.
        Achieves-mono _ _ (create_resources-Achieves s1 resources all)
          λ done s2 c k n. c k n ∙ ground (arith, b k n)
