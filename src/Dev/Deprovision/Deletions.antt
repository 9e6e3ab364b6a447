-- ===== src/Dev/Deprovision/Deletions.antt =====
-- What `Deprovision` of pkg/controller/rhpamdev/phaseHandler.go deletes.
use rhpam_dev_operator.Base.{
  String, Bool, true, false, ◌≡◌, refl, ◌∙◌, ap, arith, All, List, [], ◌∷◌, ◌++◌, map,
  if◌then◌else◌,
}
use rhpam_dev_operator.Api.{NamespacedName, RhpamDev, RhpamUser}
use rhpam_dev_operator.Objects.{
  Event, Kind, deleted, service, route, deployment_config, persistent_volume_claim, configmap,
  secret, service_account,
}
use rhpam_dev_operator.Effect.{Action, pure, for_each, continue, ◌>>=◌}
use rhpam_dev_operator.Env.{Env, Result, ok, err, panic, is_ok}
use rhpam_dev_operator.Effect.Emits.{
  Emits, Emits-mono, Emits-for_each, Emits-map_error, emits_rules,
}
use rhpam_dev_operator.Effect.Returns.{Returns, Holds}
use rhpam_dev_operator.Common.Access.{
  IsMild, IsAuthenticated, authenticated_client-IsMild, authenticated_client-IsAuthenticated,
}
use rhpam_dev_operator.Dev.Resources.{in_namespace_of}
use rhpam_dev_operator.Dev.Deprovision.{assets, deprovision_user, delete_asset, deprovision}

abbrev pub deletions : List Event → List (Kind × NamespacedName)
deletions [] = []
deletions (deleted k n ∷ es) = (k, n) ∷ deletions es
deletions (_ ∷ es) = deletions es

abbrev Keeps : Event → Type 0
Keeps (deleted k n) = ⊥
Keeps _ = Unit

Keeps-mild : (e : Event) → IsMild e → Keeps e
Keeps-mild (deleted k n) h = elim h [ ]
Keeps-mild _ h = tt

deletions-append : (es fs : List Event) → deletions (es ++ fs) ≡ deletions es ++ deletions fs
deletions-append [] fs = refl
deletions-append (deleted k n ∷ es) fs = ap (λ xs. (k, n) ∷ xs) (deletions-append es fs)
deletions-append (_ ∷ es) fs = deletions-append es fs

deletions_of_Keeps : (es : List Event) → All Keeps es → deletions es ≡ []
deletions_of_Keeps [] all = refl
deletions_of_Keeps (deleted k n ∷ es) (h, all) = elim h [ ]
deletions_of_Keeps (_ ∷ es) (h, all) = deletions_of_Keeps es all

-- `m` deletes `ds` in this order where it succeeds, and nothing where it does not.
record Deletes ⦃env : Env⦄ {A : Type 0} (ds : List (Kind × NamespacedName)) (m : Action A)
    : Type 0 where
  at : (s : env.State) → deletions (m s).events ≡ (if is_ok (m s).result then ds else [])

-- `m` succeeds, and deletes `ds` in this order.
record Always ⦃env : Env⦄ {A : Type 0} (ds : List (Kind × NamespacedName)) (m : Action A)
    : Type 0 where
  deletes : (s : env.State) → deletions (m s).events ≡ ds
  succeeds : (s : env.State) → is_ok (m s).result ≡ true

module _ ⦃env : Env⦄ {A B : Type 0} {ds : List (Kind × NamespacedName)} where
  Deletes-continue :
      (R : A → Type 0) (f : A → Action B) (r : Result env.Error A) (s : env.State) (es : List Event)
      → deletions es ≡ []
      → Holds R r
      → ((a : A) → R a → Deletes ds (f a))
      → let o = continue f r s es in deletions o.events ≡ (if is_ok o.result then ds else [])
  Deletes-continue R f (ok a) s es none ra kf = deletions-append es _ ∙ rw none ((kf a ra).at s)
  Deletes-continue R f (err x) s es none ra kf = none
  Deletes-continue R f (panic m) s es none ra kf = none

  Deletes-bind_with :
      (R : A → Type 0) (m : Action A) (f : A → Action B)
      → Emits Keeps m
      → Returns R m
      → ((a : A) → R a → Deletes ds (f a))
      → Deletes ds (m >>= f)
  unfolding ◌>>=◌
  Deletes-bind_with R m f km rm kf = record {
    at = λ s. Deletes-continue R f _ _ _ (deletions_of_Keeps _ (km.at s)) (rm.at s) kf;
  }

  Deletes-bind :
      (m : Action A) (f : A → Action B)
      → Emits Keeps m
      → ((a : A) → Deletes ds (f a))
      → Deletes ds (m >>= f)
  Deletes-bind m f km kf =
      Deletes-bind_with (λ _. Unit) m f km (record { at = λ s. holds (m s).result }) (λ a _. kf a)
    where
      holds : (r : Result env.Error A) → Holds (λ _. Unit) r
      holds (ok a) = tt
      holds (err x) = tt
      holds (panic x) = tt

module _ ⦃env : Env⦄ {A B : Type 0} {ds es : List (Kind × NamespacedName)} where
  Always-continue :
      (f : A → Action B) (r : Result env.Error A) (s : env.State) (evs : List Event)
      → deletions evs ≡ ds
      → is_ok r ≡ true
      → ((a : A) → Always es (f a))
      → let o = continue f r s evs in (deletions o.events ≡ ds ++ es) × (is_ok o.result ≡ true)
  Always-continue f (ok a) s evs d t kf =
      (deletions-append evs _ ∙ rw (d, (kf a).deletes s) refl, (kf a).succeeds s)
  Always-continue f (err x) s evs d t kf = ground arith
  Always-continue f (panic m) s evs d t kf = ground arith

  Always-bind :
      (m : Action A) (f : A → Action B)
      → Always ds m
      → ((a : A) → Always es (f a))
      → Always (ds ++ es) (m >>= f)
  unfolding ◌>>=◌
  Always-bind m f km kf = record {
    deletes = λ s. (Always-continue f _ _ _ (km.deletes s) (km.succeeds s) kf).0;
    succeeds = λ s. (Always-continue f _ _ _ (km.deletes s) (km.succeeds s) kf).1;
  }

module _ ⦃env : Env⦄ {A : Type 0} where
  Always-pure : (a : A) → Always [] (pure a)
  unfolding pure
  Always-pure a = record { deletes = λ s. refl; succeeds = λ s. refl }

module _ ⦃env : Env⦄ {A : Type 0} {ds : List (Kind × NamespacedName)} where
  Deletes-Always : (m : Action A) → Always ds m → Deletes ds m
  Deletes-Always m h = record { at = λ s. h.deletes s ∙ rw (h.succeeds s) refl }

module _ ⦃env : Env⦄ {A : Type 0} (g : A → Kind × NamespacedName) (f : A → Action (Unit {0})) where
  Always-for_each :
      ((a : A) → Always (g a ∷ []) (f a)) → (xs : List A) → Always (map g xs) (for_each f xs)
  unfolding for_each
  Always-for_each h [] = Always-pure tt
  Always-for_each h (x ∷ xs) = Always-bind (f x) _ (h x) (λ _. Always-for_each h xs)

abbrev pub located : RhpamDev → Kind × String → Kind × NamespacedName
located r (kind, name) = (kind, in_namespace_of r name)

-- The names by kind, in the order of `Deprovision`: of the objects that the installation creates,
-- only the service of the KIE server, "rhpam-kieserver", is missing, and the service of Business
-- Central stands in its place.
abbrev pub expected : List (Kind × String)
expected =
    (service, "rhpam-bc")
    ∷ (route, "rhpam-kieserver")
    ∷ (deployment_config, "rhpam-kieserver")
    ∷ (service, "rhpam-bc")
    ∷ (route, "rhpam-bc")
    ∷ (deployment_config, "rhpam-bc")
    ∷ (persistent_volume_claim, "rhpam-bc")
    ∷ (service, "rhpam-postgresql")
    ∷ (deployment_config, "rhpam-postgresql")
    ∷ (persistent_volume_claim, "rhpam-postgresql")
    ∷ (configmap, "rhpam-postgresql-init")
    ∷ (secret, "rhpam-postgresql")
    ∷ (secret, "rhpam-ks-sso")
    ∷ (secret, "rhpam-bc-sso")
    ∷ (service_account, "rhpam")
    ∷ []

abbrev pub is_panic : {E A : Type 0} → Result E A → Bool
is_panic (panic m) = true
is_panic _ = false

module _ ⦃env : Env⦄ (r : RhpamDev) where
  deprovision_user-Keeps : (u : RhpamUser) → Emits Keeps (deprovision_user r u)
  unfolding deprovision_user
  deprovision_user-Keeps u = search emits_rules

  module _
      (calm : (kind : Kind) (n : NamespacedName) (s : env.State)
        → is_panic (env.delete kind n s).0 ≡ false) where
    delete_asset-Always : (a : Kind × String) → Always (located r a ∷ []) (delete_asset r a)
    unfolding delete_asset ◌>>=◌
    delete_asset-Always (kind, name) = record {
      deletes = λ s. ground arith;
      succeeds = λ s. ground (arith, calm kind (in_namespace_of r name) s);
    }

    deprovision-Deletes : Deletes (map (located r) expected) (deprovision r)
    unfolding deprovision
    deprovision-Deletes =
        Deletes-bind_with IsAuthenticated _ _ (Emits-mono _ Keeps-mild authenticated_client-IsMild)
          authenticated_client-IsAuthenticated
          λ (sso, factory) c.
            Deletes-bind _ _
              (Emits-map_error _ _ (Emits-mono _ Keeps-mild (c.delete_realm r.status.realm)))
              λ _. Deletes-bind _ _ (search emits_rules) λ users.
                Deletes-bind _ _ (Emits-for_each _ users deprovision_user-Keeps) λ _.
                  Deletes-Always _ (
                    Always-bind _ _ (Always-for_each (located r) _ delete_asset-Always assets)
                      λ _. Always-pure _)

    -- Where the client's `Delete` does not panic: if `Deprovision` succeeds, it has asked the cluster
    -- to delete, in the object's namespace, the fifteen kinds and names of `expected`, in this order
    -- and nothing else, and if not, it has asked for no deletion at all. So a deletion that is
    -- answered with an error does not make it fail.
    pub deprovision-deletions :
        (s : env.State)
        → deletions (deprovision r s).events
          ≡ (if is_ok (deprovision r s).result then map (located r) expected else [])
    deprovision-deletions = deprovision-Deletes.at
