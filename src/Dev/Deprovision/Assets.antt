-- ===== src/Dev/Deprovision/Assets.antt =====
-- What `Deprovision` of pkg/controller/rhpamdev/phaseHandler.go deletes.
use rhpam_dev_operator.Base.{String, ◌≡◌, ◌≢◌, refl, All, arith, sym, eq_iff}
use rhpam_dev_operator.Api.{RhpamDev, RhpamUser}
use rhpam_dev_operator.Objects.{Event, Kind, service, deleted, updated_dev, updated_user}
use rhpam_dev_operator.Env.{Env}
use rhpam_dev_operator.Effect.Emits.{
  Emits, Emits-mono, Emits-bind, Emits-bind_with, Emits-for_each_All, Emits-if, Emits-pure,
  emits_rules,
}
use rhpam_dev_operator.Common.Access.{
  IsMild, IsAuthenticated, authenticated_client-IsMild, authenticated_client-IsAuthenticated,
}
use rhpam_dev_operator.Dev.Names.{business_central_service, database_service, kie_server_service}
use rhpam_dev_operator.Dev.Resources.{in_namespace_of}
use rhpam_dev_operator.Dev.Deprovision.{assets, deprovision_user, delete_asset, deprovision}

-- Users of the realm are marked, and objects in the namespace are deleted, but not the service of
-- the KIE server; the object itself is not updated.
abbrev pub Spares : RhpamDev → Event → Type 0
Spares r (deleted kind n) =
    (n.namespace ≡ r.metadata.namespace) × ¬ ((kind ≡ service) × (n.name ≡ kie_server_service))
Spares r (updated_user u) = u.status.realm ≡ r.status.realm
Spares r (updated_dev d) = ⊥
Spares r _ = Unit

Spares-mild : (r : RhpamDev) (e : Event) → IsMild e → Spares r e
Spares-mild r (updated_dev d) h = elim h [ ]
Spares-mild r (updated_user u) h = elim h [ ]
Spares-mild r (deleted k n) h = elim h [ ]
Spares-mild r _ h = tt

abbrev IsSpared : Kind × String → Type 0
IsSpared (kind, name) = (kind ≡ service) → name ≢ kie_server_service

assets-IsSpared : All IsSpared assets
assets-IsSpared = ground (
  arith,
  eq_iff business_central_service kie_server_service,
  eq_iff database_service kie_server_service,
)

module _ ⦃env : Env⦄ (r : RhpamDev) where
  delete_asset-Spares : (a : Kind × String) → IsSpared a → Emits (Spares r) (delete_asset r a)
  unfolding delete_asset
  delete_asset-Spares (kind, name) spared =
      let placed : Spares r (deleted kind (in_namespace_of r name)) =
        (refl, λ (k, m). spared k m) in
      search emits_rules

  deprovision_user-Spares : (u : RhpamUser) → Emits (Spares r) (deprovision_user r u)
  unfolding deprovision_user
  deprovision_user-Spares u =
      Emits-if _ _ _
        (λ e.
          let same : u.status.realm ≡ r.status.realm =
            sym ((eq_iff r.status.realm u.status.realm).0 e) in
          search emits_rules)
        (λ _. Emits-pure tt)

  -- `Deprovision` deletes only in the object's namespace, and never the service of the KIE server.
  -- The users that it updates are in the object's realm, and it does not update a RhpamDev object.
  pub deprovision-Spares : Emits (Spares r) (deprovision r)
  unfolding deprovision
  deprovision-Spares =
      Emits-bind_with IsAuthenticated _ _ (Emits-mono _ (Spares-mild r) authenticated_client-IsMild)
        authenticated_client-IsAuthenticated
        λ (sso, factory) c.
          Emits-bind _ _
            (search (emits_rules, Emits-mono _ (Spares-mild r) (c.delete_realm r.status.realm)))
            λ _. Emits-bind _ _ (search emits_rules) λ users.
              Emits-bind _ _ (search (emits_rules, deprovision_user-Spares)) λ _.
                Emits-bind _ _
                  (Emits-for_each_All IsSpared _ assets assets-IsSpared delete_asset-Spares)
                  λ _. Emits-pure _
