-- ===== src/Dev/Progress.antt =====
-- Where the RhpamDev controller does nothing, and how it can come to stay there.
use rhpam_dev_operator.Base.{
  String, append-nil, ◌≡◌, refl, ap, ◌∙◌, false, none, some, List, [], ◌∷◌, ◌++◌, All, arith,
  eq_refl,
}
use rhpam_dev_operator.Api.{
  StatusPhase, RhpamDev, RhpamDevStatus, accepted, realm_provisioning, complete, initialized,
  realm_provisioned, kie_server_installed, reconcile, deprovisioned, deprovision_failed, other,
}
use rhpam_dev_operator.Objects.{Event, Kind, got, updated_dev}
use rhpam_dev_operator.Env.{Env, Result, ok, err, panic}
use rhpam_dev_operator.Effect.{Action, continue, ◌>>=◌}
use rhpam_dev_operator.Effect.Emits.{Emits}
use rhpam_dev_operator.Cluster.{ReconcileRequest}
use rhpam_dev_operator.Common.Access.{IsMild}
use rhpam_dev_operator.Dev.Mildness.{provision-IsMild}
use rhpam_dev_operator.Dev.Realm.{store_dev, provision, provision_realm}
use rhpam_dev_operator.Dev.Reconcile.{store_result, reconcile_phase, reconcile_found, reconcile_dev}

-- The phases that another actor must end, or that end the installation.
pub data IsIdle : StatusPhase → Type 0 where
  idle_initialized : IsIdle initialized
  idle_realm_provisioning : IsIdle realm_provisioning
  idle_realm_provisioned : IsIdle realm_provisioned
  idle_kie_server_installed : IsIdle kie_server_installed
  idle_reconcile : IsIdle reconcile
  idle_complete : IsIdle complete
  idle_deprovisioned : IsIdle deprovisioned
  idle_deprovision_failed : IsIdle deprovision_failed
  idle_other : (text : String) → IsIdle (other text)

-- The RhpamDev objects that are sent to the server as updates.
abbrev pub dev_updates : List Event → List RhpamDev
dev_updates [] = []
dev_updates (updated_dev r ∷ es) = r ∷ dev_updates es
dev_updates (_ ∷ es) = dev_updates es

pub dev_updates-append :
    (es fs : List Event) → dev_updates (es ++ fs) ≡ dev_updates es ++ dev_updates fs
dev_updates-append [] fs = refl
dev_updates-append (updated_dev r ∷ es) fs = ap (λ rs. r ∷ rs) (dev_updates-append es fs)
dev_updates-append (_ ∷ es) fs = dev_updates-append es fs

pub dev_updates_of_mild : (es : List Event) → All IsMild es → dev_updates es ≡ []
dev_updates_of_mild [] h = refl
dev_updates_of_mild (updated_dev r ∷ es) (h, all) = elim h [ ]
dev_updates_of_mild (_ ∷ es) (h, all) = dev_updates_of_mild es all

module _ ⦃env : Env⦄ where
  reconcile_phase-idle :
      {p : StatusPhase}
      → IsIdle p
      → (r : RhpamDev) (s : env.State)
      → reconcile_phase p r s
        ≡ record { result = ok (record { requeue = false; error = none }); state = s; events = [] }
  unfolding reconcile_phase ◌>>=◌
  reconcile_phase-idle idle_initialized r s = refl
  reconcile_phase-idle _ r s = refl

  -- An object that is not being deleted and is in an idle phase, `realm provisioning` among them, is
  -- read and nothing else is done; the request is not queued again.
  pub reconcile_dev-idle :
      (request : ReconcileRequest) (s s' : env.State) {r : RhpamDev}
      → env.watch_namespace ≡ ok request.namespace
      → env.get_rhpamdev request s ≡ (ok r, s')
      → r.metadata.deletion_timestamp ≡ none
      → IsIdle r.status.phase
      → reconcile_dev request s ≡ record {
        result = ok (record { requeue = false; error = none });
        state = s';
        events = got Kind.rhpam_dev request ∷ [];
      }
  unfolding reconcile_dev reconcile_found ◌>>=◌
  reconcile_dev-idle request s s' {r} watch found alive idle =
      ground (arith, eq_refl request.namespace, reconcile_phase-idle idle r s')

  pub dev_updates-store_result :
      (r : RhpamDev) (s : env.State) → dev_updates (store_result r s).events ≡ r ∷ []
  unfolding store_result ◌>>=◌
  dev_updates-store_result r s = ground arith

  abbrev pub provisioning : RhpamDev → RhpamDev
  provisioning r = record r { status = record (r.status) { phase = realm_provisioning } }

  dev_updates-continue :
      {A B : Type 0} (f : A → Action B) (r : Result env.Error A) (s : env.State) (es : List Event)
      → ((a : A) → Emits IsMild (f a))
      → dev_updates (continue f r s es).events ≡ dev_updates es
  dev_updates-continue f (ok a) s es h =
      dev_updates-append es (f a s).events
      ∙ rw (dev_updates_of_mild (f a s).events ((h a).at s)) (append-nil (dev_updates es))
  dev_updates-continue f (err e) s es h = refl
  dev_updates-continue f (panic m) s es h = refl

  events-store_dev : (r : RhpamDev) (s : env.State) → (store_dev r s).events ≡ updated_dev r ∷ []
  unfolding store_dev ◌>>=◌
  events-store_dev r s = ground arith

  pub dev_updates-provision_realm :
      (r : RhpamDev) (s : env.State)
      → dev_updates (provision_realm r s).events ≡ provisioning r ∷ []
  unfolding provision_realm ◌>>=◌
  dev_updates-provision_realm r s =
      let o = store_dev (provisioning r) s in
      dev_updates-continue provision o.result o.state o.events provision-IsMild
      ∙ ap dev_updates (events-store_dev (provisioning r) s)

  -- Where `ProvisionRealm` fails, the controller returns its error, and the one update that it has
  -- sent puts the object in the phase `realm provisioning`. If the server keeps an object with the
  -- status of that update, every later reconciliation of it, while it is not being deleted, reads
  -- it, does nothing else, and asks for no further run.
  pub provision_realm-stranded :
      (r later : RhpamDev) (s s' s'' : env.State) (request : ReconcileRequest) {e : env.Error}
      → (provision_realm r s).result ≡ err e
      → env.watch_namespace ≡ ok request.namespace
      → env.get_rhpamdev request s' ≡ (ok later, s'')
      → later.status ≡ (provisioning r).status
      → later.metadata.deletion_timestamp ≡ none
      → let o = reconcile_phase accepted r s in
        (o.result ≡ ok (record { requeue = false; error = some e }))
        × (dev_updates o.events ≡ provisioning r ∷ [])
        × (reconcile_dev request s' ≡ record {
          result = ok (record { requeue = false; error = none });
          state = s'';
          events = got Kind.rhpam_dev request ∷ [];
        })
  unfolding reconcile_phase ◌>>=◌
  provision_realm-stranded r later s s' s'' request {e} h watch found kept alive = (
    ground arith,
    rw (h, reconcile_phase) (rw append-nil (dev_updates-provision_realm r s)),
    reconcile_dev-idle request s' s'' watch found alive
        (rw (ap (λ (x : RhpamDevStatus). x.phase) kept) idle_realm_provisioning),
  )
