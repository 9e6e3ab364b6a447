-- ===== src/System/Rising.antt =====
-- The updates of one reconciliation take the phase further and further.
use rhpam_dev_operator.Base.{
  ℕ, ◌+◌, ◌≤◌, ◌<◌, ◌≡◌, Bool, true, false, none, some, List, [], ◌∷◌, ◌++◌, append-nil, length,
  arith, if◌then◌else◌,
}
use rhpam_dev_operator.Api.{
  StatusPhase, RhpamDev, no_phase, accepted, realm_provisioning, realm_provisioned, prepare,
  prepared, database_installed, business_central_installed, database_ready, complete,
}
use rhpam_dev_operator.Objects.{Event}
use rhpam_dev_operator.Env.{Env, Result, ok, err, panic}
use rhpam_dev_operator.Effect.{Action, proceed, handle, ◌>>=◌}
use rhpam_dev_operator.Effect.Emits.{Emits}
use rhpam_dev_operator.Effect.Returns.{Holds, Returns}
use rhpam_dev_operator.Common.Access.{IsMild}
use rhpam_dev_operator.Dev.Progress.{
  dev_updates, dev_updates-append, dev_updates_of_mild, dev_updates-store_result,
  dev_updates-provision_realm,
}
use rhpam_dev_operator.Dev.Advance.{last_phase}
use rhpam_dev_operator.Dev.Mildness.{
  initialize-IsMild, prepare_phase-IsMild, install_database-IsMild, install_business_central-IsMild,
  wait_for_database-IsMild, install_kie_server-IsMild,
}
use rhpam_dev_operator.Dev.Graph.{
  IsAt, IsReadyAt, initialize-IsAt, provision_realm-IsAt, prepare_phase-IsAt, install_database-IsAt,
  install_business_central-IsAt, wait_for_database-IsReadyAt, install_kie_server-IsAt,
}
use rhpam_dev_operator.Dev.Phases.{wait_for_database}
use rhpam_dev_operator.Dev.Realm.{provision_realm}
use rhpam_dev_operator.Dev.Reconcile.{
  return, store_result, handle_result, reconcile_waiting, reconcile_phase,
}
use rhpam_dev_operator.System.{Some, no_more, taken, lost}

-- How far a phase is on the way to `complete`; every other phase counts as the start.
abbrev pub rank : StatusPhase → ℕ
rank accepted = 1
rank realm_provisioning = 2
rank realm_provisioned = 3
rank prepare = 4
rank prepared = 5
rank database_installed = 6
rank business_central_installed = 7
rank database_ready = 8
rank complete = 9
rank _ = 0

pub rank-le : (p : StatusPhase) → rank p ≤ 9
rank-le accepted = omega arith
rank-le _ = omega arith

abbrev pub Rises : StatusPhase → List RhpamDev → Type 0
Rises p [] = Unit
Rises p (d ∷ ds) = (rank p < rank d.status.phase) × Rises d.status.phase ds

Rises-lower : (p q : StatusPhase) (ds : List RhpamDev) → rank p ≤ rank q → Rises q ds → Rises p ds
Rises-lower p q [] h rises = tt
Rises-lower p q (d ∷ ds) h (up, rises) = (omega arith, rises)

pub Rises-Some :
    {ds sent : List RhpamDev} (p : StatusPhase) → Some ds sent → Rises p sent → Rises p ds
Rises-Some p no_more rises = tt
Rises-Some p (taken d part) (up, rises) = (up, Rises-Some d.status.phase part rises)
Rises-Some {ds} p (lost d part) (up, rises) =
    Rises-lower p d.status.phase ds (omega arith) (Rises-Some d.status.phase part rises)

pub rank-last_phase :
    (p : StatusPhase) (ds : List RhpamDev)
    → Rises p ds
    → length ds + rank p ≤ rank (last_phase p ds)
rank-last_phase p [] rises = omega arith
rank-last_phase p (d ∷ ds) (up, rises) = omega (arith, rank-last_phase d.status.phase ds rises)

Rises-append :
    (p : StatusPhase) (ds : List RhpamDev) (d : RhpamDev)
    → Rises p ds
    → rank (last_phase p ds) < rank d.status.phase
    → Rises p (ds ++ (d ∷ []))
Rises-append p [] d rises up = (up, tt)
Rises-append p (x ∷ ds) d (first, rises) up = (first, Rises-append x.status.phase ds d rises up)

module _ ⦃env : Env⦄ where
  proceed-Rises :
      (p q : StatusPhase) (us : List RhpamDev) (r : Result env.Error RhpamDev) (s : env.State)
      (es : List Event)
      → Holds (IsAt q) r
      → dev_updates es ≡ us
      → Rises p us
      → rank (last_phase p us) < rank q
      → Rises p (dev_updates (proceed store_result (λ e. return false (some e)) r s es).events)
  unfolding ◌>>=◌
  proceed-Rises p q us (ok d) s es at sent rises up =
      rw (dev_updates-append es (store_result d s).events, dev_updates-store_result d s, sent)
        (Rises-append p us d rises (rw at up))
  proceed-Rises p q us (err e) s es at sent rises up = rw (append-nil es, sent) rises
  proceed-Rises p q us (panic m) s es at sent rises up = rw sent rises

  handle_result-Rises :
      (p q : StatusPhase) (us : List RhpamDev) (m : Action RhpamDev) (s : env.State)
      → Returns (IsAt q) m
      → dev_updates (m s).events ≡ us
      → Rises p us
      → rank (last_phase p us) < rank q
      → Rises p (dev_updates (handle_result m s).events)
  unfolding handle_result handle
  handle_result-Rises p q us m s rm =
      proceed-Rises p q us (m s).result (m s).state (m s).events (rm.at s)

  -- A handler that sends no update of its own.
  mild-Rises :
      (p q : StatusPhase) (m : Action RhpamDev) (s : env.State)
      → rank p < rank q
      → Emits IsMild m
      → Returns (IsAt q) m
      → Rises p (dev_updates (handle_result m s).events)
  mild-Rises p q m s up km rm =
      handle_result-Rises p q [] m s rm (dev_updates_of_mild _ (km.at s)) tt up

  waiting-Rises :
      (r : Result env.Error (Bool × RhpamDev)) (s : env.State) (es : List Event)
      → Holds IsReadyAt r
      → dev_updates es ≡ []
      → Rises business_central_installed (
          dev_updates
            (proceed
              (λ (x : Bool × RhpamDev). if x.0 then store_result x.1 else return true none)
              (λ e. return false (some e))
              r
              s
              es).events)
  unfolding ◌>>=◌
  waiting-Rises (ok (true, d)) s es at sent =
      rw (dev_updates-append es (store_result d s).events, dev_updates-store_result d s, sent)
        (rw at (omega arith), tt)
  waiting-Rises (ok (false, d)) s es at sent = rw (append-nil es, sent) tt
  waiting-Rises (err e) s es at sent = rw (append-nil es, sent) tt
  waiting-Rises (panic m) s es at sent = rw sent tt

  reconcile_waiting-Rises :
      (r : RhpamDev) (s : env.State)
      → Rises business_central_installed (dev_updates (reconcile_waiting r s).events)
  unfolding reconcile_waiting handle
  reconcile_waiting-Rises r s =
      let o = wait_for_database r s in
      waiting-Rises o.result o.state o.events ((wait_for_database-IsReadyAt r).at s)
        (dev_updates_of_mild _ ((wait_for_database-IsMild r).at s))

  -- Two updates from the phase `accepted`, at most one from every other phase.
  pub reconcile_phase-Rises :
      (p : StatusPhase) (r : RhpamDev) (s : env.State)
      → Rises p (dev_updates (reconcile_phase p r s).events)
  unfolding reconcile_phase ◌>>=◌
  reconcile_phase-Rises no_phase r s =
      mild-Rises _ accepted _ s (omega arith) (initialize-IsMild r) (initialize-IsAt r)
  reconcile_phase-Rises accepted r s =
      handle_result-Rises _ realm_provisioned _ (provision_realm r) s (provision_realm-IsAt r)
        (dev_updates-provision_realm r s) (omega arith, tt) (omega arith)
  reconcile_phase-Rises prepare r s =
      mild-Rises _ prepared _ s (omega arith) (prepare_phase-IsMild r) (prepare_phase-IsAt r)
  reconcile_phase-Rises prepared r s =
      mild-Rises _ database_installed _ s (omega arith) (install_database-IsMild r)
        (install_database-IsAt r)
  reconcile_phase-Rises database_installed r s =
      mild-Rises _ business_central_installed _ s (omega arith) (install_business_central-IsMild r)
        (install_business_central-IsAt r)
  reconcile_phase-Rises business_central_installed r s = reconcile_waiting-Rises r s
  reconcile_phase-Rises database_ready r s =
      mild-Rises _ complete _ s (omega arith) (install_kie_server-IsMild r)
        (install_kie_server-IsAt r)
  reconcile_phase-Rises _ r s = tt
