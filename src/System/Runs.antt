-- ===== src/System/Runs.antt =====
-- What the runs of both controllers come to.
use rhpam_dev_operator.Base.{
  ℕ, ◌+◌, ◌≤◌, ◌≡◌, refl, ap, ◌∙◌, true, none, All, List, [], ◌∷◌, length, arith,
}
use rhpam_dev_operator.Api.{
  StatusPhase, RhpamDev, no_phase, accepted, realm_provisioning, realm_provisioned, same_phase,
}
use rhpam_dev_operator.Objects.{Event, updated_dev}
use rhpam_dev_operator.Env.{Env}
use rhpam_dev_operator.Dev.Progress.{dev_updates}
use rhpam_dev_operator.Dev.Advance.{last_phase}
use rhpam_dev_operator.Dev.Graph.{◌⟶◌, start, begin_realm, finish_realm, reconcile_phase-Follows}
use rhpam_dev_operator.Dev.Reconcile.{reconcile_found, reconcile_phase}
use rhpam_dev_operator.User.Handover.{accept_dev-HandsOver}
use rhpam_dev_operator.User.Phases.{accept_dev}
use rhpam_dev_operator.System.{
  Some, no_more, taken, lost, DevStep, UserStep, Run, DevRun, reconciles, accepts,
}
use rhpam_dev_operator.System.Rising.{
  rank, rank-le, Rises, Rises-Some, rank-last_phase, reconcile_phase-Rises,
}
use rhpam_dev_operator.System.Handover.{accept_dev-Rises}

-- The phases that a new object can reach without the RhpamUser controller.
pub data IsEarly : StatusPhase → Type 0 where
  early_no_phase : IsEarly no_phase
  early_accepted : IsEarly accepted
  early_realm_provisioning : IsEarly realm_provisioning
  early_realm_provisioned : IsEarly realm_provisioned

IsEarly-⟶ : {p q : StatusPhase} → IsEarly p → p ⟶ q → IsEarly q
IsEarly-⟶ early_no_phase start = early_accepted
IsEarly-⟶ early_accepted begin_realm = early_realm_provisioning
IsEarly-⟶ early_accepted finish_realm = early_realm_provisioned
IsEarly-⟶ early_realm_provisioning edge = elim edge [ ]
IsEarly-⟶ early_realm_provisioned edge = elim edge [ ]

All-dev_updates :
    (P : Event → Type 0) (es : List Event)
    → All P es
    → All (λ d. P (updated_dev d)) (dev_updates es)
All-dev_updates P [] all = tt
All-dev_updates P (updated_dev d ∷ es) (h, all) = (h, All-dev_updates P es all)
All-dev_updates P (_ ∷ es) (h, all) = All-dev_updates P es all

All-Some : (P : RhpamDev → Type 0) {ds sent : List RhpamDev} → Some ds sent → All P sent → All P ds
All-Some P no_more all = tt
All-Some P (taken d part) (h, all) = (h, All-Some P part all)
All-Some P (lost d part) (h, all) = All-Some P part all

-- Where every update follows an edge from an early phase, the last phase is early.
IsEarly-last_phase :
    (p q : StatusPhase) (ds : List RhpamDev)
    → IsEarly p
    → IsEarly q
    → All (λ d. p ⟶ d.status.phase) ds
    → IsEarly (last_phase q ds)
IsEarly-last_phase p q [] at early all = early
IsEarly-last_phase p q (d ∷ ds) at early (edge, all) =
    IsEarly-last_phase p d.status.phase ds at (IsEarly-⟶ at edge) all

no_way_out : {q : StatusPhase} → realm_provisioning ⟶ q → ⊥
no_way_out e = elim e [ ]

not_provisioned : same_phase realm_provisioning realm_provisioned ≡ true → ⊥
unfolding same_phase
not_provisioned e = cc

nothing :
    (P : RhpamDev → Type 0) (ds : List RhpamDev) → ((d : RhpamDev) → ¬ P d) → All P ds → ds ≡ []
nothing P [] none_holds all = refl
nothing P (d ∷ ds) none_holds (h, all) = absurd (none_holds d h)

module _ ⦃env : Env⦄ where
  reconcile_found-phase :
      (r : RhpamDev) (s : env.State)
      → r.metadata.deletion_timestamp ≡ none
      → reconcile_found r s ≡ reconcile_phase r.status.phase r s
  unfolding reconcile_found
  reconcile_found-phase r s alive = rw alive refl

  DevStep-⟶ :
      {n : ℕ} {p q : StatusPhase}
      → DevStep p n q
      → (ds : List RhpamDev) × (n ≡ length ds)
        × (q ≡ last_phase p ds)
        × All (λ d. p ⟶ d.status.phase) ds
  DevStep-⟶ (reconciles r s ds alive at part count to) =
      let all = All-dev_updates _ _ ((reconcile_phase-Follows r.status.phase r).at s) in
      (ds, count, to, All-Some _ part (rw (reconcile_found-phase r s alive, at) all))

  rank-DevStep : {n : ℕ} {p q : StatusPhase} → DevStep p n q → n + rank p ≤ rank q
  rank-DevStep {n} {p} {q} (reconciles r s ds alive at part count to) =
      let rises : Rises p (dev_updates (reconcile_found r s).events) =
        rw (reconcile_found-phase r s alive, at) (reconcile_phase-Rises r.status.phase r s) in
      rw (count, to) (rank-last_phase p ds (Rises-Some p part rises))

  rank-UserStep : {n : ℕ} {p q : StatusPhase} → UserStep p n q → n + rank p ≤ rank q
  rank-UserStep {n} {p} {q} (accepts r user s ds at part count to) =
      let rises : Rises p (dev_updates (accept_dev r user s).events) =
        rw at (accept_dev-Rises r user s) in
      rw (count, to) (rank-last_phase p ds (Rises-Some p part rises))

  rank-Run : {n : ℕ} {p q : StatusPhase} → Run n p q → n + rank p ≤ rank q
  rank-Run Run.here = omega arith
  rank-Run (Run.by_dev run step) = omega (arith, rank-Run run, rank-DevStep step)
  rank-Run (Run.by_user run step) = omega (arith, rank-Run run, rank-UserStep step)

  -- The stored phase of a RhpamDev object changes at most nine times while it is not being deleted,
  -- however the reconciliations of both controllers follow one another and whichever of their
  -- updates take effect; from a later phase on, at most as often as there are phases ahead of it.
  -- Each update that takes effect counts, also where one reconciliation sends two.
  pub Run-bound : {n : ℕ} {p q : StatusPhase} → Run n p q → (n ≤ 9) × (n + rank p ≤ 9)
  Run-bound {n} {p} {q} run = omega (arith, rank-Run run, rank-le q)

  IsEarly-DevRun : {p q : StatusPhase} → DevRun p q → IsEarly p → IsEarly q
  IsEarly-DevRun DevRun.here early = early
  IsEarly-DevRun (DevRun.by_dev {q = q} run step) early =
      let at = IsEarly-DevRun run early in
      let (ds, count, to, edges) = DevStep-⟶ step in rw to (IsEarly-last_phase q q ds at at edges)

  -- Reconciliations of the RhpamDev controller alone bring a new object that is not being deleted to
  -- the phases `accepted`, `realm provisioning` and `realm provisioned`, and to no other.
  pub DevRun-waits : {q : StatusPhase} → DevRun no_phase q → IsEarly q
  DevRun-waits run = IsEarly-DevRun run early_no_phase

  DevStep-stranded :
      {n : ℕ} {q : StatusPhase}
      → DevStep realm_provisioning n q
      → (n ≡ 0) × (q ≡ realm_provisioning)
  DevStep-stranded step =
      let (ds, count, to, edges) = DevStep-⟶ step in
      let empty = nothing _ ds (λ d. no_way_out) edges in
      (count ∙ ap length empty, to ∙ ap (last_phase realm_provisioning) empty)

  UserStep-stranded :
      {n : ℕ} {p q : StatusPhase}
      → UserStep p n q
      → p ≡ realm_provisioning
      → (n ≡ 0) × (q ≡ realm_provisioning)
  UserStep-stranded {p = p} (accepts r user s ds at part count to) e =
      let all = All-dev_updates _ _ ((accept_dev-HandsOver r user).at s) in
      let empty =
        nothing _ ds (λ d (before, moved). not_provisioned (rw (← e, at) before))
          (All-Some _ part all) in
      (count ∙ ap length empty, to ∙ ap (last_phase p) empty ∙ e)

  stays_stranded :
      {n : ℕ} {p q : StatusPhase}
      → Run n p q
      → p ≡ realm_provisioning
      → (n ≡ 0) × (q ≡ realm_provisioning)
  stays_stranded Run.here e = (refl, e)
  stays_stranded (Run.by_dev {k = k} {r = w} run step) e =
      let (before, at) = stays_stranded run e in
      let (same, stays) = DevStep-stranded {n = k} {q = w} (rw (← at) step) in
      (omega (arith, before, same), stays)
  stays_stranded (Run.by_user run step) e =
      let (before, at) = stays_stranded run e in
      let (same, stays) = UserStep-stranded step at in (omega (arith, before, same), stays)

  -- A reconciliation of either controller that finds the stored phase `realm provisioning` on an
  -- object that is not being deleted leaves it so: no later run of reconciliations changes it.
  pub Run-stranded :
      {n : ℕ} {q : StatusPhase} → Run n realm_provisioning q → (n ≡ 0) × (q ≡ realm_provisioning)
  Run-stranded run = stays_stranded run refl
