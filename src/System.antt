-- ===== src/System.antt =====
-- Both controllers at one RhpamDev object: how its stored phase changes.
--
-- The API server takes an update only for the version of the object that the sender has read, or has
-- stored itself since. So the reconciliations that change an object act on it one after the other,
-- and of the updates of one of them, some take effect, in their order, and the others are lost.
pub mod Runs
pub mod Rising
pub mod Handover
use rhpam_dev_operator.Base.{ℕ, ◌+◌, ◌≡◌, none, List, [], ◌∷◌, length}
use rhpam_dev_operator.Api.{StatusPhase, RhpamDev, RhpamUser}
use rhpam_dev_operator.Env.{Env}
use rhpam_dev_operator.Dev.Progress.{dev_updates}
use rhpam_dev_operator.Dev.Advance.{last_phase}
use rhpam_dev_operator.Dev.Reconcile.{reconcile_found}
use rhpam_dev_operator.User.Phases.{accept_dev}

-- Some of the updates, in their order.
pub data Some : List RhpamDev → List RhpamDev → Type 0 where
  no_more : Some [] []
  taken : {ds sent : List RhpamDev} (d : RhpamDev) → Some ds sent → Some (d ∷ ds) (d ∷ sent)
  lost : {ds sent : List RhpamDev} (d : RhpamDev) → Some ds sent → Some ds (d ∷ sent)

module _ ⦃env : Env⦄ where
  -- A reconciliation of an object that is not being deleted finds the phase `p`, and `n` of the
  -- updates that it sends take effect, the last of them with the phase `q`.
  pub data DevStep : StatusPhase → ℕ → StatusPhase → Type 0 where
    reconciles :
        (r : RhpamDev) (s : env.State) (ds : List RhpamDev) {p q : StatusPhase} {n : ℕ}
        → r.metadata.deletion_timestamp ≡ none
        → p ≡ r.status.phase
        → Some ds (dev_updates (reconcile_found r s).events)
        → n ≡ length ds
        → q ≡ last_phase p ds
        → DevStep p n q

  -- The same for the loop of the RhpamUser controller, at the turn of this RhpamDev object.
  pub data UserStep : StatusPhase → ℕ → StatusPhase → Type 0 where
    accepts :
        (r : RhpamDev) (user : RhpamUser) (s : env.State) (ds : List RhpamDev) {p q : StatusPhase}
        {n : ℕ}
        → p ≡ r.status.phase
        → Some ds (dev_updates (accept_dev r user s).events)
        → n ≡ length ds
        → q ≡ last_phase p ds
        → UserStep p n q

  -- Runs of both controllers, with the number of changes, and of the RhpamDev controller alone.
  pub data Run : ℕ → StatusPhase → StatusPhase → Type 0 where
    here : {p : StatusPhase} → Run 0 p p
    by_dev : {n k : ℕ} {p q r : StatusPhase} → Run n p q → DevStep q k r → Run (n + k) p r
    by_user : {n k : ℕ} {p q r : StatusPhase} → Run n p q → UserStep q k r → Run (n + k) p r

  pub data DevRun : StatusPhase → StatusPhase → Type 0 where
    here : {p : StatusPhase} → DevRun p p
    by_dev : {n : ℕ} {p q r : StatusPhase} → DevRun p q → DevStep q n r → DevRun p r
