-- ===== src/User/Advance.antt =====
-- How the phases of a RhpamUser object move on:
-- pkg/controller/rhpamuser/rhpamuser_controller.go and phaseHandler.go.
use rhpam_dev_operator.Base.{◌≡◌, refl, Bool, true, false, none, some, List, [], ◌∷◌, ◌++◌, arith}
use rhpam_dev_operator.Api.{StatusPhase, RhpamUser, no_phase, accepted, reconcile}
use rhpam_dev_operator.Objects.{Event}
use rhpam_dev_operator.Env.{Env, Result, ok, err, panic}
use rhpam_dev_operator.Effect.{Action, proceed, handle, ◌>>=◌}
use rhpam_dev_operator.Effect.Returns.{Holds, Returns}
use rhpam_dev_operator.User.Deletion.{user_updates, user_updates-append, user_updates-store_result}
use rhpam_dev_operator.User.Reconcile.{return, store_result, handle_result, reconcile_phase}
use rhpam_dev_operator.User.Graph.{
  ◌⟶◌, wait, keep, Leads, initialize-Leads, accepted_phase-Leads, reconcile_user_phase-Leads,
}

-- The phases that are looked at again at once.
abbrev pub polls : StatusPhase → Bool
polls no_phase = true
polls accepted = true
polls p = false

-- The phase that the last of the updates stores.
abbrev pub last_phase : StatusPhase → List RhpamUser → StatusPhase
last_phase p [] = p
last_phase p (u ∷ us) = last_phase u.status.phase us

last_phase-append :
    (p : StatusPhase) (us : List RhpamUser) (u : RhpamUser)
    → last_phase p (us ++ (u ∷ [])) ≡ u.status.phase
last_phase-append p [] u = refl
last_phase-append p (x ∷ us) u = last_phase-append x.status.phase us u

-- A phase with a case of its own is left along an edge, or kept where there is such an edge; in
-- the other phases nothing is stored.
abbrev pub Moved : StatusPhase → List RhpamUser → Type 0
Moved no_phase us = no_phase ⟶ last_phase no_phase us
Moved accepted us = accepted ⟶ last_phase accepted us
Moved reconcile us = reconcile ⟶ last_phase reconcile us
Moved p us = us ≡ []

module _ ⦃env : Env⦄ where
  store_result-requeue :
      (b : Bool) (u : RhpamUser) (s : env.State) {requeue : Bool}
      → (store_result b u s).result ≡ ok (record { requeue = requeue; error = none })
      → requeue ≡ b
  unfolding store_result ◌>>=◌
  store_result-requeue b u s {requeue} e = ground arith

  stored_phase :
      (p : StatusPhase) (b : Bool) (es : List Event) (u : RhpamUser) (s : env.State)
      → last_phase p (user_updates (es ++ (store_result b u s).events)) ≡ u.status.phase
  stored_phase p b es u s =
      rw (user_updates-append es (store_result b u s).events, user_updates-store_result b u s)
        (last_phase-append p (user_updates es) u)

  proceed-moves :
      (p : StatusPhase) (b : Bool) (r : Result env.Error RhpamUser) (s : env.State)
      (es : List Event) {requeue : Bool}
      → Holds (Leads p) r
      → let o = proceed (store_result b) (λ e. return false (some e)) r s es in
        o.result ≡ ok (record { requeue = requeue; error = none })
        → (requeue ≡ b) × (p ⟶ last_phase p (user_updates o.events))
  unfolding ◌>>=◌
  proceed-moves p b (ok u) s es edge e =
      (store_result-requeue b u s e, rw (stored_phase p b es u s) edge)
  proceed-moves p b (err x) s es {requeue} edge e = ground arith
  proceed-moves p b (panic m) s es {requeue} edge e = ground arith

  handle_result-moves :
      (p : StatusPhase) (b : Bool) (m : Action RhpamUser) (s : env.State) {requeue : Bool}
      → Returns (Leads p) m
      → (handle_result b m s).result ≡ ok (record { requeue = requeue; error = none })
      → (requeue ≡ b) × (p ⟶ last_phase p (user_updates (handle_result b m s).events))
  unfolding handle_result handle
  handle_result-moves p b m s rm e =
      proceed-moves p b (m s).result (m s).state (m s).events (rm.at s) e

  -- Where a run of the phase switch ends without an error, it asks for another run exactly in the
  -- phases "" and `accepted`. In these and in `reconcile`, the phase that it has stored last follows
  -- on an edge of the diagram, where `accepted` and `reconcile` may be kept; in every other phase it
  -- has stored nothing.
  pub reconcile_phase-moves :
      (p : StatusPhase) (u : RhpamUser) (s : env.State) {requeue : Bool}
      → u.status.phase ≡ p
      → (reconcile_phase p u s).result ≡ ok (record { requeue = requeue; error = none })
      → (requeue ≡ polls p) × Moved p (user_updates (reconcile_phase p u s).events)
  unfolding reconcile_phase ◌>>=◌
  reconcile_phase-moves no_phase u s at e = handle_result-moves _ true _ s (initialize-Leads u) e
  reconcile_phase-moves accepted u s at e =
      handle_result-moves _ true _ s (accepted_phase-Leads u (rw at wait)) e
  reconcile_phase-moves reconcile u s at e =
      handle_result-moves _ false _ s (reconcile_user_phase-Leads u (rw at keep)) e
  reconcile_phase-moves _ u s {requeue} at e = (ground arith, refl)
