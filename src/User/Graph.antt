-- ===== src/User/Graph.antt =====
-- The phases that a RhpamUser object goes through, and that the controller follows them:
-- pkg/controller/rhpamuser/rhpamuser_controller.go.
use rhpam_dev_operator.Base.{◌≡◌, refl, ap, Bool, true, false, List, [], ◌∷◌, if◌then◌else◌}
use rhpam_dev_operator.Api.{
  StatusPhase, RhpamDev, RhpamUser, no_phase, accepted, prepare, complete, reconcile, same_phase,
}
use rhpam_dev_operator.Objects.{Event, updated_dev, updated_user, deleted}
use rhpam_dev_operator.Env.{Env}
use rhpam_dev_operator.Effect.{Action}
use rhpam_dev_operator.Effect.Emits.{
  Emits, Emits-mono, Emits-bind, Emits-handle_with, Emits-pure, emits_rules,
}
use rhpam_dev_operator.Effect.Returns.{
  Returns, Returns-bind, Returns-bind_with, Returns-pure, Returns-if, returns_rules,
}
use rhpam_dev_operator.Common.Access.{IsMild, add_finalizer-IsMild}
use rhpam_dev_operator.User.Mildness.{reconcile_user_phase-IsMild}
use rhpam_dev_operator.User.Handover.{HandsOver, accept_dev-HandsOver}
use rhpam_dev_operator.User.Phases.{
  initialize, accept_dev, accept_devs, accepted_phase, reconcile_user_phase, join_realm,
}
use rhpam_dev_operator.User.Reconcile.{handle_result, reconcile_phase}

infix 40 ◌⟶◌
-- The phases of an object that is not being deleted.
pub data ◌⟶◌ : StatusPhase → StatusPhase → Type 0 where
  start : no_phase ⟶ accepted
  wait : accepted ⟶ accepted
  join : accepted ⟶ reconcile
  keep : reconcile ⟶ reconcile

-- A RhpamUser object moves along an edge, a RhpamDev object moves to `prepare`, nothing is deleted.
abbrev pub Tracks : StatusPhase → Event → Type 0
Tracks p (updated_user u) = p ⟶ u.status.phase
Tracks p (updated_dev d) = d.status.phase ≡ prepare
Tracks p (deleted k n) = ⊥
Tracks p _ = Unit

Tracks-mild : (p : StatusPhase) (e : Event) → IsMild e → Tracks p e
Tracks-mild p (updated_dev d) h = elim h [ ]
Tracks-mild p (updated_user u) h = elim h [ ]
Tracks-mild p (deleted k n) h = elim h [ ]
Tracks-mild p _ h = tt

abbrev pub Leads : StatusPhase → RhpamUser → Type 0
Leads p u = p ⟶ u.status.phase

module _ ⦃env : Env⦄ where
  handle_result-Tracks :
      (p : StatusPhase) (requeue : Bool) (m : Action RhpamUser)
      → Emits (Tracks p) m
      → Returns (Leads p) m
      → Emits (Tracks p) (handle_result requeue m)
  unfolding handle_result
  handle_result-Tracks p requeue m km rm =
      Emits-handle_with (Leads p) m _ _ km rm (λ u at. search emits_rules) (λ e. Emits-pure _)

  pub initialize-Leads : (u : RhpamUser) → Returns (Leads no_phase) (initialize u)
  unfolding initialize
  initialize-Leads u = search (returns_rules, start)

  joined-Leads :
      (d : RhpamDev) (u : RhpamUser) (b : Bool)
      → Leads accepted u
      → Leads accepted (if b then join_realm d u else u)
  unfolding join_realm
  joined-Leads d u true at = join
  joined-Leads d u false at = at

  accept_dev-Leads :
      (d : RhpamDev) (u : RhpamUser) → Leads accepted u → Returns (Leads accepted) (accept_dev d u)
  unfolding accept_dev
  accept_dev-Leads d u at =
      Returns-if _ _ _
        (Returns-bind _ _ λ x. Returns-bind _ _ λ y. Returns-bind _ _ λ z. Returns-pure _ join)
        (Returns-pure _ (joined-Leads d u (same_phase d.status.phase complete) at))

  accept_devs-Leads :
      (ds : List RhpamDev) (u : RhpamUser)
      → Leads accepted u
      → Returns (Leads accepted) (accept_devs ds u)
  unfolding accept_devs
  accept_devs-Leads [] u at = Returns-pure u at
  accept_devs-Leads (d ∷ ds) u at =
      Returns-bind_with (Leads accepted) _ _ (accept_dev-Leads d u at) (accept_devs-Leads ds)

  Tracks-handed : (p : StatusPhase) (d : RhpamDev) (e : Event) → HandsOver d e → Tracks p e
  Tracks-handed p d (updated_dev x) (at, same) = ap (λ (y : RhpamDev). y.status.phase) same
  Tracks-handed p d (updated_user u) h = elim h [ ]
  Tracks-handed p d (deleted k n) h = elim h [ ]
  Tracks-handed p d _ h = tt

  accept_devs-Tracks :
      (ds : List RhpamDev) (u : RhpamUser) → Emits (Tracks accepted) (accept_devs ds u)
  unfolding accept_devs
  accept_devs-Tracks [] u = Emits-pure u
  accept_devs-Tracks (d ∷ ds) u =
      Emits-bind _ _ (Emits-mono _ (Tracks-handed accepted d) (accept_dev-HandsOver d u))
        (accept_devs-Tracks ds)

  accepted_phase-Tracks : (u : RhpamUser) → Emits (Tracks accepted) (accepted_phase u)
  unfolding accepted_phase
  accepted_phase-Tracks u = search (emits_rules, accept_devs-Tracks)

  pub accepted_phase-Leads :
      (u : RhpamUser) → Leads accepted u → Returns (Leads accepted) (accepted_phase u)
  unfolding accepted_phase
  accepted_phase-Leads u at = Returns-bind _ _ λ ds. accept_devs-Leads ds u at

  initialize-Tracks : (u : RhpamUser) → Emits (Tracks no_phase) (initialize u)
  unfolding initialize
  initialize-Tracks u = Emits-mono _ (Tracks-mild _) (search (emits_rules, add_finalizer-IsMild))

  pub reconcile_user_phase-Leads :
      (u : RhpamUser) → Leads reconcile u → Returns (Leads reconcile) (reconcile_user_phase u)
  unfolding reconcile_user_phase
  reconcile_user_phase-Leads u at =
      Returns-bind _ _ λ x. Returns-bind _ _ λ y. Returns-bind _ _ λ z. Returns-pure u at

  reconcile_phase_at :
      (p : StatusPhase) (u : RhpamUser)
      → u.status.phase ≡ p
      → Emits (Tracks p) (reconcile_phase p u)
  unfolding reconcile_phase
  reconcile_phase_at no_phase u at =
      handle_result-Tracks _ _ _ (initialize-Tracks u) (initialize-Leads u)
  reconcile_phase_at accepted u at =
      handle_result-Tracks _ _ _ (accepted_phase-Tracks u) (accepted_phase-Leads u (rw at wait))
  reconcile_phase_at reconcile u at =
      handle_result-Tracks _ _ _ (Emits-mono _ (Tracks-mild _) (reconcile_user_phase-IsMild u))
        (reconcile_user_phase-Leads u (rw at keep))
  reconcile_phase_at _ u at = Emits-pure _

  -- In a phase with or without a case, every update that the switch of the RhpamUser controller
  -- sends takes the object's phase along an edge of the diagram, or sets the phase of a RhpamDev
  -- object to `prepare`; nothing is deleted in the cluster.
  pub reconcile_phase-Tracks :
      (u : RhpamUser) → Emits (Tracks u.status.phase) (reconcile_phase u.status.phase u)
  reconcile_phase-Tracks u = reconcile_phase_at u.status.phase u refl
