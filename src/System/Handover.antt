-- ===== src/System/Handover.antt =====
-- The update of a RhpamDev object by the RhpamUser controller takes its phase further.
use rhpam_dev_operator.Base.{
  ◌<◌, ◌≡◌, refl, ◌⊎◌, inl, inr, Bool, true, false, List, [], ◌∷◌, arith, if◌then◌else◌,
}
use rhpam_dev_operator.Api.{
  StatusPhase, RhpamDev, RhpamUser, accepted, realm_provisioned, prepare, same_phase,
}
use rhpam_dev_operator.Objects.{Event}
use rhpam_dev_operator.Env.{Env, Result, ok, err, panic}
use rhpam_dev_operator.Effect.{Action, pure, ignore, continue, ◌>>=◌, ◌>>◌}
use rhpam_dev_operator.Effect.Emits.{Emits}
use rhpam_dev_operator.Effect.Returns.{Holds, Returns}
use rhpam_dev_operator.Cluster.{update_rhpamdev}
use rhpam_dev_operator.Common.Access.{
  IsMild, IsAuthenticated, authenticated_client-IsMild, authenticated_client-IsAuthenticated,
}
use rhpam_dev_operator.Dev.Progress.{dev_updates, dev_updates-append, dev_updates_of_mild}
use rhpam_dev_operator.User.Handover.{create_defaults-IsMild}
use rhpam_dev_operator.User.Phases.{seed_realm, accept_dev}
use rhpam_dev_operator.System.Rising.{rank, Rises}

-- At most one update is sent, that to `d`.
record SendsOnly ⦃env : Env⦄ {A : Type 0} (d : RhpamDev) (m : Action A) : Type 0 where
  at : (s : env.State) → (dev_updates (m s).events ≡ []) ⊎ (dev_updates (m s).events ≡ d ∷ [])

module _ ⦃env : Env⦄ (d : RhpamDev) {A B : Type 0} where
  SendsOnly-continue :
      (R : A → Type 0) (f : A → Action B) (r : Result env.Error A) (s : env.State) (es : List Event)
      → dev_updates es ≡ []
      → Holds R r
      → ((a : A) → R a → SendsOnly d (f a))
      → let us = dev_updates (continue f r s es).events in (us ≡ []) ⊎ (us ≡ d ∷ [])
  SendsOnly-continue R f (ok a) s es sent ra kf =
      rw (dev_updates-append es (f a s).events, sent) ((kf a ra).at s)
  SendsOnly-continue R f (err e) s es sent ra kf = inl sent
  SendsOnly-continue R f (panic m) s es sent ra kf = inl sent

  SendsOnly-bind_with :
      (R : A → Type 0) (m : Action A) (f : A → Action B)
      → Emits IsMild m
      → Returns R m
      → ((a : A) → R a → SendsOnly d (f a))
      → SendsOnly d (m >>= f)
  unfolding ◌>>=◌
  SendsOnly-bind_with R m f km rm kf = record {
    at = λ s. SendsOnly-continue R f _ _ _ (dev_updates_of_mild _ (km.at s)) (rm.at s) kf;
  }

module _ ⦃env : Env⦄ where
  anything : {A : Type 0} (r : Result env.Error A) → Holds (λ _. Unit) r
  anything (ok a) = tt
  anything (err x) = tt
  anything (panic x) = tt

  SendsOnly-update :
      (d : RhpamDev) (user : RhpamUser) → SendsOnly d (ignore (update_rhpamdev d) >> pure user)
  unfolding ◌>>=◌
  SendsOnly-update d user = record { at = λ s. inr (ground arith) }

  abbrev moved : RhpamDev → RhpamDev
  moved dev = record dev { status = record (dev.status) { phase = prepare } }

  seed_realm-SendsOnly :
      (dev : RhpamDev) (user : RhpamUser) → SendsOnly (moved dev) (seed_realm dev user)
  unfolding seed_realm
  seed_realm-SendsOnly dev user =
      SendsOnly-bind_with _ IsAuthenticated _ _ authenticated_client-IsMild
        authenticated_client-IsAuthenticated
        λ (sso, factory) c.
          SendsOnly-bind_with _ (λ _. Unit) _ _ (create_defaults-IsMild sso c dev.status.realm)
            (record { at = λ s. anything _ }) λ _ _. SendsOnly-update (moved dev) _

  rank-provisioned : (p : StatusPhase) → same_phase p realm_provisioned ≡ true → rank p < 4
  unfolding same_phase
  rank-provisioned accepted h = omega arith
  rank-provisioned _ h = ground arith

  accept_case :
      (dev : RhpamDev) (user : RhpamUser) (b : Bool) (s : env.State)
      → same_phase dev.status.phase realm_provisioned ≡ b
      → Rises dev.status.phase
          (dev_updates ((if b then seed_realm dev user else pure user) s).events)
  unfolding pure
  accept_case dev user true s h = elim ((seed_realm-SendsOnly dev user).at s) [
    | inl e ↦ rw e tt
    | inr e ↦ rw e (rank-provisioned dev.status.phase h, tt)
  ]
  accept_case dev user false s h = tt

  pub accept_dev-Rises :
      (dev : RhpamDev) (user : RhpamUser) (s : env.State)
      → Rises dev.status.phase (dev_updates (accept_dev dev user s).events)
  unfolding accept_dev
  accept_dev-Rises dev user s = accept_case dev _ _ s refl
