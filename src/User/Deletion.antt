-- ===== src/User/Deletion.antt =====
-- The end of a RhpamUser object: pkg/controller/rhpamuser/rhpamuser_controller.go.
use rhpam_dev_operator.Base.{
  ◌≡◌, refl, ◌∙◌, ap, All, Bool, true, false, some, List, [], ◌∷◌, ◌++◌, arith,
}
use rhpam_dev_operator.Api.{StatusPhase, RhpamUser, complete, deprovisioned, deprovision_failed}
use rhpam_dev_operator.Objects.{Event, updated_user}
use rhpam_dev_operator.Env.{Env, Result, ok, err, panic}
use rhpam_dev_operator.Effect.{Action, handle, ignore, proceed, ◌>>=◌, ◌>>◌}
use rhpam_dev_operator.Effect.Emits.{Emits, Emits-bind, Emits-bind_with, Emits-pure, emits_rules}
use rhpam_dev_operator.Effect.Returns.{Holds, Returns, Returns-bind, Returns-pure}
use rhpam_dev_operator.Common.Access.{
  IsMild, IsAuthenticated, authenticated_client-IsMild, authenticated_client-IsAuthenticated,
}
use rhpam_dev_operator.User.Phases.{deprovision, remove_user, remove_role}
use rhpam_dev_operator.User.Reconcile.{return, reconcile_deleted, remove, release, store_result}
use rhpam_dev_operator.Cluster.{Reconciled, update_rhpamuser}

abbrev pub user_updates : List Event → List RhpamUser
user_updates [] = []
user_updates (updated_user u ∷ es) = u ∷ user_updates es
user_updates (_ ∷ es) = user_updates es

user_updates_of_mild : (es : List Event) → All IsMild es → user_updates es ≡ []
user_updates_of_mild [] all = refl
user_updates_of_mild (updated_user u ∷ es) (h, all) = elim h [ ]
user_updates_of_mild (_ ∷ es) (h, all) = user_updates_of_mild es all

pub user_updates-append :
    (es fs : List Event) → user_updates (es ++ fs) ≡ user_updates es ++ user_updates fs
user_updates-append [] fs = refl
user_updates-append (updated_user u ∷ es) fs = ap (λ xs. u ∷ xs) (user_updates-append es fs)
user_updates-append (_ ∷ es) fs = user_updates-append es fs

abbrev pub in_phase : StatusPhase → RhpamUser → RhpamUser
in_phase phase user = record user { status = record (user.status) { phase = phase } }

-- The updates that a removal sends, by the end of `Deprovision`.
abbrev pub removal_updates : {E : Type 0} → RhpamUser → Result E RhpamUser → List RhpamUser
removal_updates user (ok u) = in_phase deprovisioned user ∷ []
removal_updates user (err e) = in_phase deprovision_failed user ∷ []
removal_updates user (panic m) = []

-- The updates that a deletion sends, by the stored phase and the end of `Deprovision`: the object
-- is released where the stored phase says that the removal has ended well.
abbrev pub deletion_updates :
    {E : Type 0} → StatusPhase → RhpamUser → Result E RhpamUser → List RhpamUser
deletion_updates deprovisioned user r =
    record (in_phase complete user) { metadata = record (user.metadata) { finalizers = [] } } ∷ []
deletion_updates _ user r = removal_updates user r

module _ ⦃env : Env⦄ where
  user_updates_after :
      (es fs : List Event) → All IsMild es → user_updates (es ++ fs) ≡ user_updates fs
  user_updates_after es fs mild = rw (user_updates-append es fs, user_updates_of_mild es mild) refl

  pub user_updates-store_result :
      (requeue : Bool) (u : RhpamUser) (s : env.State)
      → user_updates (store_result requeue u s).events ≡ u ∷ []
  unfolding store_result ◌>>=◌
  user_updates-store_result requeue u s = ground arith

module _ ⦃env : Env⦄ (user : RhpamUser) where
  deprovision-IsMild : Emits IsMild (deprovision user)
  unfolding deprovision remove_user remove_role
  deprovision-IsMild =
      Emits-bind_with IsAuthenticated _ _ authenticated_client-IsMild
        authenticated_client-IsAuthenticated
        λ (sso, factory) c.
          let realm = user.status.realm in
          Emits-bind _ _ (c.list_users realm) λ users.
            Emits-bind _ _ (search (emits_rules, c.delete_user)) λ _.
              Emits-bind _ _ (search (emits_rules, c.list_roles))
                λ roles. Emits-bind _ _ (search (emits_rules, c.delete_role)) λ _. Emits-pure _

  deprovision-Returns : Returns (λ u. u ≡ in_phase deprovisioned user) (deprovision user)
  unfolding deprovision
  deprovision-Returns = Returns-bind _ _ λ x. Returns-bind _ _ λ users.
      Returns-bind _ _ λ y. Returns-bind _ _ λ roles. Returns-bind _ _ λ z. Returns-pure _ refl

  abbrev give_up : env.Error → Action (Reconciled env.Error)
  give_up e = do ignore (update_rhpamuser (in_phase deprovision_failed user)); return false (some e)

  user_updates-give_up :
      (e : env.Error) (s : env.State)
      → user_updates (give_up e s).events ≡ in_phase deprovision_failed user ∷ []
  unfolding ◌>>=◌
  user_updates-give_up e s = ground arith

  user_updates-proceed :
      (r : Result env.Error RhpamUser) (s : env.State) (es : List Event)
      → All IsMild es
      → Holds (λ u. u ≡ in_phase deprovisioned user) r
      → user_updates (proceed (store_result true) give_up r s es).events ≡ removal_updates user r
  user_updates-proceed (ok u) s es mild h =
      user_updates_after es _ mild ∙ user_updates-store_result true u s ∙ ap (λ v. v ∷ []) h
  user_updates-proceed (err e) s es mild h = user_updates_after es _ mild ∙ user_updates-give_up e s
  user_updates-proceed (panic m) s es mild h = user_updates_of_mild es mild

  user_updates-remove :
      (s : env.State)
      → user_updates (remove user s).events ≡ removal_updates user (deprovision user s).result
  unfolding remove handle
  user_updates-remove s =
      let o = deprovision user s in
      user_updates-proceed o.result o.state o.events (deprovision-IsMild.at s)
        (deprovision-Returns.at s)

  -- One run on an object that is being deleted sends exactly these updates. In the phase
  -- `deprovisioned` it sends one, which drops the finalizers; in any other phase the update moves the
  -- object to `deprovisioned` if `Deprovision` ends well, to `deprovision failed` if it returns an
  -- error, with the finalizers as they were, and there is none if it panics.
  pub reconcile_deleted_lem :
      (phase : StatusPhase) (s : env.State)
      → user_updates (reconcile_deleted phase user s).events
        ≡ deletion_updates phase user (deprovision user s).result
  unfolding reconcile_deleted release
  reconcile_deleted_lem deprovisioned s = user_updates-store_result false _ s
  reconcile_deleted_lem _ s = user_updates-remove s
