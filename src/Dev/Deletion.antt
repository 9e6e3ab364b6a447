-- ===== src/Dev/Deletion.antt =====
-- The end of a RhpamDev object: pkg/controller/rhpamdev/rhpamdev_controller.go.
use rhpam_dev_operator.Base.{◌≡◌, ◌∙◌, false, some, refl, ap, All, List, [], ◌∷◌, ◌++◌, append-nil}
use rhpam_dev_operator.Api.{RhpamDev, deprovisioned}
use rhpam_dev_operator.Objects.{Event, updated_dev}
use rhpam_dev_operator.Env.{Env, Result, ok, err, panic}
use rhpam_dev_operator.Effect.{Action, pure, continue, proceed, ◌>>=◌}
use rhpam_dev_operator.Effect.Returns.{Holds, Returns, Returns-bind, Returns-pure}
use rhpam_dev_operator.Dev.Progress.{dev_updates, dev_updates-append, dev_updates-store_result}
use rhpam_dev_operator.Dev.Deprovision.{deprovision}
use rhpam_dev_operator.Dev.Deprovision.Assets.{Spares, deprovision-Spares}
use rhpam_dev_operator.Dev.Reconcile.{return, store_result, reconcile_deleted}

abbrev stripped : RhpamDev → RhpamDev
stripped r = record r { metadata = record (r.metadata) { finalizers = [] } }

abbrev pub released : RhpamDev → RhpamDev
released r = stripped (record r { status = record (r.status) { phase = deprovisioned } })

-- The updates that a deletion sends, by the end of `Deprovision`.
abbrev pub deletion_updates : {E : Type 0} → RhpamDev → Result E RhpamDev → List RhpamDev
deletion_updates r (ok state) = released r ∷ []
deletion_updates r (err e) = []
deletion_updates r (panic m) = []

dev_updates_of_Spares : (r : RhpamDev) (es : List Event) → All (Spares r) es → dev_updates es ≡ []
dev_updates_of_Spares r [] all = refl
dev_updates_of_Spares r (updated_dev d ∷ es) (h, all) = elim h [ ]
dev_updates_of_Spares r (_ ∷ es) (h, all) = dev_updates_of_Spares r es all

module _ ⦃env : Env⦄ (r : RhpamDev) where
  deprovision-Returns :
      Returns
        (λ d. d ≡ record r { status = record (r.status) { phase = deprovisioned } })
        (deprovision r)
  unfolding deprovision
  deprovision-Returns = Returns-bind _ _ λ x.
      Returns-bind _ _ λ y.
        Returns-bind _ _ λ users. Returns-bind _ _ λ z. Returns-bind _ _ λ w. Returns-pure _ refl

  dev_updates_after :
      (es fs : List Event) → All (Spares r) es → dev_updates (es ++ fs) ≡ dev_updates fs
  dev_updates_after es fs all = rw (dev_updates-append es fs, dev_updates_of_Spares r es all) refl

  abbrev strip : RhpamDev → Action RhpamDev
  strip d = pure (stripped d)

  dev_updates-finish :
      (end : Result env.Error RhpamDev) (s : env.State) (es : List Event)
      → All (Spares r) es
      → Holds (λ d. d ≡ record r { status = record (r.status) { phase = deprovisioned } }) end
      → let o = continue strip end s es in
        dev_updates
          (proceed store_result (λ e. return false (some e)) o.result o.state o.events).events
        ≡ deletion_updates r end
  unfolding ◌>>=◌
  dev_updates-finish (ok d) s es all h =
      rw (append-nil es)
        (dev_updates_after es _ all ∙ dev_updates-store_result _ s ∙ ap (λ x. stripped x ∷ []) h)
  dev_updates-finish (err e) s es all h = dev_updates_after es [] all
  dev_updates-finish (panic m) s es all h = dev_updates_of_Spares r es all

  -- One run on an object that is being deleted sends one update of a RhpamDev object if
  -- `Deprovision` ends well, which moves the object to `deprovisioned` and drops its finalizers, and
  -- none if `Deprovision` returns an error or panics.
  pub dev_updates-reconcile_deleted :
      (s : env.State)
      → dev_updates (reconcile_deleted r s).events ≡ deletion_updates r (deprovision r s).result
  unfolding reconcile_deleted ◌>>=◌
  dev_updates-reconcile_deleted s =
      let o = deprovision r s in
      dev_updates-finish o.result o.state o.events ((deprovision-Spares r).at s)
        (deprovision-Returns.at s)
