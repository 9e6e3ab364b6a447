-- ===== src/Dev/Installed.antt =====
-- `Prepare`, `InstallBusinessCentral` and `InstallKieServer` of
-- pkg/controller/rhpamdev/phaseHandler.go on a cluster that keeps the promises of an API server.
pub mod Database
use rhpam_dev_operator.Base.{◌≡◌, refl, ◌||◌, List, All}
use rhpam_dev_operator.Api.{StatusPhase, RhpamDev, prepared, business_central_installed, complete}
use rhpam_dev_operator.Env.{Env}
use rhpam_dev_operator.Effect.{Action, pure, ◌>>◌}
use rhpam_dev_operator.Effect.Achieves.{Achieves, Achieves-bind, Achieves-pure}
use rhpam_dev_operator.Dev.Resources.{Resource, create_resources}
use rhpam_dev_operator.Dev.Resources.Server.{
  ObjectServer, Contains, Loads, account_resources, business_central_resources,
  kie_server_resources, is_one_of, create_resources-Achieves,
}
use rhpam_dev_operator.Dev.Phases.{
  enter, prepare_phase, install_business_central, install_kie_server,
}

module _ ⦃env : Env⦄ (cr : RhpamDev) (server : ObjectServer cr) where
  open server use {has, kind_of}

  -- From this state, the action succeeds with `cr` in the phase, and the resources are added to
  -- what was there.
  abbrev pub Installs : env.State → Action RhpamDev → StatusPhase → List Resource → Type 0
  Installs s m phase resources = Achieves m s (λ d s'.
      (d ≡ enter phase cr)
      × Contains cr server (λ k n. is_one_of kind_of resources k n || has s k n) s')

  Installs-create :
      (s : env.State) (phase : StatusPhase) (resources : List Resource)
      → All (Loads cr has kind_of) resources
      → Installs s (create_resources cr resources >> pure (enter phase cr)) phase resources
  Installs-create s phase resources loads =
      Achieves-bind _ _ _ (create_resources-Achieves cr server s resources loads)
        λ done s1 b. Achieves-pure _ (refl, b)

  -- Where the API server keeps its promises and each template gives an object of its resource's
  -- name, the three phases succeed from every state of the cluster, with some of the objects there
  -- or none. The object is then in the next phase, every resource of the phase is there, and
  -- otherwise exactly what was there before.
  pub installs_lem :
      (s : env.State)
      → Installs s (prepare_phase cr) prepared account_resources
        × Installs s
            (install_business_central cr)
            business_central_installed
            business_central_resources
        × Installs s (install_kie_server cr) complete kie_server_resources
  unfolding prepare_phase install_business_central install_kie_server
  installs_lem s =
      let (account, (pvc, (bc_service, (bc_route, (bc, (ks_service, (ks_route, (ks, done)))))))) =
        server.loads in
      (
        Installs-create s prepared account_resources (account, tt),
        Installs-create s business_central_installed business_central_resources
            (pvc, (bc_service, (bc_route, (bc, tt)))),
        Installs-create s complete kie_server_resources (ks_service, (ks_route, (ks, tt))),
      )
