-- ===== src/Common/Access.antt =====
-- What reading the credentials and logging in can do to the cluster: nothing but read.
use rhpam_dev_operator.Base.{String}
use rhpam_dev_operator.Api.{ObjectMeta}
use rhpam_dev_operator.Objects.{
  Event, got, listed, created_secret, created_configmap, created_object, requested, received,
  closed,
}
use rhpam_dev_operator.Env.{Env}
use rhpam_dev_operator.Effect.Emits.{Emits, Emits-bind, Emits-mono, emits_rules}
use rhpam_dev_operator.Effect.Returns.{Returns, Returns-bind, Returns-bind_with, Returns-pure}
use rhpam_dev_operator.Keycloak.Interface.{KeycloakInterface}
use rhpam_dev_operator.Keycloak.Client.{KeycloakFactory}
use rhpam_dev_operator.Keycloak.Traffic.{
  IsHttp, Confined, Confined-mono, authenticated_client-IsHttp, authenticated_client-Confined,
}
use rhpam_dev_operator.Common.{read_sso_secret, add_finalizer, authenticated_client}

-- Traffic, reads, and creations: no update and no deletion in the cluster.
abbrev pub IsMild : Event → Type 0
IsMild (requested r) = Unit
IsMild (received n) = Unit
IsMild (closed n) = Unit
IsMild (got k n) = Unit
IsMild (listed k n) = Unit
IsMild (created_secret x) = Unit
IsMild (created_configmap x) = Unit
IsMild (created_object x) = Unit
IsMild _ = ⊥

IsMild-http : (e : Event) → IsHttp e → IsMild e
IsMild-http (requested r) h = tt
IsMild-http (received n) h = tt
IsMild-http (closed n) h = tt
IsMild-http _ h = elim h [ ]

-- What a handler may rely on, once it is authenticated.
abbrev pub IsAuthenticated : ⦃env : Env⦄ → KeycloakInterface × KeycloakFactory → Type 0
IsAuthenticated (sso, _) = Confined IsMild sso

module _ ⦃env : Env⦄ where
  read_sso_secret-IsMild : Emits IsMild read_sso_secret
  unfolding read_sso_secret
  read_sso_secret-IsMild = search emits_rules depth 7

  pub add_finalizer-IsMild :
      (metadata : ObjectMeta) (value : String) → Emits IsMild (add_finalizer metadata value)
  unfolding add_finalizer
  add_finalizer-IsMild metadata value = search emits_rules

  pub authenticated_client-IsMild : Emits IsMild authenticated_client
  unfolding authenticated_client
  authenticated_client-IsMild = Emits-bind _ _ read_sso_secret-IsMild λ secret.
      Emits-bind _ _ (Emits-mono _ IsMild-http (authenticated_client-IsHttp _))
        λ sso. search emits_rules

  pub authenticated_client-IsAuthenticated : Returns IsAuthenticated authenticated_client
  unfolding authenticated_client
  authenticated_client-IsAuthenticated = Returns-bind _ _ λ secret.
      Returns-bind_with (Confined IsHttp) _ _ (authenticated_client-Confined _)
        λ sso c. Returns-pure _ (Confined-mono IsMild-http sso c)
