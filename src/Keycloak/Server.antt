-- ===== src/Keycloak/Server.antt =====
-- What `KeycloakInterface` promises about the roles of a realm: the realm has a set of role names,
-- which the methods list, look up, extend and shrink.
pub mod Replies
pub mod Rest
pub mod Mappings
pub mod MappingRest
use rhpam_dev_operator.Base.{String, ◌≡◌, ◌==◌, ◌||◌, ◌&&◌, not, Bool, true, false, contains}
use rhpam_dev_operator.Env.{Env}
use rhpam_dev_operator.Effect.Achieves.{Achieves, Refuses}
use rhpam_dev_operator.Keycloak.Interface.{KeycloakInterface}
use rhpam_dev_operator.Keycloak.Template.{load_role_template}
use rhpam_dev_operator.User.Members.{role_names}

-- `plain` tells the names that a URL path and the role template can carry; the empty text is none.
pub record RoleServer ⦃env : Env⦄ (sso : KeycloakInterface) (realm : String) : Type 0 where
  pub has : env.State → String → Bool
  pub plain : String → Bool
  pub rendered : String → String
  pub empty_not_plain : plain "" ≡ false
  pub lists :
      (s : env.State)
      → Achieves (sso.list_roles realm) s (λ roles s'.
        (x : String) → (contains (role_names roles) x ≡ has s x) × (has s' x ≡ has s x))
  pub finds :
      (s : env.State) (r : String)
      → plain r ≡ true
      → has s r ≡ true
      → Achieves (sso.get_role r realm) s (λ role s'. (x : String) → has s' x ≡ has s x)
  pub misses :
      (s : env.State) (r : String)
      → plain r ≡ true
      → has s r ≡ false
      → Refuses (sso.get_role r realm) s (λ e s'. (x : String) → has s' x ≡ has s x)
  pub renders :
      (s : env.State) (r : String)
      → plain r ≡ true
      → Achieves
          (load_role_template (record { role_name = r }))
          s
          (λ json s'. (json ≡ rendered r) × ((x : String) → has s' x ≡ has s x))
  pub creates :
      (s : env.State) (r : String)
      → plain r ≡ true
      → has s r ≡ false
      → Achieves
          (sso.create_role (rendered r) realm)
          s
          (λ done s'. (x : String) → has s' x ≡ (x == r || has s x))
  pub deletes :
      (s : env.State) (r : String)
      → plain r ≡ true
      → has s r ≡ true
      → Achieves
          (sso.delete_role r realm)
          s
          (λ done s'. (x : String) → has s' x ≡ (not (x == r) && has s x))
