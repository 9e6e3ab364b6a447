-- ===== src/Keycloak/Server/Mappings.antt =====
-- What `KeycloakInterface` promises about the realm roles of one user: the user has an id and a set
-- of role names, which the methods list, extend and shrink.
use rhpam_dev_operator.Base.{String, ◌≡◌, ◌==◌, ◌||◌, ◌&&◌, not, Bool, true, false, contains}
use rhpam_dev_operator.Env.{Env}
use rhpam_dev_operator.Effect.Achieves.{Achieves}
use rhpam_dev_operator.Keycloak.Types.{KeycloakRole}
use rhpam_dev_operator.Keycloak.Interface.{KeycloakInterface}
use rhpam_dev_operator.Keycloak.Template.{load_user_role_template}
use rhpam_dev_operator.User.Members.{role_names}

-- `plain` tells the names of roles that the realm has and that a URL path and the template can
-- carry; the empty text is none.
pub record MappingServer ⦃env : Env⦄ (sso : KeycloakInterface) (realm username : String)
    : Type 0 where
  pub has : env.State → String → Bool
  pub plain : String → Bool
  pub user_id : String
  pub role : String → KeycloakRole
  pub rendered : String → String
  pub empty_not_plain : plain "" ≡ false
  pub finds_user :
      (s : env.State)
      → Achieves
          (sso.find_user_by_username username realm)
          s
          (λ user s'. (user.id ≡ user_id) × ((x : String) → has s' x ≡ has s x))
  pub lists :
      (s : env.State)
      → Achieves (sso.get_realm_role_mappings user_id realm) s (λ roles s'.
        (x : String) → (contains (role_names roles) x ≡ has s x) × (has s' x ≡ has s x))
  pub finds_role :
      (s : env.State) (r : String)
      → plain r ≡ true
      → Achieves
          (sso.get_role r realm)
          s
          (λ found s'. (found ≡ role r) × ((x : String) → has s' x ≡ has s x))
  pub renders :
      (s : env.State) (r : String)
      → plain r ≡ true
      → Achieves
          (load_user_role_template (record { role_name = r; role_id = (role r).id }))
          s
          (λ json s'. (json ≡ rendered r) × ((x : String) → has s' x ≡ has s x))
  pub adds :
      (s : env.State) (r : String)
      → plain r ≡ true
      → has s r ≡ false
      → Achieves
          (sso.create_user_realm_role (rendered r) user_id realm)
          s
          (λ done s'. (x : String) → has s' x ≡ (x == r || has s x))
  pub removes :
      (s : env.State) (r : String)
      → plain r ≡ true
      → has s r ≡ true
      → Achieves
          (sso.delete_user_realm_role (rendered r) user_id realm)
          s
          (λ done s'. (x : String) → has s' x ≡ (not (x == r) && has s x))
