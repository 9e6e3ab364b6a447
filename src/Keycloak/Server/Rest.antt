-- ===== src/Keycloak/Server/Rest.antt =====
-- The roles of a realm in the REST API of Keycloak, as pkg/keycloak/keycloakclient.go asks for them,
-- and the promises that `Client` then keeps.
use rhpam_dev_operator.Base.{
  String, ◌<>◌, ◌≡◌, refl, ◌==◌, ◌||◌, ◌&&◌, not, Bool, true, false, contains,
}
use rhpam_dev_operator.Env.{Env, ok}
use rhpam_dev_operator.Effect.{lift, ◌>>=◌}
use rhpam_dev_operator.Effect.Achieves.{Achieves, Achieves-map_error, Refuses-map_error}
use rhpam_dev_operator.Keycloak.Http.{Client, get_of, post_of, delete_of}
use rhpam_dev_operator.Keycloak.Client.{keycloak, list_roles, get_role, create_role, delete_role}
use rhpam_dev_operator.Keycloak.Template.{
  load_role_template, load_template, template_path, role_fields,
}
use rhpam_dev_operator.Keycloak.Server.{RoleServer}
use rhpam_dev_operator.Keycloak.Server.Replies.{
  Replies, Carries, list-Achieves, get-Achieves, get-Refuses, create-Achieves, delete-Achieves,
}
use rhpam_dev_operator.User.Members.{role_names}

abbrev pub roles_path : String → String
roles_path realm = "realms/" <> realm <> "/roles"

abbrev pub role_path : String → String → String
role_path realm r = "realms/" <> realm <> "/roles/" <> r

-- GET lists and looks up, with status 200, or 404 for a role that is not there; POST adds, with
-- status 201; DELETE removes, with status 204. The template file is there and renders.
pub record RoleRest ⦃env : Env⦄ (c : Client) (realm : String) : Type 0 where
  pub has : env.State → String → Bool
  pub plain : String → Bool
  pub rendered : String → String
  pub template_text : String
  pub template : env.Template
  pub empty_not_plain : plain "" ≡ false
  pub lists :
      (s : env.State)
      → Replies (get_of c (roles_path realm)) s 200 (λ res s1.
        Carries env.unmarshal_roles res s1 (λ roles s2.
          (x : String) → (contains (role_names roles) x ≡ has s x) × (has s2 x ≡ has s x)))
  pub finds :
      (s : env.State) (r : String)
      → plain r ≡ true
      → has s r ≡ true
      → Replies (get_of c (role_path realm r)) s 200 (λ res s1.
        Carries env.unmarshal_role res s1 (λ role s2. (x : String) → has s2 x ≡ has s x))
  pub misses :
      (s : env.State) (r : String)
      → plain r ≡ true
      → has s r ≡ false
      → Replies (get_of c (role_path realm r)) s 404 (λ res s1. (x : String) → has s1 x ≡ has s x)
  pub has_file : env.read_file (template_path <> "/" <> "role" <> ".json") ≡ ok template_text
  pub parses : env.parse_template template_text ≡ ok template
  pub renders :
      (r : String)
      → plain r ≡ true
      → env.execute_template template (role_fields (record { role_name = r })) ≡ ok (rendered r)
  pub creates :
      (s : env.State) (r : String)
      → plain r ≡ true
      → has s r ≡ false
      → Replies
          (post_of c (roles_path realm) (rendered r))
          s
          201
          (λ res s1. (x : String) → has s1 x ≡ (x == r || has s x))
  pub deletes :
      (s : env.State) (r : String)
      → plain r ≡ true
      → has s r ≡ true
      → Replies
          (delete_of c (role_path realm r))
          s
          204
          (λ res s1. (x : String) → has s1 x ≡ (not (x == r) && has s x))

module _ ⦃env : Env⦄ (c : Client) (realm : String) (rest : RoleRest c realm) where
  pub load_role_template-Achieves :
      (s : env.State) (r : String)
      → rest.plain r ≡ true
      → Achieves
          (load_role_template (record { role_name = r }))
          s
          (λ json s'. (json ≡ rest.rendered r) × ((x : String) → rest.has s' x ≡ rest.has s x))
  unfolding load_role_template load_template lift ◌>>=◌
  load_role_template-Achieves s r p = record {
    value = rest.rendered r;
    ends = rw (rest.has_file, rest.parses, rest.renders r p) refl;
    holds = rw (rest.has_file, rest.parses) (refl, λ x. refl);
  }

  unfoldable pub client_server : RoleServer (keycloak c) realm
  unfolding keycloak list_roles get_role create_role delete_role
  client_server = record {
    has = rest.has;
    plain = rest.plain;
    rendered = rest.rendered;
    empty_not_plain = rest.empty_not_plain;
    lists = λ s. list-Achieves c _ _ s _ (rest.lists s);
    finds = λ s r p h. Achieves-map_error _ _ (get-Achieves c _ _ s _ (rest.finds s r p h));
    misses = λ s r p h. Refuses-map_error _ _ (get-Refuses c _ _ s _ (rest.misses s r p h));
    renders = load_role_template-Achieves;
    creates = λ s r p h. create-Achieves c _ _ s _ 201 (rest.creates s r p h);
    deletes = λ s r p h. delete-Achieves c _ _ s (rest.deletes s r p h);
  }
