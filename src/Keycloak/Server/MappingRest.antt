-- ===== src/Keycloak/Server/MappingRest.antt =====
-- The realm roles of one user in the REST API of Keycloak, as pkg/keycloak/keycloakclient.go asks for
-- them, and the promises that `Client` then keeps.
use rhpam_dev_operator.Base.{
  String, ◌<>◌, ◌≡◌, refl, ◌==◌, ◌||◌, ◌&&◌, not, Bool, true, false, contains,
}
use rhpam_dev_operator.Env.{Env, ok}
use rhpam_dev_operator.Effect.{lift, ◌>>=◌}
use rhpam_dev_operator.Effect.Achieves.{Achieves, Achieves-bind, Achieves-pure, Achieves-map_error}
use rhpam_dev_operator.Keycloak.Types.{KeycloakApiUser, KeycloakRole}
use rhpam_dev_operator.Keycloak.Http.{Client, get_of, post_of, delete_body_of}
use rhpam_dev_operator.Keycloak.Client.{
  keycloak, first_user, find_user_by_username, get_role, get_realm_role_mappings,
  create_user_realm_role, delete_user_realm_role,
}
use rhpam_dev_operator.Keycloak.Template.{
  load_user_role_template, load_template, template_path, user_role_fields,
}
use rhpam_dev_operator.Keycloak.Server.Mappings.{MappingServer}
use rhpam_dev_operator.Keycloak.Server.Replies.{
  Replies, Carries, get-Achieves, create-Achieves, delete_with_body-Achieves,
}
use rhpam_dev_operator.Keycloak.Server.Rest.{role_path}
use rhpam_dev_operator.User.Members.{role_names}

abbrev pub search_path : String → String → String
search_path realm username = "realms/" <> realm <> "/users?username=" <> username

abbrev pub mappings_path : String → String → String
mappings_path realm id = "realms/" <> realm <> "/users/" <> id <> "/role-mappings/realm"

-- The search for users by name answers with status 200 and a list whose first user is the one meant:
-- Keycloak's search also finds names of which `username` is a part, and in no order that its
-- documentation gives. The roles of the user are listed with status 200; POST and DELETE, with the
-- role in the body, change them with status 204. The template file is there and renders.
pub record MappingRest ⦃env : Env⦄ (c : Client) (realm username : String) : Type 0 where
  pub has : env.State → String → Bool
  pub plain : String → Bool
  pub user : KeycloakApiUser
  pub role : String → KeycloakRole
  pub rendered : String → String
  pub template_text : String
  pub template : env.Template
  pub empty_not_plain : plain "" ≡ false
  pub has_id : (user.id == "") ≡ false
  pub searches :
      (s : env.State)
      → Replies (get_of c (search_path realm username)) s 200 (λ res s1.
        Carries env.unmarshal_api_users res s1
          (λ users s2. (first_user users ≡ user) × ((x : String) → has s2 x ≡ has s x)))
  pub lists :
      (s : env.State)
      → Replies (get_of c (mappings_path realm user.id)) s 200 (λ res s1.
        Carries env.unmarshal_roles res s1 (λ roles s2.
          (x : String) → (contains (role_names roles) x ≡ has s x) × (has s2 x ≡ has s x)))
  pub finds :
      (s : env.State) (r : String)
      → plain r ≡ true
      → Replies (get_of c (role_path realm r)) s 200 (λ res s1.
        Carries env.unmarshal_role res s1
          (λ found s2. (found ≡ role r) × ((x : String) → has s2 x ≡ has s x)))
  pub has_file : env.read_file (template_path <> "/" <> "user-role" <> ".json") ≡ ok template_text
  pub parses : env.parse_template template_text ≡ ok template
  pub renders :
      (r : String)
      → plain r ≡ true
      → env.execute_template template
          (user_role_fields (record { role_name = r; role_id = (role r).id }))
        ≡ ok (rendered r)
  pub adds :
      (s : env.State) (r : String)
      → plain r ≡ true
      → has s r ≡ false
      → Replies
          (post_of c (mappings_path realm user.id) (rendered r))
          s
          204
          (λ res s1. (x : String) → has s1 x ≡ (x == r || has s x))
  pub removes :
      (s : env.State) (r : String)
      → plain r ≡ true
      → has s r ≡ true
      → Replies
          (delete_body_of c (mappings_path realm user.id) (rendered r))
          s
          204
          (λ res s1. (x : String) → has s1 x ≡ (not (x == r) && has s x))

module _ ⦃env : Env⦄ (c : Client) (realm username : String)
    (rest : MappingRest c realm username) where
  abbrev pub Same : env.State → env.State → Type 0
  Same s s' = (x : String) → rest.has s' x ≡ rest.has s x

  pub find_user_by_username-Achieves :
      (s : env.State)
      → Achieves
          (find_user_by_username c username realm)
          s
          (λ user s'. (user.id ≡ rest.user.id) × Same s s')
  unfolding find_user_by_username
  find_user_by_username-Achieves s =
      let found = rest.searches s in
      let body = found.holds in
      Achieves-bind (λ user s'. (user ≡ rest.user) × Same s s') _ _
        (get-Achieves c _ _ s _ (record {
          well_formed = found.well_formed;
          response = found.response;
          answers = found.answers;
          has_status = found.has_status;
          holds = record {
            text = body.text;
            value = first_user body.value;
            reads = body.reads;
            decodes = rw body.decodes refl;
            holds = body.holds;
          };
        }))
        λ user s1 (e, same). rw (e, rest.has_id) (Achieves-pure rest.user (refl, same))

  pub load_user_role_template-Achieves :
      (s : env.State) (r : String)
      → rest.plain r ≡ true
      → Achieves
          (load_user_role_template (record { role_name = r; role_id = (rest.role r).id }))
          s
          (λ json s'. (json ≡ rest.rendered r) × Same s s')
  unfolding load_user_role_template load_template lift ◌>>=◌
  load_user_role_template-Achieves s r p = record {
    value = rest.rendered r;
    ends = rw (rest.has_file, rest.parses, rest.renders r p) refl;
    holds = rw (rest.has_file, rest.parses) (refl, λ x. refl);
  }

  unfoldable pub mapping_server : MappingServer (keycloak c) realm username
  unfolding keycloak get_role get_realm_role_mappings create_user_realm_role delete_user_realm_role
  mapping_server = record {
    has = rest.has;
    plain = rest.plain;
    user_id = rest.user.id;
    role = rest.role;
    rendered = rest.rendered;
    empty_not_plain = rest.empty_not_plain;
    finds_user = find_user_by_username-Achieves;
    lists = λ s. get-Achieves c _ _ s _ (rest.lists s);
    finds_role = λ s r p. Achieves-map_error _ _ (get-Achieves c _ _ s _ (rest.finds s r p));
    renders = load_user_role_template-Achieves;
    adds = λ s r p h. create-Achieves c _ _ s _ 204 (rest.adds s r p h);
    removes = λ s r p h. delete_with_body-Achieves c _ _ s _ (rest.removes s r p h);
  }
