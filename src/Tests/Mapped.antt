-- ===== src/Tests/Mapped.antt =====
-- A user's roles brought to a spec over HTTP.
use rhpam_dev_operator.Base.{
  ℕ, String, ◌<>◌, ◌≡◌, inl, inr, refl, ap, ◌==◌, true, false, none, List, [], ◌∷◌, contains,
  lookup, same_nat, arith, if◌then◌else◌,
}
use rhpam_dev_operator.Env.{Env, Result, ok}
use rhpam_dev_operator.Objects.{Request, Response}
use rhpam_dev_operator.Effect.{for_each, ◌>>=◌}
use rhpam_dev_operator.Effect.Achieves.{Achieves}
use rhpam_dev_operator.Keycloak.Types.{KeycloakUser}
use rhpam_dev_operator.Keycloak.Http.{get_of, post_of, delete_body_of, admin_url}
use rhpam_dev_operator.Keycloak.Http as Http
use rhpam_dev_operator.Keycloak.Client.{
  keycloak, find_user_by_username, get_role, get_realm_role_mappings, create_user_realm_role,
  delete_user_realm_role, first_user, text_or_empty,
}
use rhpam_dev_operator.Keycloak.Template.{load_user_role_template, template_path, user_role_fields}
use rhpam_dev_operator.Keycloak.Server.Rest.{role_path}
use rhpam_dev_operator.Keycloak.Server.MappingRest.{MappingRest, search_path, mappings_path}
use rhpam_dev_operator.Keycloak.Server.Replies.{Replies}
use rhpam_dev_operator.User.Sync.{reconcile_user_roles}
use rhpam_dev_operator.User.Sync.Mapped.{reconcile_user_roles-keycloak}
use rhpam_dev_operator.Tests.World.{world_over, ann, role_called}
use rhpam_dev_operator.Tests.Rest.{
  Roles, text, role_at, present, with_role, without_role, parsed, client, plain, present-parsed,
  plain_cases, present-with_role, present-without_role,
}

abbrev response : ℕ → ℕ → Response
response code stream = record { status_code = code; status = ""; stream = stream }

abbrev reply : ℕ → ℕ → Roles → Result String Response × Roles
reply code stream s = (ok (response code stream), s)

abbrev stream_of : String → ℕ
stream_of r = if r == "admin" then 1 else if r == "guest" then 2 else 3

-- The streams 1 to 3 carry a role, any other the roles that the user has.
abbrev text_at : ℕ → Roles → String
text_at n s =
    if same_nat n 1
    then "admin"
    else if same_nat n 2
    then "guest"
    else if same_nat n 3
    then "clerk"
    else text s

instance abbrev mapping_world : Env
mapping_world = record (world_over Roles (λ s. s) (λ s. 0)) {
  execute_template = λ t fields. ok (text_or_empty (lookup "RoleName" fields));
  read_all = λ n s. (ok (text_at n s), s);
  unmarshal_roles = λ t. ok (parsed t);
  unmarshal_role = λ t. ok (role_called t);
  do_request = λ req s.
      if req.method == "POST"
      then reply 204 0 (with_role req.body s)
      else if req.method == "DELETE"
      then reply 204 0 (without_role req.body s)
      else if role_at req.url == ""
      then reply 200 0 s
      else reply 200 (stream_of (role_at req.url)) s;
}

-- The reply to a request whose response is known.
module _ (req : Request) (s : Roles) (code stream : ℕ) (s' : Roles)
    (e : mapping_world.do_request req s ≡ reply code stream s') where
  replies_lem :
      {Q : Response → Roles → Type 0}
      → Q (response code stream) s'
      → Replies ⦃env = mapping_world⦄ req s code Q
  replies_lem {Q} q = record {
    well_formed = refl;
    response = response code stream;
    answers = ap (λ x. x.0) e;
    has_status = refl;
    holds = rw (ap (λ x. x.1) e) q;
  }

search_lem :
    (s : Roles)
    → mapping_world.do_request (get_of client (search_path "demo" "ann")) s ≡ reply 200 0 s
unfolding get_of admin_url
search_lem s = refl

list_lem :
    (s : Roles)
    → mapping_world.do_request (get_of client (mappings_path "demo" ann.id)) s ≡ reply 200 0 s
unfolding get_of admin_url
list_lem s = refl

find_lem :
    (s : Roles) (r : String)
    → plain r ≡ true
    → (mapping_world.do_request (get_of client (role_path "demo" r)) s ≡ reply 200 (stream_of r) s)
      × (text_at (stream_of r) s ≡ r)
unfolding get_of admin_url
find_lem s r p = elim (plain_cases r p) [
  | inl e ↦ rw e (refl, refl)
  | inr (inl e) ↦ rw e (refl, refl)
  | inr (inr e) ↦ rw e (refl, refl)
]

add_lem :
    (s : Roles) (r : String)
    → mapping_world.do_request (post_of client (mappings_path "demo" ann.id) r) s
      ≡ reply 204 0 (with_role r s)
unfolding post_of
add_lem s r = refl

remove_lem :
    (s : Roles) (r : String)
    → mapping_world.do_request (delete_body_of client (mappings_path "demo" ann.id) r) s
      ≡ reply 204 0 (without_role r s)
unfolding delete_body_of
remove_lem s r = refl

template_file :
    mapping_world.read_file (template_path ⦃env = mapping_world⦄ <> "/" <> "user-role" <> ".json")
    ≡ ok "./templates/rhsso/user-role.json"
unfolding template_path
template_file = refl

renders_lem :
    (r : String)
    → mapping_world.execute_template "./templates/rhsso/user-role.json"
        (user_role_fields (record { role_name = r; role_id = r }))
      ≡ ok r
unfolding user_role_fields text_or_empty
renders_lem r = refl

first_user-ann : first_user (ann ∷ []) ≡ ann
unfolding first_user
first_user-ann = refl

abbrev rest : MappingRest ⦃env = mapping_world⦄ client "demo" "ann"
rest = record {
  has = present;
  plain = plain;
  user = ann;
  role = role_called;
  rendered = λ r. r;
  template_text = "./templates/rhsso/user-role.json";
  template = "./templates/rhsso/user-role.json";
  empty_not_plain = refl;
  has_id = refl;
  searches = λ s. replies_lem _ s 200 0 s (search_lem s) (record {
    text = text s;
    value = ann ∷ [];
    reads = refl;
    decodes = refl;
    holds = (first_user-ann, λ x. refl);
  });
  lists = λ s. replies_lem _ s 200 0 s (list_lem s) (record {
    text = text s;
    value = parsed (text s);
    reads = refl;
    decodes = refl;
    holds = λ x. (present-parsed s x, refl);
  });
  finds = λ s r p. replies_lem _ s 200 (stream_of r) s (find_lem s r p).0 (record {
    text = text_at (stream_of r) s;
    value = role_called (text_at (stream_of r) s);
    reads = refl;
    decodes = refl;
    holds = (ap role_called (find_lem s r p).1, λ x. refl);
  });
  has_file = template_file;
  parses = refl;
  renders = λ r p. renders_lem r;
  adds = λ s r p h.
      replies_lem _ s 204 0 (with_role r s) (add_lem s r) (λ x. present-with_role s r x p);
  removes = λ s r p h.
      replies_lem _ s 204 0 (without_role r s) (remove_lem s r) (present-without_role s r);
}

-- "ann" with these roles.
abbrev ann_with : List String → KeycloakUser
ann_with roles = record {
  api = record ann { realm_roles = roles };
  output_secret = none;
  password = none;
}

reconcile_user_roles-keycloak_example :
    Achieves ⦃env = mapping_world⦄
      (reconcile_user_roles ⦃env = mapping_world⦄
        (keycloak ⦃env = mapping_world⦄ client)
        "demo"
        (ann_with ("admin" ∷ "guest" ∷ []))
        (ann_with ("guest" ∷ "clerk" ∷ [])))
      (true, true, false)
      (λ done s'. (x : String) → present s' x ≡ contains ("guest" ∷ "clerk" ∷ []) x)
reconcile_user_roles-keycloak_example =
    reconcile_user_roles-keycloak ⦃env = mapping_world⦄ client "demo" "ann" rest
      (ann_with ("admin" ∷ "guest" ∷ [])) (ann_with ("guest" ∷ "clerk" ∷ [])) (true, true, false)
      refl (λ x. ground (arith)) (λ pairs s u. (u, λ x. refl, λ x. refl)) (λ x h. ground arith)
      (λ x h. ground arith)

-- The run itself: "admin" goes, "clerk" comes, "guest" stays.
reconcile_user_roles_over_http :
    (reconcile_user_roles ⦃env = mapping_world⦄
      (keycloak ⦃env = mapping_world⦄ client)
      "demo"
      (ann_with ("admin" ∷ "guest" ∷ []))
      (ann_with ("guest" ∷ "clerk" ∷ []))
      (true, true, false)).state
    ≡ (false, true, true)
unfolding reconcile_user_roles keycloak find_user_by_username get_role get_realm_role_mappings
    create_user_realm_role delete_user_realm_role load_user_role_template Http.get Http.create
    Http.delete_with_body text_or_empty ◌>>=◌ for_each
reconcile_user_roles_over_http = refl
