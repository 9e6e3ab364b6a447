-- ===== src/Tests/Served.antt =====
-- Roles brought to a spec over HTTP.
use rhpam_dev_operator.Base.{
  ℕ, String, ◌<>◌, ◌≡◌, inl, inr, refl, ap, ◌==◌, Bool, true, false, [], ◌∷◌, arith, if◌then◌else◌,
}
use rhpam_dev_operator.Api.{RhpamUser, accepted}
use rhpam_dev_operator.Env.{ok}
use rhpam_dev_operator.Objects.{Request, Response}
use rhpam_dev_operator.Effect.{for_each, ◌>>=◌}
use rhpam_dev_operator.Effect.Achieves.{Achieves}
use rhpam_dev_operator.Keycloak.Http.{Client, get_of, post_of, delete_of, admin_url}
use rhpam_dev_operator.Keycloak.Client.{
  keycloak, list_roles, get_role, create_role, delete_role, text_or_empty,
}
use rhpam_dev_operator.Keycloak.Template.{load_role_template, template_path, role_fields}
use rhpam_dev_operator.Keycloak.Http as Http
use rhpam_dev_operator.Keycloak.Server.Rest.{RoleRest, roles_path, role_path}
use rhpam_dev_operator.Keycloak.Server.Replies.{Replies}
use rhpam_dev_operator.User.Sync.{spec_role_names, reconcile_roles}
use rhpam_dev_operator.User.Sync.Roles.{wanted}
use rhpam_dev_operator.User.Sync.Served.{reconcile_roles-keycloak}
use rhpam_dev_operator.Tests.World.{metadata, role_called}
use rhpam_dev_operator.Tests.Rest.{
  Roles, text, base, role_at, present, with_role, without_role, parsed, reply, rest_world, client,
  plain, url_of, present-parsed, plain_cases, present-with_role, present-without_role,
}

-- A role's path is told from the others, and from the path of all roles.
role_at-url_of :
    (r : String) → plain r ≡ true → (role_at (url_of r) ≡ r) × ((url_of r == base) ≡ false)
unfolding admin_url
role_at-url_of r p = elim (plain_cases r p) [
  | inl e ↦ rw e (refl, refl)
  | inr (inl e) ↦ rw e (refl, refl)
  | inr (inr e) ↦ rw e (refl, refl)
]

-- The reply to a request whose response is known.
module _ (req : Request) (s : Roles) (code : ℕ) (s' : Roles)
    (e : rest_world.do_request req s ≡ reply code s') where
  replies_lem :
      {Q : Response → Roles → Type 0}
      → Q (record { status_code = code; status = ""; stream = 0 }) s'
      → Replies ⦃env = rest_world⦄ req s code Q
  replies_lem {Q} q = record {
    well_formed = refl;
    response = record { status_code = code; status = ""; stream = 0 };
    answers = ap (λ x. x.0) e;
    has_status = refl;
    holds = rw (ap (λ x. x.1) e) q;
  }

lookup_lem :
    (s : Roles) (r : String) (b : Bool)
    → plain r ≡ true
    → present s r ≡ b
    → rest_world.do_request (get_of client (role_path "demo" r)) s
      ≡ (if b then reply 200 s else reply 404 s)
unfolding get_of
lookup_lem s r b p h = let (at, other) = role_at-url_of r p in rw (at, other, h) refl

delete_lem :
    (s : Roles) (r : String)
    → plain r ≡ true
    → rest_world.do_request (delete_of client (role_path "demo" r)) s ≡ reply 204 (without_role r s)
unfolding delete_of
delete_lem s r p = let (at, other) = role_at-url_of r p in rw at refl

list_lem : (s : Roles) → rest_world.do_request (get_of client (roles_path "demo")) s ≡ reply 200 s
unfolding get_of admin_url
list_lem s = refl

create_lem :
    (s : Roles) (r : String)
    → rest_world.do_request (post_of client (roles_path "demo") r) s ≡ reply 201 (with_role r s)
unfolding post_of
create_lem s r = refl

role_file :
    rest_world.read_file (template_path ⦃env = rest_world⦄ <> "/" <> "role" <> ".json")
    ≡ ok "./templates/rhsso/role.json"
unfolding template_path
role_file = refl

role_renders :
    (r : String)
    → rest_world.execute_template "./templates/rhsso/role.json"
        (role_fields (record { role_name = r }))
      ≡ ok r
unfolding role_fields text_or_empty
role_renders r = refl

abbrev rest : RoleRest ⦃env = rest_world⦄ client "demo"
rest = record {
  has = present;
  plain = plain;
  rendered = λ r. r;
  template_text = "./templates/rhsso/role.json";
  template = "./templates/rhsso/role.json";
  empty_not_plain = refl;
  lists = λ s. replies_lem _ s 200 s (list_lem s) (record {
    text = text s;
    value = parsed (text s);
    reads = refl;
    decodes = refl;
    holds = λ x. (present-parsed s x, refl);
  });
  finds = λ s r p h. replies_lem _ s 200 s (lookup_lem s r true p h) (record {
    text = text s;
    value = role_called "admin";
    reads = refl;
    decodes = refl;
    holds = λ x. refl;
  });
  misses = λ s r p h. replies_lem _ s 404 s (lookup_lem s r false p h) (λ x. refl);
  has_file = role_file;
  parses = refl;
  renders = λ r p. role_renders r;
  creates = λ s r p h.
      replies_lem _ s 201 (with_role r s) (create_lem s r) (λ x. present-with_role s r x p);
  deletes = λ s r p h.
      replies_lem _ s 204 (without_role r s) (delete_lem s r p) (present-without_role s r);
}

abbrev user : RhpamUser
user = record {
  metadata = metadata;
  spec = record { roles = record { name = "clerk" } ∷ []; users = [] };
  status = record { phase = accepted; realm = "demo" };
}

present-plain : (s : Roles) (x : String) → present s x ≡ true → plain x ≡ true
present-plain (a, g, k) x h = ground arith

reconcile_roles-keycloak_example :
    Achieves ⦃env = rest_world⦄
      (reconcile_roles ⦃env = rest_world⦄ (keycloak ⦃env = rest_world⦄ client) user)
      (true, true, false)
      (λ done s'.
        (x : String) → present s' x ≡ wanted ("clerk" ∷ []) (present (true, true, false)) x)
unfolding spec_role_names
reconcile_roles-keycloak_example =
    reconcile_roles-keycloak ⦃env = rest_world⦄ client "demo" rest user (true, true, false) refl
      (λ pairs s u. (u, λ x. refl, λ x. refl)) (present-plain (true, true, false))
      (λ x h. ground arith)

-- The run itself: "guest" goes, "clerk" comes, "admin" stays.
reconcile_roles_over_http :
    (reconcile_roles ⦃env = rest_world⦄
      (keycloak ⦃env = rest_world⦄ client)
      user
      (true, true, false)).state
    ≡ (true, false, true)
unfolding reconcile_roles keycloak list_roles get_role create_role delete_role load_role_template
    Http.list Http.get Http.create Http.delete text_or_empty ◌>>=◌ for_each
reconcile_roles_over_http = refl
