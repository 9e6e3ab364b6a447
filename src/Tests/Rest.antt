-- ===== src/Tests/Rest.antt =====
-- A Keycloak behind HTTP, whose realm has some of three roles.
use rhpam_dev_operator.Base.{
  ◌⊎◌, eq_iff, ℕ, String, ◌<>◌, ◌≡◌, ◌==◌, ◌||◌, ◌&&◌, not, Bool, true, false, List, [], ◌∷◌, ◌++◌,
  contains, lookup, arith, if◌then◌else◌,
}
use rhpam_dev_operator.Env.{Env, Result, ok}
use rhpam_dev_operator.Objects.{Response}
use rhpam_dev_operator.Keycloak.Types.{KeycloakRole}
use rhpam_dev_operator.Keycloak.Http.{Client, admin_url}
use rhpam_dev_operator.Keycloak.Client.{text_or_empty}
use rhpam_dev_operator.Keycloak.Server.Rest.{role_path}
use rhpam_dev_operator.User.Members.{role_names}
use rhpam_dev_operator.Tests.World.{world_over, role_called}

-- Whether "admin", "guest" and "clerk" are there.
abbrev pub Roles : Type 0
Roles = Bool × Bool × Bool

abbrev pub names : Roles → List String
names (a, g, k) =
    (if a then "admin" ∷ [] else [])
    ++ (if g then "guest" ∷ [] else [])
    ++ (if k then "clerk" ∷ [] else [])

abbrev pub digit : Bool → String
digit b = if b then "1" else "0"

abbrev pub text : Roles → String
text (a, g, k) = digit a <> digit g <> digit k

abbrev pub called : List String → List KeycloakRole
called [] = []
called (x ∷ xs) = role_called x ∷ called xs

abbrev pub base : String
base = "https://sso/auth/admin/realms/demo/roles"

abbrev pub role_at : String → String
role_at url =
    if url == base <> "/admin"
    then "admin"
    else if url == base <> "/guest"
    then "guest"
    else if url == base <> "/clerk"
    then "clerk"
    else ""

abbrev pub present : Roles → String → Bool
present (a, g, k) r = (r == "admin" && a) || (r == "guest" && g) || (r == "clerk" && k)

abbrev pub with_role : String → Roles → Roles
with_role r (a, g, k) = (r == "admin" || a, r == "guest" || g, r == "clerk" || k)

abbrev pub without_role : String → Roles → Roles
without_role r (a, g, k) =
    (not (r == "admin") && a, not (r == "guest") && g, not (r == "clerk") && k)

abbrev pub parsed : String → List KeycloakRole
parsed t =
    if t == "000"
    then []
    else if t == "001"
    then called ("clerk" ∷ [])
    else if t == "010"
    then called ("guest" ∷ [])
    else if t == "011"
    then called ("guest" ∷ "clerk" ∷ [])
    else if t == "100"
    then called ("admin" ∷ [])
    else if t == "101"
    then called ("admin" ∷ "clerk" ∷ [])
    else if t == "110"
    then called ("admin" ∷ "guest" ∷ [])
    else called ("admin" ∷ "guest" ∷ "clerk" ∷ [])

abbrev pub reply : ℕ → Roles → Result String Response × Roles
reply code s = (ok (record { status_code = code; status = ""; stream = 0 }), s)

instance abbrev pub rest_world : Env
rest_world = record (world_over Roles (λ s. s) (λ s. 0)) {
  execute_template = λ t fields. ok (text_or_empty (lookup "RoleName" fields));
  read_all = λ n s. (ok (text s), s);
  unmarshal_roles = λ t. ok (parsed t);
  do_request = λ req s.
      if req.method == "POST"
      then reply 201 (with_role req.body s)
      else if req.method == "DELETE"
      then reply 204 (without_role (role_at req.url) s)
      else if req.url == base
      then reply 200 s
      else if present s (role_at req.url)
      then reply 200 s
      else reply 404 s;
}

abbrev pub client : Client
client = record { url = "https://sso"; token = "t0" }

abbrev pub plain : String → Bool
plain = contains ("admin" ∷ "guest" ∷ "clerk" ∷ [])

pub present-parsed :
    (s : Roles) (x : String) → contains (role_names (parsed (text s))) x ≡ present s x
unfolding role_names
present-parsed (true, true, true) x = ground (arith)
present-parsed (true, true, false) x = ground (arith)
present-parsed (true, false, true) x = ground (arith)
present-parsed (true, false, false) x = ground (arith)
present-parsed (false, true, true) x = ground (arith)
present-parsed (false, true, false) x = ground (arith)
present-parsed (false, false, true) x = ground (arith)
present-parsed (false, false, false) x = ground (arith)

abbrev pub url_of : String → String
url_of r = admin_url client (role_path "demo" r)

pub plain_cases : (r : String) → plain r ≡ true → (r ≡ "admin") ⊎ (r ≡ "guest") ⊎ (r ≡ "clerk")
plain_cases r p = ground (arith, eq_iff r "admin", eq_iff r "guest", eq_iff r "clerk")

pub present-with_role :
    (s : Roles) (r x : String)
    → plain r ≡ true
    → present (with_role r s) x ≡ (x == r || present s x)
present-with_role (a, g, k) r x p = ground (
  arith,
  eq_iff x r,
  eq_iff x "admin",
  eq_iff x "guest",
  eq_iff x "clerk",
  eq_iff r "admin",
  eq_iff r "guest",
  eq_iff r "clerk",
)

pub present-without_role :
    (s : Roles) (r x : String) → present (without_role r s) x ≡ (not (x == r) && present s x)
present-without_role (a, g, k) r x = ground (
  arith,
  eq_iff x r,
  eq_iff x "admin",
  eq_iff x "guest",
  eq_iff x "clerk",
  eq_iff r "admin",
  eq_iff r "guest",
  eq_iff r "clerk",
)
