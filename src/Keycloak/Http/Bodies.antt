-- ===== src/Keycloak/Http/Bodies.antt =====
-- Which response bodies the shared requests of keycloakclient.go leave open.
use rhpam_dev_operator.Base.{
  ℕ, String, ◌≡◌, Option, none, List, [], ◌∷◌, arith, if◌then◌else◌, same_nat,
}
use rhpam_dev_operator.Objects.{Event, Response, received, closed}
use rhpam_dev_operator.Env.{Env, Result, ok}
use rhpam_dev_operator.Effect.{◌>>=◌}
use rhpam_dev_operator.Keycloak.Http.{
  Client, admin_url, get_of, create, get, delete, delete_with_body, list,
}

abbrev drop_body : ℕ → List ℕ → List ℕ
drop_body n [] = []
drop_body n (m ∷ ms) = if same_nat n m then ms else m ∷ drop_body n ms

-- The bodies that are open after the events, from those that were open before.
abbrev pub open_bodies : List Event → List ℕ → List ℕ
open_bodies [] bodies = bodies
open_bodies (received n ∷ es) bodies = open_bodies es (n ∷ bodies)
open_bodies (closed n ∷ es) bodies = open_bodies es (drop_body n bodies)
open_bodies (_ ∷ es) bodies = open_bodies es bodies

-- What `get` leaves open, by how the request was built and answered.
abbrev pub left_by_get : {E : Type 0} → Option E → Result E Response → List ℕ
left_by_get none (ok res) = if same_nat res.status_code 200 then [] else res.stream ∷ []
left_by_get _ _ = []

module _ ⦃env : Env⦄ (c : Client) (path name : String) (s : env.State) where
  create-closes :
      (obj : String) (code : ℕ) → open_bodies (create c obj path name code s).events [] ≡ []
  unfolding create ◌>>=◌
  create-closes obj code = ground arith

  delete-closes : open_bodies (delete c path name s).events [] ≡ []
  unfolding delete ◌>>=◌
  delete-closes = ground arith

  delete_with_body-closes :
      (obj : String) → open_bodies (delete_with_body c obj path name s).events [] ≡ []
  unfolding delete_with_body ◌>>=◌
  delete_with_body-closes obj = ground arith

  list-closes :
      {A : Type 0} (decode : String → Result env.Error A)
      → open_bodies (list c path name decode s).events [] ≡ []
  unfolding list ◌>>=◌
  list-closes decode = ground arith

  -- `create`, `delete`, `deleteWithBody` and `list` close every body that they receive, however the
  -- exchange ends.
  pub exchanges_close :
      {A : Type 0} (obj : String) (code : ℕ) (decode : String → Result env.Error A)
      → (open_bodies (create c obj path name code s).events [] ≡ [])
        × (open_bodies (delete c path name s).events [] ≡ [])
        × (open_bodies (delete_with_body c obj path name s).events [] ≡ [])
        × (open_bodies (list c path name decode s).events [] ≡ [])
  exchanges_close obj code decode =
      (create-closes obj code, delete-closes, delete_with_body-closes obj, list-closes decode)

  -- `get` closes the body of an answer with status 200, whatever reading and decoding it give, and
  -- leaves the body of any other answer open.
  pub get-open_bodies :
      {A : Type 0} (decode : String → Result env.Error A)
      → open_bodies (get c path name decode s).events []
        ≡ left_by_get (env.url_error (admin_url c path)) (env.do_request (get_of c path) s).0
  unfolding get get_of ◌>>=◌
  get-open_bodies decode = ground arith
