-- ===== src/Keycloak/Http.antt =====
-- pkg/keycloak/keycloakclient.go: the requests that the methods of `Client` share.
pub mod Bodies
pub mod Answers
use rhpam_dev_operator.Base.{
  ℕ, String, ◌<>◌, ◌||◌, none, some, ◌∷◌, [], Dict, if◌then◌else◌, ltb, same_nat,
}
use rhpam_dev_operator.Objects.{Request, Response, requested, received, closed}
use rhpam_dev_operator.Env.{Env, Result}
use rhpam_dev_operator.Effect.{
  Action, pure, fail, lift, quiet, call, log, map_error, deferred, ◌>>=◌, ◌>>◌,
}

-- `requester` is `env.do_request`.
pub record Client : Type 0 where
  pub url : String
  pub token : String

unfoldable pub admin_url : Client → String → String
admin_url c path = c.url <> "/auth/admin/" <> path

unfoldable pub bearer : Client → Dict String
bearer c = ("Authorization", "Bearer " <> c.token) ∷ []

unfoldable pub json_headers : Client → Dict String
unfolding bearer
json_headers c = ("Content-Type", "application/json") ∷ bearer c

-- The four requests that the methods build.
unfoldable pub post_of : Client → String → String → Request
unfolding admin_url json_headers
post_of c path obj = record {
  method = "POST";
  url = admin_url c path;
  headers = json_headers c;
  body = obj;
}

unfoldable pub get_of : Client → String → Request
unfolding admin_url bearer
get_of c path = record { method = "GET"; url = admin_url c path; headers = bearer c; body = "" }

unfoldable pub delete_of : Client → String → Request
unfolding admin_url bearer
delete_of c path = record {
  method = "DELETE";
  url = admin_url c path;
  headers = bearer c;
  body = "";
}

unfoldable pub delete_body_of : Client → String → String → Request
unfolding admin_url json_headers
delete_body_of c path obj = record {
  method = "DELETE";
  url = admin_url c path;
  headers = json_headers c;
  body = obj;
}

module _ ⦃env : Env⦄ where
  -- `http.NewRequest`
  unfoldable pub new_request : Request → String → Action Request
  new_request req message = elim (env.url_error req.url) [
    | none ↦ pure req
    | some e ↦ fail (env.wrap e message)
  ]

  -- `c.requester.Do(req)`: a response comes with a body to close.
  unfoldable pub perform : Request → String → Action Response
  perform req message = do
    res ← map_error (λ e. env.wrap e message) (call (requested req) (env.do_request req))
    log (received res.stream)
    pure res

  unfoldable pub refused : {A : Type 0} → String → String → Response → Action A
  refused what name res = fail (
      env.new_error (
        "failed to "
        <> what
        <> " "
        <> name
        <> ": ("
        <> env.decimal res.status_code
        <> ") "
        <> res.status))

  unfoldable pub read_body : Response → String → Action String
  read_body res message = map_error (λ e. env.wrap e message) (quiet (env.read_all res.stream))

  unfoldable pub create : Client → String → String → String → ℕ → Action (Unit {0})
  unfolding post_of new_request perform refused
  create c obj path name statuscode = do
    req ← new_request (post_of c path obj) ("error creating POST " <> name <> " request")
    res ← perform req ("error performing POST " <> name <> " request")
    deferred (closed res.stream)
        (if same_nat res.status_code statuscode then pure tt else refused "create" name res)

  -- The body is closed only if the status is 200: the `defer` stands behind the test.
  unfoldable pub get :
      {A : Type 0} → Client → String → String → (String → Result env.Error A) → Action A
  unfolding get_of new_request perform refused read_body
  get c path name decode = do
    req ← new_request (get_of c path) ("error creating GET " <> name <> " request")
    res ← perform req ("error performing GET " <> name <> " request")
    if same_nat res.status_code 200
        then deferred (closed res.stream) (
            read_body res ("error reading " <> name <> " GET response") >>= λ body.
            lift (decode body))
        else refused "GET" name res

  unfoldable pub delete : Client → String → String → Action (Unit {0})
  unfolding delete_of new_request perform refused
  delete c path name = do
    req ← new_request (delete_of c path) ("error creating DELETE " <> name <> " request")
    res ← perform req ("error performing DELETE " <> name <> " request")
    deferred (closed res.stream)
        (if same_nat res.status_code 204 then pure tt else refused "DELETE" name res)

  unfoldable pub delete_with_body : Client → String → String → String → Action (Unit {0})
  unfolding delete_body_of new_request perform refused
  delete_with_body c obj path name = do
    req ← new_request (delete_body_of c path obj) ("error creating DELETE " <> name <> " request")
    res ← perform req ("error performing DELETE " <> name <> " request")
    deferred (closed res.stream)
        (if same_nat res.status_code 204 then pure tt else refused "delete" name res)

  unfoldable pub list :
      {A : Type 0} → Client → String → String → (String → Result env.Error A) → Action A
  unfolding get_of new_request perform refused read_body
  list c path name decode = do
    req ← new_request (get_of c path) ("error creating LIST " <> name <> " request")
    res ← perform req ("error performing LIST " <> name <> " request")
    deferred (closed res.stream) (
        if ltb res.status_code 200 || ltb 299 res.status_code
        then refused "LIST" name res
        else (read_body res ("error reading " <> name <> " LIST response") >>= λ body.
            lift (decode body)))
