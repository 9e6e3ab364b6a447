-- ===== src/Keycloak/Client/Users.antt =====
-- What the methods of `Client` that look up users, and `login`, make of an answer.
use mathlib.Core.Option
use rhpam_dev_operator.Base.{
  ℕ, Bool, String, ◌≡◌, refl, ap, ◌∙◌, ◌<>◌, ◌==◌, true, Option, none, some, List, [], ◌∷◌, arith,
  same_nat, if◌then◌else◌,
}
use rhpam_dev_operator.Env.{Env, Result}
use rhpam_dev_operator.Objects.{Response}
use rhpam_dev_operator.Effect.{◌>>=◌}
use rhpam_dev_operator.Keycloak.Types.{KeycloakApiUser, TokenResponse}
use rhpam_dev_operator.Keycloak.Http.{Client, admin_url, get_of, get}
use rhpam_dev_operator.Keycloak.Http.Answers.{value_of, fetched, queries_lem}
use rhpam_dev_operator.Keycloak.Client.{
  first_user, map_result, find_user_by_username, login_request, login,
}

-- The first user of a list, if there is one and it has an id.
abbrev pub first_with_id : Option (List KeycloakApiUser) → Option KeycloakApiUser
first_with_id (some (u ∷ _)) = if u.id == "" then none else some u
first_with_id _ = none

abbrev pub with_token : Client → Option TokenResponse → Option Client
with_token c (some t) = if t.error == "" then some (record c { token = t.access_token }) else none
with_token c none = none

abbrev with_id : Option KeycloakApiUser → Option KeycloakApiUser
with_id (some u) = if u.id == "" then none else some u
with_id none = none

with_id-first_user :
    (o : Option (List KeycloakApiUser)) → with_id (Option.map first_user o) ≡ first_with_id o
unfolding first_user
with_id-first_user none = refl
with_id-first_user (some []) = refl
with_id-first_user (some (u ∷ us)) = refl

fetched-map :
    {E S A B : Type 0} (f : A → B) (fault : Option E) (answer : Result E Response × S)
    (test : ℕ → Bool) (read : ℕ → S → Result E String × S) (decode : String → Result E A)
    → fetched fault answer test read (λ body. map_result f (decode body))
      ≡ Option.map f (fetched fault answer test read decode)
fetched-map f fault answer test read decode = ground arith

module _ ⦃env : Env⦄ (c : Client) (s : env.State) where
  find_user-with_id :
      (name realm : String)
      → let path = "realms/" <> realm <> "/users?username=" <> name in
        value_of (find_user_by_username c name realm s).result
        ≡ with_id (
            value_of
              (get c path "user"
                (λ body. map_result first_user (env.unmarshal_api_users body))
                s).result)
  unfolding find_user_by_username ◌>>=◌
  find_user-with_id name realm = ground arith

  -- `FindUserByUsername` returns the first user that Keycloak's search answers with, if that has an
  -- id. The name is only sent: it is not compared with that of the user returned.
  pub find_user_by_username_lem :
      (name realm : String)
      → let path = "realms/" <> realm <> "/users?username=" <> name in
        value_of (find_user_by_username c name realm s).result
        ≡ first_with_id (
            fetched
              (env.url_error (admin_url c path))
              (env.do_request (get_of c path) s)
              (same_nat 200)
              env.read_all
              env.unmarshal_api_users)
  find_user_by_username_lem name realm =
      let path = "realms/" <> realm <> "/users?username=" <> name in
      let fault = env.url_error (admin_url c path) in
      let answer = env.do_request (get_of c path) s in
      find_user-with_id name realm
      ∙ ap with_id (
          (queries_lem c path "user" s _).1
          ∙ fetched-map first_user fault answer (same_nat 200) env.read_all env.unmarshal_api_users)
      ∙ with_id-first_user _

  -- `login` returns the client with the token of any answer that decodes with an empty error field,
  -- whatever the status of that answer, and returns no client in every other case.
  pub login_lem :
      (user pass : String)
      → let req = login_request c user pass in
        value_of (login c user pass s).result
        ≡ with_token c (
            fetched
              (env.url_error req.url)
              (env.do_request req s)
              (λ _. true)
              env.read_all
              env.unmarshal_token)
  unfolding login ◌>>=◌
  login_lem user pass = ground arith
