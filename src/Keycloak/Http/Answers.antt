-- ===== src/Keycloak/Http/Answers.antt =====
-- How the shared requests of keycloakclient.go end, by how they were built and answered.
use rhpam_dev_operator.Base.{
  ℕ, String, ◌≡◌, ◌↔◌, ◌&&◌, Bool, true, false, Option, none, some, List, [], ◌∷◌, arith, leb,
  if◌then◌else◌, same_nat,
}
use rhpam_dev_operator.Objects.{Event, Request, Response, requested}
use rhpam_dev_operator.Env.{Env, Result, ok}
use rhpam_dev_operator.Effect.{◌>>=◌}
use rhpam_dev_operator.Keycloak.Http.{
  Client, admin_url, get_of, post_of, delete_of, delete_body_of, create, get, delete,
  delete_with_body, list,
}

-- The requests that go out.
abbrev pub sent : List Event → List Request
sent [] = []
sent (requested r ∷ es) = r ∷ sent es
sent (_ ∷ es) = sent es

-- The request could be built, and its answer has a status that passes the test.
abbrev pub answered : {E : Type 0} → Option E → Result E Response → (ℕ → Bool) → Bool
answered none (ok res) test = test res.status_code
answered _ _ test = false

-- One request goes out, unless it cannot be built.
abbrev pub one_request : {E : Type 0} → Option E → Request → List Request
one_request none r = r ∷ []
one_request (some e) r = []

module _ ⦃env : Env⦄ (c : Client) (path name obj : String) (s : env.State) where
  -- `create` sends one POST with the object and the token, and succeeds exactly when the answer has
  -- the expected status.
  pub create_lem :
      (code : ℕ)
      → let o = create c obj path name code s in
        let fault = env.url_error (admin_url c path) in
        (sent o.events ≡ one_request fault (post_of c path obj))
        × ((o.result ≡ ok tt)
            ↔ (answered fault (env.do_request (post_of c path obj) s).0 (same_nat code) ≡ true))
  unfolding create ◌>>=◌
  create_lem code = ground arith

  -- `delete` and `deleteWithBody` send one DELETE, the latter with the object, and succeed exactly
  -- when the answer has status 204.
  pub deletions_lem :
      let fault = env.url_error (admin_url c path) in
      let o = delete c path name s in
      let o' = delete_with_body c obj path name s in
      (sent o.events ≡ one_request fault (delete_of c path))
      × ((o.result ≡ ok tt)
          ↔ (answered fault (env.do_request (delete_of c path) s).0 (same_nat 204) ≡ true))
      × (sent o'.events ≡ one_request fault (delete_body_of c path obj))
      × ((o'.result ≡ ok tt)
          ↔ (answered fault (env.do_request (delete_body_of c path obj) s).0 (same_nat 204) ≡ true))
  unfolding delete delete_with_body ◌>>=◌
  deletions_lem = ground arith

abbrev pub value_of : {E A : Type 0} → Result E A → Option A
value_of (ok a) = some a
value_of _ = none

abbrev pub decoded : {E A : Type 0} → Result E String → (String → Result E A) → Option A
decoded (ok body) decode = value_of (decode body)
decoded _ decode = none

-- What a request for a value finds: the decoded body of an answer whose status passes the test.
abbrev pub fetched :
    {E S A : Type 0}
    → Option E
    → Result E Response × S
    → (ℕ → Bool)
    → (ℕ → S → Result E String × S)
    → (String → Result E A)
    → Option A
fetched none (ok res, s) test read decode =
    if test res.status_code then decoded (read res.stream s).0 decode else none
fetched _ _ test read decode = none

module _ ⦃env : Env⦄ (c : Client) (path name : String) (s : env.State) where
  -- `get` and `list` send one GET. They return the decoded body of an answer with status 200, and
  -- with a status from 200 to 299; in every other case they return no value.
  pub queries_lem :
      {A : Type 0} (decode : String → Result env.Error A)
      → let fault = env.url_error (admin_url c path) in
        let answer = env.do_request (get_of c path) s in
        let o = get c path name decode s in
        let o' = list c path name decode s in
        (sent o.events ≡ one_request fault (get_of c path))
        × (value_of o.result ≡ fetched fault answer (same_nat 200) env.read_all decode)
        × (sent o'.events ≡ one_request fault (get_of c path))
        × (value_of o'.result
            ≡ fetched fault answer (λ code. leb 200 code && leb code 299) env.read_all decode)
  unfolding get list ◌>>=◌
  queries_lem decode = ground arith
