-- ===== src/Keycloak/Server/Replies.antt =====
-- pkg/keycloak/keycloakclient.go: what the requests of `Client` come to, by the server's replies.
use rhpam_dev_operator.Base.{ℕ, String, ◌<>◌, ◌≡◌, refl, true, none, same_nat, arith}
use rhpam_dev_operator.Objects.{Event, Request, Response}
use rhpam_dev_operator.Env.{Env, Result, ok, err}
use rhpam_dev_operator.Effect.{Action, pure, fail, lift, deferred, ◌>>=◌}
use rhpam_dev_operator.Effect.Achieves.{Achieves, Refuses}
use rhpam_dev_operator.Keycloak.Http.{
  Client, create, get, delete, delete_with_body, list, get_of, post_of, delete_of, delete_body_of,
  new_request, perform, read_body, refused,
}

-- The server answers the request with this status.
pub record Replies ⦃env : Env⦄ (req : Request) (s : env.State) (status : ℕ)
    (Q : Response → env.State → Type 0) : Type 0 where
  pub well_formed : env.url_error req.url ≡ none
  pub response : Response
  pub answers : (env.do_request req s).0 ≡ ok response
  pub has_status : response.status_code ≡ status
  pub holds : Q response (env.do_request req s).1

-- The body of the response can be read, and is the JSON text of a value.
pub record Carries ⦃env : Env⦄ {A : Type 0} (decode : String → Result env.Error A) (res : Response)
    (s : env.State) (Q : A → env.State → Type 0) : Type 0 where
  pub text : String
  pub value : A
  pub reads : (env.read_all res.stream s).0 ≡ ok text
  pub decodes : decode text ≡ ok value
  pub holds : Q value (env.read_all res.stream s).1

same_nat_refl : (n : ℕ) → same_nat n n ≡ true
same_nat_refl n = ground arith

-- An action ends so, and leaves this state.
record Ends ⦃env : Env⦄ {A : Type 0} (m : Action A) (s : env.State) (r : Result env.Error A)
    (s' : env.State) : Type 0 where
  result_is : (m s).result ≡ r
  state_is : (m s).state ≡ s'

module _ ⦃env : Env⦄ {A : Type 0} {s s' : env.State} where
  Achieves-Ends :
      {Q : A → env.State → Type 0} (m : Action A) {a : A}
      → Ends m s (ok a) s'
      → Q a s'
      → Achieves m s Q
  Achieves-Ends m {a} h q = record { value = a; ends = h.result_is; holds = rw h.state_is q }

  Refuses-Ends :
      {Q : env.State → Type 0} (m : Action A) (e : env.Error)
      → Ends m s (err e) s'
      → Q s'
      → Refuses m s (λ _. Q)
  Refuses-Ends m e h q = record { error = e; ends = h.result_is; holds = rw h.state_is q }

module _ ⦃env : Env⦄ {A : Type 0} {r : Result env.Error A} {s s' : env.State} where
  Ends-new_request :
      (req : Request) (message : String) (f : Request → Action A)
      → env.url_error req.url ≡ none
      → Ends (f req) s r s'
      → Ends (new_request req message >>= f) s r s'
  unfolding new_request ◌>>=◌
  Ends-new_request req message f url h = record {
    result_is = rw (new_request, url) h.result_is;
    state_is = rw (new_request, url) h.state_is;
  }

  Ends-perform :
      (req : Request) (message : String) (f : Response → Action A) (res : Response)
      → (env.do_request req s).0 ≡ ok res
      → Ends (f res) (env.do_request req s).1 r s'
      → Ends (perform req message >>= f) s r s'
  unfolding perform ◌>>=◌
  Ends-perform req message f res e h = record {
    result_is = rw (perform, e) h.result_is;
    state_is = rw (perform, e) h.state_is;
  }

  Ends-read_body :
      (res : Response) (message : String) (f : String → Action A) (text : String)
      → (env.read_all res.stream s).0 ≡ ok text
      → Ends (f text) (env.read_all res.stream s).1 r s'
      → Ends (read_body res message >>= f) s r s'
  unfolding read_body ◌>>=◌
  Ends-read_body res message f text e h = record {
    result_is = rw (read_body, e) h.result_is;
    state_is = rw (read_body, e) h.state_is;
  }

  Ends-deferred : (e : Event) (m : Action A) → Ends m s r s' → Ends (deferred e m) s r s'
  unfolding deferred
  Ends-deferred e m h = record { result_is = h.result_is; state_is = h.state_is }

module _ ⦃env : Env⦄ (c : Client) (path name : String) (s : env.State) where
  module _ {A : Type 0} (decode : String → Result env.Error A) {Q : A → env.State → Type 0} where
    pub get-Achieves :
        Replies (get_of c path) s 200 (λ res s'. Carries decode res s' Q)
        → Achieves (get c path name decode) s Q
    unfolding get lift
    get-Achieves h =
        let body = h.holds in
        Achieves-Ends _
          (Ends-new_request _ _ _ h.well_formed (
            Ends-perform _ _ _ h.response h.answers (
              rw h.has_status (
                Ends-deferred _ _ (
                  Ends-read_body h.response _ _ body.text body.reads
                    (record { result_is = body.decodes; state_is = refl }))))))
          body.holds

    pub list-Achieves :
        Replies (get_of c path) s 200 (λ res s'. Carries decode res s' Q)
        → Achieves (list c path name decode) s Q
    unfolding list lift
    list-Achieves h =
        let body = h.holds in
        Achieves-Ends _
          (Ends-new_request _ _ _ h.well_formed (
            Ends-perform _ _ _ h.response h.answers (
              Ends-deferred _ _ (
                rw h.has_status (
                  Ends-read_body h.response _ _ body.text body.reads
                    (record { result_is = body.decodes; state_is = refl }))))))
          body.holds

  pub get-Refuses :
      {A : Type 0} (decode : String → Result env.Error A) {Q : env.State → Type 0}
      → Replies (get_of c path) s 404 (λ _. Q)
      → Refuses (get c path name decode) s (λ _. Q)
  unfolding get refused fail
  get-Refuses decode h =
      Refuses-Ends _
        (env.new_error (
          "failed to "
          <> "GET"
          <> " "
          <> name
          <> ": ("
          <> env.decimal h.response.status_code
          <> ") "
          <> h.response.status))
        (Ends-new_request _ _ _ h.well_formed (
          Ends-perform _ _ _ h.response h.answers
            (rw h.has_status (record { result_is = refl; state_is = refl }))))
        h.holds

  module _ {Q : Unit {0} → env.State → Type 0} where
    pub create-Achieves :
        (json : String) (code : ℕ)
        → Replies (post_of c path json) s code (λ _. Q tt)
        → Achieves (create c json path name code) s Q
    unfolding create pure
    create-Achieves json code h =
        Achieves-Ends _
          (Ends-new_request _ _ _ h.well_formed (
            Ends-perform _ _ _ h.response h.answers (
              Ends-deferred _ _ (
                rw (h.has_status, same_nat_refl code)
                  (record { result_is = refl; state_is = refl })))))
          h.holds

    pub delete-Achieves :
        Replies (delete_of c path) s 204 (λ _. Q tt) → Achieves (delete c path name) s Q
    unfolding delete pure
    delete-Achieves h =
        Achieves-Ends _
          (Ends-new_request _ _ _ h.well_formed (
            Ends-perform _ _ _ h.response h.answers
              (Ends-deferred _ _ (rw h.has_status (record { result_is = refl; state_is = refl })))))
          h.holds

    pub delete_with_body-Achieves :
        (obj : String)
        → Replies (delete_body_of c path obj) s 204 (λ _. Q tt)
        → Achieves (delete_with_body c obj path name) s Q
    unfolding delete_with_body pure
    delete_with_body-Achieves obj h =
        Achieves-Ends _
          (Ends-new_request _ _ _ h.well_formed (
            Ends-perform _ _ _ h.response h.answers
              (Ends-deferred _ _ (rw h.has_status (record { result_is = refl; state_is = refl })))))
          h.holds
