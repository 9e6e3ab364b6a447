-- ===== src/Keycloak/Traffic.antt =====
-- The methods of `Client` cause HTTP traffic and nothing else: what the phase handlers may use of
-- any `KeycloakInterface` that `authenticatedClient` gives them.
use rhpam_dev_operator.Base.{ℕ, String, inl, inr, Option-cases}
use rhpam_dev_operator.Objects.{Event, Request, requested, received, closed}
use rhpam_dev_operator.Env.{Env, Result}
use rhpam_dev_operator.Effect.Emits.{Emits, Emits-mono, emits_rules}
use rhpam_dev_operator.Effect.Returns.{Returns, returns_rules}
use rhpam_dev_operator.Keycloak.Http.{
  Client, create, get, delete, delete_with_body, list, new_request, perform,
}
use rhpam_dev_operator.Keycloak.Interface.{KeycloakInterface}
use rhpam_dev_operator.Keycloak.Client.{
  KeycloakFactory, create_realm, create_client, create_role, create_user, create_user_realm_role,
  find_user_by_username, get_client_secret, get_user, get_role, get_realm_role_mappings,
  delete_realm, delete_user, delete_role, delete_user_realm_role, list_clients, list_users,
  list_roles, login, keycloak, authenticated_client,
}

abbrev pub IsHttp : Event → Type 0
IsHttp (requested r) = Unit
IsHttp (received n) = Unit
IsHttp (closed n) = Unit
IsHttp _ = ⊥

module _ ⦃env : Env⦄ where
  new_request-IsHttp : (r : Request) (m : String) → Emits IsHttp (new_request r m)
  unfolding new_request
  new_request-IsHttp r m = elim (Option-cases (env.url_error r.url)) [
    | inl e ↦ rw (e, new_request) (search emits_rules)
    | inr (x, e) ↦ rw (e, new_request) (search emits_rules)
  ]

  perform-IsHttp : (r : Request) (m : String) → Emits IsHttp (perform r m)
  unfolding perform
  perform-IsHttp r m = search emits_rules

  ruleset exchange_rules = (emits_rules, new_request-IsHttp, perform-IsHttp)

  create-IsHttp :
      (c : Client) (obj path name : String) (code : ℕ) → Emits IsHttp (create c obj path name code)
  unfolding create
  create-IsHttp c obj path name code = search exchange_rules depth 9

  delete-IsHttp : (c : Client) (path name : String) → Emits IsHttp (delete c path name)
  unfolding delete
  delete-IsHttp c path name = search exchange_rules depth 9

  delete_with_body-IsHttp :
      (c : Client) (obj path name : String) → Emits IsHttp (delete_with_body c obj path name)
  unfolding delete_with_body
  delete_with_body-IsHttp c obj path name = search exchange_rules depth 9

  get-IsHttp :
      {A : Type 0} (c : Client) (path name : String) (decode : String → Result env.Error A)
      → Emits IsHttp (get c path name decode)
  unfolding get
  get-IsHttp c path name decode = search exchange_rules depth 9

  list-IsHttp :
      {A : Type 0} (c : Client) (path name : String) (decode : String → Result env.Error A)
      → Emits IsHttp (list c path name decode)
  unfolding list
  list-IsHttp c path name decode = search exchange_rules depth 9

  login-IsHttp : (c : Client) (user pass : String) → Emits IsHttp (login c user pass)
  unfolding login
  login-IsHttp c user pass = search exchange_rules depth 9

-- Every method of an interface causes only events that satisfy `P`.
pub record Confined ⦃env : Env⦄ (P : Event → Type 0) (sso : KeycloakInterface) : Type 0 where
  pub create_realm : (json : String) → Emits P (sso.create_realm json)
  pub delete_realm : (realm : String) → Emits P (sso.delete_realm realm)
  pub create_client : (json realm : String) → Emits P (sso.create_client json realm)
  pub get_client_secret : (id realm : String) → Emits P (sso.get_client_secret id realm)
  pub list_clients : (realm : String) → Emits P (sso.list_clients realm)
  pub create_user : (json realm : String) → Emits P (sso.create_user json realm)
  pub find_user_by_username : (name realm : String) → Emits P (sso.find_user_by_username name realm)
  pub get_user : (id realm : String) → Emits P (sso.get_user id realm)
  pub list_users : (realm : String) → Emits P (sso.list_users realm)
  pub delete_user : (id realm : String) → Emits P (sso.delete_user id realm)
  pub create_role : (json realm : String) → Emits P (sso.create_role json realm)
  pub get_role : (role realm : String) → Emits P (sso.get_role role realm)
  pub list_roles : (realm : String) → Emits P (sso.list_roles realm)
  pub delete_role : (role realm : String) → Emits P (sso.delete_role role realm)
  pub get_realm_role_mappings :
      (user realm : String) → Emits P (sso.get_realm_role_mappings user realm)
  pub create_user_realm_role :
      (json user realm : String) → Emits P (sso.create_user_realm_role json user realm)
  pub delete_user_realm_role :
      (json user realm : String) → Emits P (sso.delete_user_realm_role json user realm)

ruleset method_rules =
    (emits_rules, create-IsHttp, get-IsHttp, list-IsHttp, delete-IsHttp, delete_with_body-IsHttp)

module _ ⦃env : Env⦄ where
  keycloak-Confined : (c : Client) → Confined IsHttp (keycloak c)
  unfolding keycloak create_realm create_client create_role create_user create_user_realm_role
      find_user_by_username get_client_secret get_user get_role get_realm_role_mappings delete_realm
      delete_user delete_role delete_user_realm_role list_clients list_users list_roles
  keycloak-Confined c = record {
    create_realm = λ json. search method_rules;
    delete_realm = λ realm. search method_rules;
    create_client = λ json realm. search method_rules;
    get_client_secret = λ id realm. search method_rules;
    list_clients = λ realm. search method_rules;
    create_user = λ json realm. search method_rules;
    find_user_by_username = λ name realm. search method_rules depth 7;
    get_user = λ id realm. search method_rules depth 7;
    list_users = λ realm. search method_rules;
    delete_user = λ id realm. search method_rules;
    create_role = λ json realm. search method_rules;
    get_role = λ role realm. search method_rules;
    list_roles = λ realm. search method_rules;
    delete_role = λ role realm. search method_rules;
    get_realm_role_mappings = λ user realm. search method_rules;
    create_user_realm_role = λ json user realm. search method_rules;
    delete_user_realm_role = λ json user realm. search method_rules;
  }

  pub authenticated_client-IsHttp : (kf : KeycloakFactory) → Emits IsHttp (authenticated_client kf)
  unfolding authenticated_client
  authenticated_client-IsHttp kf = search (emits_rules, login-IsHttp)

  -- A client that has logged in causes HTTP traffic only.
  pub authenticated_client-Confined :
      (kf : KeycloakFactory) → Returns (Confined IsHttp) (authenticated_client kf)
  unfolding authenticated_client
  authenticated_client-Confined kf = search (returns_rules, keycloak-Confined)

module _ ⦃env : Env⦄ {P R : Event → Type 0} (h : (e : Event) → P e → R e) where
  pub Confined-mono : (sso : KeycloakInterface) → Confined P sso → Confined R sso
  Confined-mono sso c = record {
    create_realm = λ json. Emits-mono _ h (c.create_realm json);
    delete_realm = λ realm. Emits-mono _ h (c.delete_realm realm);
    create_client = λ json realm. Emits-mono _ h (c.create_client json realm);
    get_client_secret = λ id realm. Emits-mono _ h (c.get_client_secret id realm);
    list_clients = λ realm. Emits-mono _ h (c.list_clients realm);
    create_user = λ json realm. Emits-mono _ h (c.create_user json realm);
    find_user_by_username = λ name realm. Emits-mono _ h (c.find_user_by_username name realm);
    get_user = λ id realm. Emits-mono _ h (c.get_user id realm);
    list_users = λ realm. Emits-mono _ h (c.list_users realm);
    delete_user = λ id realm. Emits-mono _ h (c.delete_user id realm);
    create_role = λ json realm. Emits-mono _ h (c.create_role json realm);
    get_role = λ role realm. Emits-mono _ h (c.get_role role realm);
    list_roles = λ realm. Emits-mono _ h (c.list_roles realm);
    delete_role = λ role realm. Emits-mono _ h (c.delete_role role realm);
    get_realm_role_mappings = λ user realm. Emits-mono _ h (c.get_realm_role_mappings user realm);
    create_user_realm_role =
        λ json user realm. Emits-mono _ h (c.create_user_realm_role json user realm);
    delete_user_realm_role =
        λ json user realm. Emits-mono _ h (c.delete_user_realm_role json user realm);
  }
