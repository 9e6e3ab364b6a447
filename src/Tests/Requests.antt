-- ===== src/Tests/Requests.antt =====
-- The exchanges with Keycloak.
use rhpam_dev_operator.Base.{◌≡◌, ◌↔◌, true, some, [], ◌∷◌, same_nat}
use rhpam_dev_operator.Env.{ok}
use rhpam_dev_operator.Keycloak.Http.{
  Client, post_of, get_of, delete_of, delete_body_of, create, get, delete, delete_with_body, list,
}
use rhpam_dev_operator.Keycloak.Http.Bodies.{open_bodies, exchanges_close, get-open_bodies}
use rhpam_dev_operator.Keycloak.Http.Answers.{
  sent, value_of, create_lem, deletions_lem, queries_lem,
}
use rhpam_dev_operator.Keycloak.Client.{find_user_by_username, login}
use rhpam_dev_operator.Keycloak.Client.Users.{find_user_by_username_lem, login_lem}
use rhpam_dev_operator.Tests.World.{world, ann}

abbrev client : Client
client = record { url = "https://sso"; token = "t0" }

exchanges_close_example :
    (open_bodies (create ⦃env = world⦄ client "{}" "realms" "realm" 201 0).events [] ≡ [])
    × (open_bodies (delete ⦃env = world⦄ client "realms" "realm" 0).events [] ≡ [])
    × (open_bodies (delete_with_body ⦃env = world⦄ client "{}" "realms" "realm" 0).events [] ≡ [])
    × (open_bodies (list ⦃env = world⦄ client "realms" "realm" (λ b. ok b) 0).events [] ≡ [])
exchanges_close_example =
    exchanges_close ⦃env = world⦄ client "realms" "realm" 0 "{}" 201 (λ b. ok b)

get-open_bodies_example :
    open_bodies (get ⦃env = world⦄ client "realms/r" "realm" (λ b. ok b) 0).events [] ≡ []
unfolding get_of
get-open_bodies_example = get-open_bodies ⦃env = world⦄ client "realms/r" "realm" 0 (λ b. ok b)

create_lem_example :
    (sent (create ⦃env = world⦄ client "{}" "realms" "realm" 201 0).events
      ≡ post_of client "realms" "{}" ∷ [])
    × (((create ⦃env = world⦄ client "{}" "realms" "realm" 201 0).result ≡ ok tt)
        ↔ (same_nat 201 201 ≡ true))
unfolding post_of
create_lem_example = create_lem ⦃env = world⦄ client "realms" "realm" "{}" 0 201

deletions_lem_example :
    (sent (delete ⦃env = world⦄ client "realms/r" "realm" 0).events
      ≡ delete_of client "realms/r" ∷ [])
    × (((delete ⦃env = world⦄ client "realms/r" "realm" 0).result ≡ ok tt)
        ↔ (same_nat 204 204 ≡ true))
    × (sent (delete_with_body ⦃env = world⦄ client "{}" "realms/r" "realm" 0).events
        ≡ delete_body_of client "realms/r" "{}" ∷ [])
    × (((delete_with_body ⦃env = world⦄ client "{}" "realms/r" "realm" 0).result ≡ ok tt)
        ↔ (same_nat 204 204 ≡ true))
unfolding delete_of delete_body_of
deletions_lem_example = deletions_lem ⦃env = world⦄ client "realms/r" "realm" "{}" 0

queries_lem_example :
    (sent (get ⦃env = world⦄ client "realms/r" "realm" (λ b. ok b) 0).events
      ≡ get_of client "realms/r" ∷ [])
    × (value_of (get ⦃env = world⦄ client "realms/r" "realm" (λ b. ok b) 0).result ≡ some "body")
    × (sent (list ⦃env = world⦄ client "realms/r" "realm" (λ b. ok b) 0).events
        ≡ get_of client "realms/r" ∷ [])
    × (value_of (list ⦃env = world⦄ client "realms/r" "realm" (λ b. ok b) 0).result ≡ some "body")
unfolding get_of
queries_lem_example = queries_lem ⦃env = world⦄ client "realms/r" "realm" 0 (λ b. ok b)

find_user_by_username_lem_example :
    value_of (find_user_by_username ⦃env = world⦄ client "an" "r" 0).result ≡ some ann
unfolding get_of
find_user_by_username_lem_example = find_user_by_username_lem ⦃env = world⦄ client 0 "an" "r"

login_lem_example :
    value_of (login ⦃env = world⦄ client "admin" "pw" 0).result
    ≡ some (record { url = "https://sso"; token = "t0" })
login_lem_example = login_lem ⦃env = world⦄ client 0 "admin" "pw"
