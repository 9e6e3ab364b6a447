-- ===== src/User/Defaults.antt =====
-- The roles and users that every realm has: pkg/controller/rhpamuser/rhpamuser_controller.go.
use rhpam_dev_operator.Base.{String, ◌==◌, ◌||◌, Bool, false, List, [], ◌∷◌, contains}
use rhpam_dev_operator.Api.{User}

abbrev pub default_roles : List String
default_roles =
    "admin" ∷ "process-admin" ∷ "manager" ∷ "analyst" ∷ "developer" ∷ "user" ∷ "kie-server" ∷ []

abbrev pub default_users : List User
default_users =
    record { username = "adminuser"; password = "admin1!"; roles = "admin" ∷ "kie-server" ∷ [] }
    ∷ record { username = "controlleruser"; password = "controller1!"; roles = "kie-server" ∷ [] }
    ∷ record { username = "mavenuser"; password = "maven1!"; roles = [] }
    ∷ record { username = "executionuser"; password = "execution1!"; roles = "kie-server" ∷ [] }
    ∷ []

unfoldable pub is_default_role : String → Bool
is_default_role role = contains default_roles role

unfoldable pub names_user : List User → String → Bool
names_user [] username = false
names_user (u ∷ users) username = username == u.username || names_user users username

unfoldable pub is_default_user : String → Bool
unfolding names_user
is_default_user username = names_user default_users username
