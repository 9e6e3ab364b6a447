-- ===== src/User/Pairs.antt =====
-- pkg/controller/rhpamuser/phaseHandler.go: the maps that pair what Keycloak has with what the
-- spec asks for.
pub mod Lookup
use rhpam_dev_operator.Base.{String, Option, none, some, List, [], ◌∷◌, Dict, lookup, insert}
use rhpam_dev_operator.Keycloak.Types.{KeycloakUser, KeycloakRolePair, KeycloakUserPair}

abbrev pub RolePairs : Type 0
RolePairs = Dict KeycloakRolePair

abbrev pub UserPairs : Type 0
UserPairs = Dict KeycloakUserPair

-- `for _, role := range roles { pairs[role.Name] = {KcRole: role.Name, SpecRole: ""} }`
unfoldable pub pair_kc_roles : List String → RolePairs → RolePairs
pair_kc_roles [] pairs = pairs
pair_kc_roles (r ∷ roles) pairs =
    pair_kc_roles roles (insert r (record { kc_role = r; spec_role = "" }) pairs)

-- The pair of a role of the spec, from the pair that the map has for it.
unfoldable pub with_spec_role : String → Option KeycloakRolePair → KeycloakRolePair
with_spec_role r (some p) = record p { spec_role = r }
with_spec_role r none = record { kc_role = ""; spec_role = r }

unfoldable pub pair_spec_roles : List String → RolePairs → RolePairs
unfolding with_spec_role
pair_spec_roles [] pairs = pairs
pair_spec_roles (r ∷ roles) pairs =
    pair_spec_roles roles (insert r (with_spec_role r (lookup r pairs)) pairs)

unfoldable pub role_pairs : List String → List String → RolePairs
unfolding pair_kc_roles pair_spec_roles
role_pairs kc_roles spec_roles = pair_spec_roles spec_roles (pair_kc_roles kc_roles [])

unfoldable pub with_spec_user : KeycloakUser → Option KeycloakUserPair → KeycloakUserPair
with_spec_user u (some p) = record p { spec_user = some u }
with_spec_user u none = record { kc_user = none; spec_user = some u }

unfoldable pub pair_spec_users : List KeycloakUser → UserPairs → UserPairs
unfolding with_spec_user
pair_spec_users [] pairs = pairs
pair_spec_users (u ∷ users) pairs =
    let name = u.api.user_name in
    pair_spec_users users (insert name (with_spec_user u (lookup name pairs)) pairs)
