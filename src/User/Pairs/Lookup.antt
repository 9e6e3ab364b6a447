-- ===== src/User/Pairs/Lookup.antt =====
-- What the map of role pairs holds, for every two lists of names.
use rhpam_dev_operator.Base.{
  String, ◌≡◌, refl, ◌∙◌, Bool, true, false, Option, none, some, List, [], ◌∷◌, contains, lookup,
  lookup-insert, Unique, Unique-insert, arith, eq_iff, if◌then◌else◌,
}
use rhpam_dev_operator.Keycloak.Types.{KeycloakRolePair}
use rhpam_dev_operator.User.Pairs.{
  RolePairs, pair_kc_roles, pair_spec_roles, with_spec_role, role_pairs,
}

-- The pair of a role, by whether Keycloak has it and whether the spec asks for it.
abbrev pub pair_of : String → Bool → Bool → Option KeycloakRolePair
pair_of r false false = none
pair_of r true false = some (record { kc_role = r; spec_role = "" })
pair_of r false true = some (record { kc_role = ""; spec_role = r })
pair_of r true true = some (record { kc_role = r; spec_role = r })

lookup-pair_kc_roles :
    (r : String) (kc : List String) (m : RolePairs)
    → lookup r (pair_kc_roles kc m)
      ≡ (if contains kc r then some (record { kc_role = r; spec_role = "" }) else lookup r m)
unfolding pair_kc_roles
lookup-pair_kc_roles r [] m = refl
lookup-pair_kc_roles r (k ∷ kc) m =
    lookup-pair_kc_roles r kc _
    ∙ ground (arith, eq_iff r k, lookup-insert r k (record { kc_role = k; spec_role = "" }) m)

lookup-pair_spec_roles :
    (r : String) (spec : List String) (m : RolePairs)
    → lookup r (pair_spec_roles spec m)
      ≡ (if contains spec r then some (with_spec_role r (lookup r m)) else lookup r m)
unfolding pair_spec_roles
lookup-pair_spec_roles r [] m = refl
lookup-pair_spec_roles r (k ∷ spec) m =
    lookup-pair_spec_roles r spec _
    ∙ ground (arith, eq_iff r k, lookup-insert r k (with_spec_role k (lookup k m)) m)

-- A role has a pair exactly if Keycloak or the spec has it. Its Keycloak side is the role if
-- Keycloak has it and empty if not, and its spec side likewise.
pub lookup-role_pairs :
    (r : String) (kc spec : List String)
    → lookup r (role_pairs kc spec) ≡ pair_of r (contains kc r) (contains spec r)
unfolding role_pairs
lookup-role_pairs r kc spec =
    lookup-pair_spec_roles r spec _ ∙ ground (arith, lookup-pair_kc_roles r kc [])

Unique-pair_kc_roles : (kc : List String) (m : RolePairs) → Unique m → Unique (pair_kc_roles kc m)
unfolding pair_kc_roles
Unique-pair_kc_roles [] m u = u
Unique-pair_kc_roles (r ∷ kc) m u = Unique-pair_kc_roles kc _ (Unique-insert r _ m u)

Unique-pair_spec_roles :
    (spec : List String) (m : RolePairs) → Unique m → Unique (pair_spec_roles spec m)
unfolding pair_spec_roles
Unique-pair_spec_roles [] m u = u
Unique-pair_spec_roles (r ∷ spec) m u = Unique-pair_spec_roles spec _ (Unique-insert r _ m u)

pub Unique-role_pairs : (kc spec : List String) → Unique (role_pairs kc spec)
unfolding role_pairs
Unique-role_pairs kc spec = Unique-pair_spec_roles spec _ (Unique-pair_kc_roles kc [] tt)
