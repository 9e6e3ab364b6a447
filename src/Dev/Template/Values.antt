-- ===== src/Dev/Template/Values.antt =====
-- The values that the resource templates are rendered with.
use rhpam_dev_operator.Base.{
  String, ◌≡◌, refl, ◌==◌, Bool, true, ◌&&◌, ◌||◌, not, [], ◌∷◌, Dict, arith, Bool-cases, inl, inr,
}
use rhpam_dev_operator.Api.{RhpamDev}
use rhpam_dev_operator.Dev.Template.{parameters_of, parameter_fields, value_or_default}

-- A config with another id for the kie server.
abbrev pub with_kie_server_id : String → RhpamDev → RhpamDev
with_kie_server_id id r = record r {
  spec = record (r.spec) {
    config = record (r.spec.config) {
      kie_server_config = record (r.spec.config.kie_server_config) { kie_server_id = id };
    };
  };
}

abbrev is_set : String → Bool
is_set value = not (value == "")

value_or_default-set : (v d : String) → is_set (value_or_default v d) ≡ (is_set d || is_set v)
unfolding value_or_default
value_or_default-set v d = elim (Bool-cases (v == "")) [
  | inl e ↦ rw e (ground arith)
  | inr e ↦ rw e (ground arith)
]

-- Every parameter but the namespace has a text.
abbrev pub all_set : Dict String → Bool
all_set [] = true
all_set ((k, v) ∷ m) = (k == "ApplicationNamespace" || is_set v) && all_set m

-- Every parameter that the templates are rendered with, but the namespace, is a nonempty text, for
-- any object.
pub parameters_of-set : (r : RhpamDev) → all_set (parameter_fields (parameters_of r)) ≡ true
unfolding parameters_of parameter_fields
parameters_of-set r = simp value_or_default-set

-- The parameters do not depend on the id of the kie server that the object's config asks for.
pub parameters_of-kie_server_id :
    (r : RhpamDev) (id : String) → parameters_of (with_kie_server_id id r) ≡ parameters_of r
unfolding parameters_of
parameters_of-kie_server_id r id = refl
