-- ===== src/Tests/Copies.antt =====
-- Deep copies of a RhpamUser object with a role, a nil role and a user.
use rhpam_dev_operator.Base.{
  ℕ, ◌≡◌, refl, String, Option, none, some, [], ◌∷◌, arith, if◌then◌else◌, same_nat,
}
use rhpam_dev_operator.Api.{accepted}
use rhpam_dev_operator.DeepCopy.Memory.{
  Library, Heap, Cell, user_object, user, role, texts, pointers, dev, devs, list_object, DevStruct,
  new, load, store, ◌>>=◌,
}
use rhpam_dev_operator.DeepCopy.{
  user_object_deep_copy, dev_deep_copy, dev_list_deep_copy, user_list_deep_copy,
}
use rhpam_dev_operator.DeepCopy.Cells.{
  user_object_in_cell, list_object_in_cell, dev_in_cell, devs_in_cell, user_objects_in_cell,
}
use rhpam_dev_operator.DeepCopy.Holds.{
  HoldsUserObject, HoldsDev, HoldsList, UserObjectValue, DevValue, At,
}
use rhpam_dev_operator.DeepCopy.Independence.{Succeeds, IsCopied}
use rhpam_dev_operator.Tests.World.{dev_in}
use rhpam_dev_operator.DeepCopy.Objects.{user_object_deep_copy_lem, deep_copies_lem}

instance abbrev lib : Library
lib = record {
  TypeMeta = String;
  ListMeta = String;
  ObjectMeta = String;
  Content = String;
  content = λ m. m;
  deep_copy_into = λ m. m;
}

abbrev cells : ℕ → Option Cell
cells a =
    if same_nat a 0
    then some (
        user_object (record {
          type_meta = "RhpamUser";
          object_meta = "demo";
          spec = record { roles = some 1; users = some 3 };
          status = record { phase = accepted; realm = "r" };
        }))
    else if same_nat a 1
    then some (pointers (some 2 ∷ none ∷ []))
    else if same_nat a 2
    then some (role (record { name = "clerk" }))
    else if same_nat a 3
    then some (pointers (some 4 ∷ []))
    else if same_nat a 4
    then some (user (record { username = "ann"; password = "pw"; roles = some 5 }))
    else if same_nat a 5
    then some (texts ("clerk" ∷ []))
    else none

abbrev memory : Heap
memory = record { next = 6; cell = cells }

abbrev said : Option UserObjectValue
said = some (record {
  type_meta = "RhpamUser";
  metadata = "demo";
  spec = record {
    roles = some (some (record { name = "clerk" }) ∷ none ∷ []);
    users =
        some
          (some (record { username = "ann"; password = "pw"; roles = some ("clerk" ∷ []) }) ∷ []);
  };
  status = record { phase = accepted; realm = "r" };
})

memory_holds : At HoldsUserObject memory 0 6 (some 0) said
memory_holds = (
  (record {
    type_meta = "RhpamUser";
    object_meta = "demo";
    spec = record { roles = some 1; users = some 3 };
    status = record { phase = accepted; realm = "r" };
  }),
  omega arith,
  omega arith,
  refl,
  (
    refl,
    refl,
    (
      (
        some 2 ∷ none ∷ [],
        omega arith,
        omega arith,
        refl,
        ((record { name = "clerk" }, omega arith, omega arith, refl, refl), (tt, tt)),
      ),
      (
        some 4 ∷ [],
        omega arith,
        omega arith,
        refl,
        (
          (
            record { username = "ann"; password = "pw"; roles = some 5 },
            omega arith,
            omega arith,
            refl,
            (refl, refl, ("clerk" ∷ [], omega arith, omega arith, refl, refl)),
          ),
          tt,
        ),
      ),
    ),
    refl,
  ),
)

user_object_deep_copy_lem_example :
    Succeeds (user_object_deep_copy (some 0)) memory (IsCopied (At HoldsUserObject) memory said)
user_object_deep_copy_lem_example =
    user_object_deep_copy_lem (λ m. refl) memory (some 0) said memory_holds

abbrev put : ℕ → Cell → Heap → Heap
put a c h = record h { cell = λ b. if same_nat a b then some c else h.cell b }

-- The copy takes the addresses from 6 to 11.
abbrev copied : Heap
copied =
    put 6
      (user_object (record {
        type_meta = "RhpamUser";
        object_meta = "demo";
        spec = record { roles = some 7; users = some 9 };
        status = record { phase = accepted; realm = "r" };
      }))
      (put 9 (pointers (some 10 ∷ [])) (
        put 10 (user (record { username = "ann"; password = "pw"; roles = some 11 })) (
          put 11 (texts ("clerk" ∷ [])) (
            put 7 (pointers (some 8 ∷ none ∷ []))
              (put 8 (role (record { name = "clerk" })) (record memory { next = 12 }))))))

user_object_deep_copy_run : user_object_deep_copy (some 0) memory ≡ some (some 6, copied)
unfolding user_object_deep_copy new load store ◌>>=◌
user_object_deep_copy_run = refl

abbrev dev_struct : DevStruct
dev_struct = record {
  type_meta = "RhpamDev";
  object_meta = "demo";
  spec = (dev_in accepted).spec;
  status = (dev_in accepted).status;
}

abbrev dev_value : DevValue
dev_value = record {
  type_meta = "RhpamDev";
  metadata = "demo";
  spec = (dev_in accepted).spec;
  status = (dev_in accepted).status;
}

abbrev dev_cells : ℕ → Option Cell
dev_cells a =
    if same_nat a 0
    then some (dev dev_struct)
    else if same_nat a 1
    then some (list_object (record { type_meta = "L"; list_meta = ""; items = some 2 }))
    else if same_nat a 2
    then some (devs (dev_struct ∷ []))
    else none

abbrev dev_memory : Heap
dev_memory = record { next = 3; cell = dev_cells }

-- A pointer to an object, one to a list with one object, and nil.
deep_copies_lem_example :
    Succeeds
      (dev_deep_copy (some 0))
      dev_memory
      (IsCopied (At HoldsDev) dev_memory (some dev_value))
    × Succeeds (dev_list_deep_copy (some 1)) dev_memory (
        IsCopied
          (At (HoldsList HoldsDev))
          dev_memory
          (some (record { type_meta = "L"; list_meta = ""; items = some (dev_value ∷ []) })))
    × Succeeds
        (user_list_deep_copy none)
        dev_memory
        (IsCopied (At (HoldsList HoldsUserObject)) dev_memory none)
deep_copies_lem_example =
    deep_copies_lem (λ m. refl) dev_memory (some 0) (some 1) none (some dev_value)
      (some (record { type_meta = "L"; list_meta = ""; items = some (dev_value ∷ []) })) none
      (dev_struct, omega arith, omega arith, refl, (refl, refl, refl, refl))
      (
        record { type_meta = "L"; list_meta = ""; items = some 2 },
        omega arith,
        omega arith,
        refl,
        (
          refl,
          refl,
          (dev_struct ∷ [], omega arith, omega arith, refl, ((refl, refl, refl, refl), tt)),
        ),
      )
      tt
