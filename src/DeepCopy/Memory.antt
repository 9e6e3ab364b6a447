-- ===== src/DeepCopy/Memory.antt =====
-- Memory, as the generated deep copies of pkg/apis/rhpam/v1alpha1 read and write it: structs and
-- arrays in cells, and pointers between them. A slice is the pointer to its array.
use rhpam_dev_operator.Base.{ℕ, suc, String, ◌≡◌, Option, none, some, List, if◌then◌else◌, same_nat}
use rhpam_dev_operator.Api.{
  RhpamDatabaseConfig, RhpamBusinessCentralConfig, RhpamKieServerConfig, RhpamConfig, RhpamDevSpec,
  RhpamDevStatus, RhpamUserStatus, Role,
}

-- k8s.io/apimachinery: the metadata of objects and lists, what an `ObjectMeta` says, and what its
-- `DeepCopyInto` writes.
pub record Library : Type 1 where
  pub TypeMeta : Type 0
  pub ListMeta : Type 0
  pub ObjectMeta : Type 0
  pub Content : Type 0
  pub content : ObjectMeta → Content
  pub deep_copy_into : ObjectMeta → ObjectMeta

abbrev pub Ptr : Type 0
Ptr = Option ℕ

-- The Go structs `User` and `RhpamUserSpec`.
pub record UserStruct : Type 0 where
  pub username : String
  pub password : String
  pub roles : Ptr

pub record UserSpecStruct : Type 0 where
  pub roles : Ptr
  pub users : Ptr

module _ ⦃lib : Library⦄ where
  pub record DevStruct : Type 0 where
    pub type_meta : lib.TypeMeta
    pub object_meta : lib.ObjectMeta
    pub spec : RhpamDevSpec
    pub status : RhpamDevStatus

  pub record UserObjectStruct : Type 0 where
    pub type_meta : lib.TypeMeta
    pub object_meta : lib.ObjectMeta
    pub spec : UserSpecStruct
    pub status : RhpamUserStatus

  pub record ListStruct : Type 0 where
    pub type_meta : lib.TypeMeta
    pub list_meta : lib.ListMeta
    pub items : Ptr

  pub data Cell : Type 0 where
    database_config : RhpamDatabaseConfig → Cell
    business_central_config : RhpamBusinessCentralConfig → Cell
    kie_server_config : RhpamKieServerConfig → Cell
    config : RhpamConfig → Cell
    dev_spec : RhpamDevSpec → Cell
    dev_status : RhpamDevStatus → Cell
    dev : DevStruct → Cell
    list_object : ListStruct → Cell
    user_object : UserObjectStruct → Cell
    user_spec : UserSpecStruct → Cell
    user_status : RhpamUserStatus → Cell
    role : Role → Cell
    user : UserStruct → Cell
    texts : List String → Cell
    pointers : List Ptr → Cell
    devs : List DevStruct → Cell
    user_objects : List UserObjectStruct → Cell

  -- The addresses from `next` on are free.
  pub record Heap : Type 0 where
    pub next : ℕ
    pub cell : ℕ → Option Cell

  -- `none` is a fault: a pointer that leads to no cell, or to one of another type.
  abbrev pub M : Type 0 → Type 0
  M A = Heap → Option (A × Heap)

  abbrev pub pure : {A : Type 0} → A → M A
  pure a h = some (a, h)

  abbrev pub then_with : {A B : Type 0} → Option (A × Heap) → (A → M B) → Option (B × Heap)
  then_with none f = none
  then_with (some (a, h)) f = f a h

  infixl 5 ◌>>=◌ ◌>>◌
  unfoldable pub ◌>>=◌ : {A B : Type 0} → M A → (A → M B) → M B
  ◌>>=◌ m f h = then_with (m h) f

  abbrev pub ◌>>◌ : {A B : Type 0} → M A → M B → M B
  m >> k = m >>= λ _. k

  -- A type whose values stand in cells.
  pub record InCell (T : Type 0) : Type 0 where
    pub pack : T → Cell
    pub unpack : Cell → Option T
    pub unpack-pack : (x : T) → unpack (pack x) ≡ some x

  -- `new(T)`: the zero value is not modelled, since nothing reads it before `store`.
  unfoldable pub new : M ℕ
  new h = some (h.next, record h { next = suc h.next })

  abbrev pub found : {T : Type 0} → Option T → M T
  found none h = none
  found (some x) h = some (x, h)

  abbrev pub unpacked : {T : Type 0} → (Cell → Option T) → Option Cell → Option T
  unpacked unpack none = none
  unpacked unpack (some c) = unpack c

  unfoldable pub load : {T : Type 0} ⦃t : InCell T⦄ → ℕ → M T
  load ⦃t⦄ a h = found (unpacked t.unpack (h.cell a)) h

  unfoldable pub store : {T : Type 0} ⦃t : InCell T⦄ → ℕ → T → M (Unit {0})
  store ⦃t⦄ a x h =
      some (tt, record h { cell = λ b. if same_nat a b then some (t.pack x) else h.cell b })
