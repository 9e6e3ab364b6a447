-- ===== src/DeepCopy/Holds.antt =====
-- What a value in memory stands for, and in which addresses.
use rhpam_dev_operator.Base.{
  ℕ, ◌≤◌, ◌<◌, ◌≡◌, ◌∙◌, String, Option, none, some, List, [], ◌∷◌, arith,
}
use rhpam_dev_operator.Api.{RhpamDevSpec, RhpamDevStatus, RhpamUserStatus, Role}
use rhpam_dev_operator.DeepCopy.Memory.{
  Library, Ptr, UserStruct, UserSpecStruct, DevStruct, UserObjectStruct, ListStruct, Heap, InCell,
}
use rhpam_dev_operator.DeepCopy.Cells.{
  role_in_cell, user_in_cell, texts_in_cell, pointers_in_cell, devs_in_cell, user_objects_in_cell,
}

-- What a user, a spec and the objects say. A nil slice is another value than an empty one, and a
-- list may hold nil pointers.
pub record UserValue : Type 0 where
  pub username : String
  pub password : String
  pub roles : Option (List String)

pub record UserSpecValue : Type 0 where
  pub roles : Option (List (Option Role))
  pub users : Option (List (Option UserValue))

module _ ⦃lib : Library⦄ where
  pub record DevValue : Type 0 where
    pub type_meta : lib.TypeMeta
    pub metadata : lib.Content
    pub spec : RhpamDevSpec
    pub status : RhpamDevStatus

  pub record UserObjectValue : Type 0 where
    pub type_meta : lib.TypeMeta
    pub metadata : lib.Content
    pub spec : UserSpecValue
    pub status : RhpamUserStatus

  pub record ListValue (V : Type 0) : Type 0 where
    pub type_meta : lib.TypeMeta
    pub list_meta : lib.ListMeta
    pub items : Option (List V)

  -- In `h`, `x` stands for `v`, and every cell that it leads to has an address from `lo` up to `hi`.
  abbrev pub Holding : Type 0 → Type 0 → Type 1
  Holding T V = Heap → ℕ → ℕ → T → V → Type 0

  -- A value with no pointers stands for itself.
  abbrev pub Itself : {T : Type 0} → Holding T T
  Itself h lo hi x v = x ≡ v

  abbrev pub At : {T V : Type 0} ⦃t : InCell T⦄ → Holding T V → Holding Ptr (Option V)
  At R h lo hi none none = Unit
  At {T} ⦃t⦄ R h lo hi (some a) (some v) =
      (x : T) × (lo ≤ a) × (a < hi) × (h.cell a ≡ some (t.pack x)) × R h lo hi x v
  At R h lo hi _ _ = ⊥

  abbrev pub Each : {T V : Type 0} → Holding T V → Holding (List T) (List V)
  Each R h lo hi [] [] = Unit
  Each R h lo hi (x ∷ xs) (v ∷ vs) = R h lo hi x v × Each R h lo hi xs vs
  Each R h lo hi _ _ = ⊥

  abbrev pub HoldsUser : Holding UserStruct UserValue
  HoldsUser h lo hi x v =
      (x.username ≡ v.username)
      × (x.password ≡ v.password)
      × At {T = List String} Itself h lo hi x.roles v.roles

  abbrev pub HoldsRoles : Holding Ptr (Option (List (Option Role)))
  HoldsRoles = At (Each (At {T = Role} Itself))

  abbrev pub HoldsUsers : Holding Ptr (Option (List (Option UserValue)))
  HoldsUsers = At (Each (At HoldsUser))

  abbrev pub HoldsUserSpec : Holding UserSpecStruct UserSpecValue
  HoldsUserSpec h lo hi x v =
      HoldsRoles h lo hi x.roles v.roles × HoldsUsers h lo hi x.users v.users

  abbrev pub HoldsDev : Holding DevStruct DevValue
  HoldsDev h lo hi x v =
      (x.type_meta ≡ v.type_meta)
      × (lib.content x.object_meta ≡ v.metadata)
      × (x.spec ≡ v.spec)
      × (x.status ≡ v.status)

  abbrev pub HoldsUserObject : Holding UserObjectStruct UserObjectValue
  HoldsUserObject h lo hi x v =
      (x.type_meta ≡ v.type_meta)
      × (lib.content x.object_meta ≡ v.metadata)
      × HoldsUserSpec h lo hi x.spec v.spec
      × (x.status ≡ v.status)

  -- The objects of a list stand in its array.
  abbrev pub HoldsList :
      {T V : Type 0} ⦃t : InCell (List T)⦄ → Holding T V → Holding ListStruct (ListValue V)
  HoldsList R h lo hi x v =
      (x.type_meta ≡ v.type_meta)
      × (x.list_meta ≡ v.list_meta)
      × At (Each R) h lo hi x.items v.items

  -- Two memories are the same between two addresses.
  abbrev pub Agree : ℕ → ℕ → Heap → Heap → Type 0
  Agree lo hi h h' = (a : ℕ) → lo ≤ a → a < hi → h'.cell a ≡ h.cell a

  -- A value is not touched by writes at other addresses, and may be seen in a wider range.
  abbrev pub IsStable : {T V : Type 0} → Holding T V → Type 0
  IsStable {T} {V} R =
      (h h' : Heap) (lo hi lo' hi' : ℕ) (x : T) (v : V)
      → lo' ≤ lo
      → hi ≤ hi'
      → Agree lo hi h h'
      → R h lo hi x v
      → R h' lo' hi' x v

  module _ {T V : Type 0} (R : Holding T V) (stable : IsStable R) where
    pub At-IsStable : ⦃t : InCell T⦄ → IsStable (At R)
    At-IsStable h h' lo hi lo' hi' none none l u agree r = tt
    At-IsStable h h' lo hi lo' hi' (some a) (some v) l u agree (x, above, below, at, r) = (
      x,
      omega arith,
      omega arith,
      agree a above below ∙ at,
      stable h h' lo hi lo' hi' x v l u agree r,
    )
    At-IsStable h h' lo hi lo' hi' none (some v) l u agree r = elim r [ ]
    At-IsStable h h' lo hi lo' hi' (some a) none l u agree r = elim r [ ]

    pub Each-IsStable : IsStable (Each R)
    Each-IsStable h h' lo hi lo' hi' [] [] l u agree r = tt
    Each-IsStable h h' lo hi lo' hi' (x ∷ xs) (v ∷ vs) l u agree (r, rs) = (
      stable h h' lo hi lo' hi' x v l u agree r,
      Each-IsStable h h' lo hi lo' hi' xs vs l u agree rs,
    )
    Each-IsStable h h' lo hi lo' hi' [] (v ∷ vs) l u agree r = elim r [ ]
    Each-IsStable h h' lo hi lo' hi' (x ∷ xs) [] l u agree r = elim r [ ]

  pub Itself-IsStable : {T : Type 0} → IsStable {T = T} Itself
  Itself-IsStable h h' lo hi lo' hi' x v l u agree r = r

  pub HoldsDev-IsStable : IsStable HoldsDev
  HoldsDev-IsStable h h' lo hi lo' hi' x v l u agree r = r

  pub HoldsUser-IsStable : IsStable HoldsUser
  HoldsUser-IsStable h h' lo hi lo' hi' x v l u agree (name, password, roles) = (
    name,
    password,
    At-IsStable Itself Itself-IsStable h h' lo hi lo' hi' x.roles v.roles l u agree roles,
  )

  pub HoldsRoles-IsStable : IsStable HoldsRoles
  HoldsRoles-IsStable = At-IsStable _ (Each-IsStable _ (At-IsStable Itself Itself-IsStable))

  pub HoldsUsers-IsStable : IsStable HoldsUsers
  HoldsUsers-IsStable = At-IsStable _ (Each-IsStable _ (At-IsStable HoldsUser HoldsUser-IsStable))

  HoldsUserSpec-IsStable : IsStable HoldsUserSpec
  HoldsUserSpec-IsStable h h' lo hi lo' hi' x v l u agree (roles, users) = (
    HoldsRoles-IsStable h h' lo hi lo' hi' x.roles v.roles l u agree roles,
    HoldsUsers-IsStable h h' lo hi lo' hi' x.users v.users l u agree users,
  )

  pub HoldsUserObject-IsStable : IsStable HoldsUserObject
  HoldsUserObject-IsStable h h' lo hi lo' hi' x v l u agree (t, m, spec, status) =
      (t, m, HoldsUserSpec-IsStable h h' lo hi lo' hi' x.spec v.spec l u agree spec, status)

  pub HoldsList-IsStable :
      {T V : Type 0} ⦃t : InCell (List T)⦄ (R : Holding T V) → IsStable R → IsStable (HoldsList R)
  HoldsList-IsStable R stable h h' lo hi lo' hi' x v l u agree (t, m, items) = (
    t,
    m,
    At-IsStable (Each R) (Each-IsStable R stable) h h' lo hi lo' hi' x.items v.items l u agree
        items,
  )
