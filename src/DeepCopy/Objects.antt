-- ===== src/DeepCopy/Objects.antt =====
-- The deep copies of users, specs and objects.
use rhpam_dev_operator.Base.{◌≡◌, refl, ◌∙◌, String, Option, List, arith}
use rhpam_dev_operator.Api.{Role}
use rhpam_dev_operator.DeepCopy.Memory.{Library, Ptr, Heap, pure}
use rhpam_dev_operator.DeepCopy.Cells.{
  role_in_cell, user_in_cell, texts_in_cell, pointers_in_cell, devs_in_cell, dev_in_cell,
  list_object_in_cell, user_objects_in_cell, user_object_in_cell,
}
use rhpam_dev_operator.DeepCopy.{
  deep_copy, copy_each, role_into, user_into, user_spec_into, user_object_into, dev_into,
  user_object_deep_copy, dev_deep_copy, dev_list_into, dev_list_deep_copy, user_list_into,
  user_list_deep_copy,
}
use rhpam_dev_operator.DeepCopy.Holds.{
  Itself, At, HoldsUser, HoldsRoles, HoldsUsers, HoldsUserSpec, HoldsDev, HoldsUserObject,
  UserObjectValue, DevValue, At-IsStable, Each-IsStable, Itself-IsStable, HoldsUser-IsStable,
  HoldsRoles-IsStable, HoldsUsers-IsStable, HoldsUserObject-IsStable, HoldsDev-IsStable, HoldsList,
  ListValue, HoldsList-IsStable,
}
use rhpam_dev_operator.DeepCopy.Independence.{
  Succeeds, Succeeds-pure, Succeeds-bind, IsCopied, Copies, Itself-Copies, Each-Copies, At-Copies,
}

module _ ⦃lib : Library⦄ where
  user_into-Copies : Copies HoldsUser user_into
  unfolding user_into
  user_into-Copies h x v (name, password, roles) =
      Succeeds-bind _ _ _
        (At-Copies {T = List String} Itself Itself-IsStable pure Itself-Copies h x.roles v.roles
          roles)
        λ ptr h' (copied, grows, same). Succeeds-pure _ ((name, password, copied), grows, same)

  role_into-Copies : Copies {T = Role} Itself role_into
  unfolding role_into
  role_into-Copies = Itself-Copies

  roles-Copies : Copies HoldsRoles (deep_copy (copy_each (deep_copy role_into)))
  roles-Copies = At-Copies _ (Each-IsStable _ (At-IsStable Itself Itself-IsStable)) _ (
      Each-Copies _ (At-IsStable Itself Itself-IsStable) _
        (At-Copies Itself Itself-IsStable _ role_into-Copies))

  users-Copies : Copies HoldsUsers (deep_copy (copy_each (deep_copy user_into)))
  users-Copies = At-Copies _ (Each-IsStable _ (At-IsStable HoldsUser HoldsUser-IsStable)) _ (
      Each-Copies _ (At-IsStable HoldsUser HoldsUser-IsStable) _
        (At-Copies HoldsUser HoldsUser-IsStable _ user_into-Copies))

  user_spec_into-Copies : Copies HoldsUserSpec user_spec_into
  unfolding user_spec_into
  user_spec_into-Copies h x v (roles, users) =
      Succeeds-bind _ _ _ (roles-Copies h x.roles v.roles roles) λ rs h1 (copied1, grows1, same1).
        Succeeds-bind _ _ _
          (users-Copies h1 x.users v.users (
            HoldsUsers-IsStable h h1 0 h.next 0 h1.next x.users v.users (omega arith) grows1 same1
              users))
          λ us h2 (copied2, grows2, same2).
            Succeeds-pure (record { roles = rs; users = us })
              (
                (
                  HoldsRoles-IsStable h1 h2 h.next h1.next h.next h2.next rs v.roles (omega arith)
                      grows2 (λ a l u. same2 a (omega arith) u) copied1,
                  HoldsUsers-IsStable h2 h2 h1.next h2.next h.next h2.next us v.users grows1
                      (omega arith) (λ a l u. refl) copied2,
                ),
                omega arith,
                λ a l u. same2 a l (omega arith) ∙ same1 a l u,
              )

  module _
      (content_kept : (m : lib.ObjectMeta)
        → lib.content (lib.deep_copy_into m) ≡ lib.content m) where
    user_object_into-Copies : Copies HoldsUserObject user_object_into
    unfolding user_object_into
    user_object_into-Copies h x v (t, m, spec, status) =
        Succeeds-bind _ _ _ (user_spec_into-Copies h x.spec v.spec spec)
          λ y h1 (copied, grows, same).
            Succeeds-pure _ ((t, content_kept x.object_meta ∙ m, copied, status), grows, same)

    -- Where the library copies what the metadata says: for a pointer to a RhpamUser object, or nil,
    -- `DeepCopy` ends without a fault. The copy says the same as the original, nil slices and nil
    -- pointers included, all its cells are new, and no cell that was there is changed.
    pub user_object_deep_copy_lem :
        (h : Heap) (p : Ptr) (v : Option UserObjectValue)
        → At HoldsUserObject h 0 h.next p v
        → Succeeds (user_object_deep_copy p) h (IsCopied (At HoldsUserObject) h v)
    unfolding user_object_deep_copy
    user_object_deep_copy_lem =
        At-Copies HoldsUserObject HoldsUserObject-IsStable user_object_into user_object_into-Copies

    dev_into-Copies : Copies HoldsDev dev_into
    unfolding dev_into
    dev_into-Copies h x v (t, m, spec, status) =
        Succeeds-pure _
          ((t, content_kept x.object_meta ∙ m, spec, status), omega arith, λ a l u. refl)

    dev_list_into-Copies : Copies (HoldsList HoldsDev) dev_list_into
    unfolding dev_list_into
    dev_list_into-Copies h x v (t, m, items) =
        Succeeds-bind _ _ _
          (At-Copies _ (Each-IsStable HoldsDev HoldsDev-IsStable) _
            (Each-Copies HoldsDev HoldsDev-IsStable dev_into dev_into-Copies) h x.items v.items
            items)
          λ ptr h' (copied, grows, same). Succeeds-pure _ ((t, m, copied), grows, same)

    user_list_into-Copies : Copies (HoldsList HoldsUserObject) user_list_into
    unfolding user_list_into
    user_list_into-Copies h x v (t, m, items) =
        Succeeds-bind _ _ _
          (At-Copies _ (Each-IsStable HoldsUserObject HoldsUserObject-IsStable) _
            (Each-Copies HoldsUserObject HoldsUserObject-IsStable user_object_into
              user_object_into-Copies)
            h x.items v.items items)
          λ ptr h' (copied, grows, same). Succeeds-pure _ ((t, m, copied), grows, same)

    -- The same for pointers to a RhpamDev object, to a list of RhpamDev objects and to a list of
    -- RhpamUser objects.
    pub deep_copies_lem :
        (h : Heap) (d ds us : Ptr) (dev : Option DevValue) (devs : Option (ListValue DevValue))
        (users : Option (ListValue UserObjectValue))
        → At HoldsDev h 0 h.next d dev
        → At (HoldsList HoldsDev) h 0 h.next ds devs
        → At (HoldsList HoldsUserObject) h 0 h.next us users
        → Succeeds (dev_deep_copy d) h (IsCopied (At HoldsDev) h dev)
          × Succeeds (dev_list_deep_copy ds) h (IsCopied (At (HoldsList HoldsDev)) h devs)
          × Succeeds (user_list_deep_copy us) h (IsCopied (At (HoldsList HoldsUserObject)) h users)
    unfolding dev_deep_copy dev_list_deep_copy user_list_deep_copy
    deep_copies_lem h d ds us dev devs users hd hds hus = (
      At-Copies HoldsDev HoldsDev-IsStable dev_into dev_into-Copies h d dev hd,
      At-Copies _ (HoldsList-IsStable HoldsDev HoldsDev-IsStable) dev_list_into dev_list_into-Copies
          h ds devs hds,
      At-Copies _ (HoldsList-IsStable HoldsUserObject HoldsUserObject-IsStable) user_list_into
          user_list_into-Copies h us users hus,
    )
