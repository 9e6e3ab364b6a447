-- ===== src/DeepCopy/Independence.antt =====
-- A deep copy says the same as the original, and shares no memory with it.
use rhpam_dev_operator.Base.{
  ℕ, suc, ◌≤◌, ◌≡◌, refl, ◌∙◌, none, some, [], ◌∷◌, arith, same_nat, if◌then◌else◌, ◌≢◌,
}
use rhpam_dev_operator.DeepCopy.Memory.{Library, Heap, InCell, M, pure, new, load, store, ◌>>=◌}
use rhpam_dev_operator.DeepCopy.Cells.{
  role_in_cell, user_in_cell, texts_in_cell, pointers_in_cell, devs_in_cell, user_objects_in_cell,
  user_object_in_cell,
}
use rhpam_dev_operator.DeepCopy.{deep_copy, copy_each}
use rhpam_dev_operator.DeepCopy.Holds.{Holding, Itself, At, Each, Agree, IsStable, Each-IsStable}

module _ ⦃lib : Library⦄ where
  -- `m` ends without a fault.
  pub record Succeeds {A : Type 0} (m : M A) (h : Heap) (Q : A → Heap → Type 0) : Type 0 where
    pub value : A
    pub heap : Heap
    pub ends : m h ≡ some (value, heap)
    pub holds : Q value heap

  pub Succeeds-pure :
      {A : Type 0} {Q : A → Heap → Type 0} {h : Heap} (a : A) → Q a h → Succeeds (pure a) h Q
  Succeeds-pure {h = h} a q = record { value = a; heap = h; ends = refl; holds = q }

  pub Succeeds-bind :
      {A B : Type 0} {Q : B → Heap → Type 0} {h : Heap} (R : A → Heap → Type 0) (m : M A)
      (f : A → M B)
      → Succeeds m h R
      → ((a : A) (h' : Heap) → R a h' → Succeeds (f a) h' Q)
      → Succeeds (m >>= f) h Q
  unfolding ◌>>=◌
  Succeeds-bind R m f s k =
      let rest = k s.value s.heap s.holds in
      record {
        value = rest.value;
        heap = rest.heap;
        ends = rw (s.ends, ◌>>=◌) rest.ends;
        holds = rest.holds;
      }

  -- The copy says what the original says, lies in new memory, and leaves old memory alone.
  abbrev pub IsCopied : {T V : Type 0} → Holding T V → Heap → V → T → Heap → Type 0
  IsCopied R h v y h' = R h' h.next h'.next y v × (h.next ≤ h'.next) × Agree 0 h.next h h'

  abbrev pub Copies : {T V : Type 0} → Holding T V → (T → M T) → Type 0
  Copies {T} {V} R into =
      (h : Heap) (x : T) (v : V) → R h 0 h.next x v → Succeeds (into x) h (IsCopied R h v)

  pub Itself-Copies : {T : Type 0} → Copies {T = T} Itself pure
  Itself-Copies h x v r = Succeeds-pure x (r, omega arith, λ a l u. refl)

  -- The memories after `new` and after `store`.
  abbrev reserved : Heap → Heap
  reserved h = record h { next = suc h.next }

  module _ {T : Type 0} ⦃t : InCell T⦄ where
    abbrev stored : Heap → ℕ → T → Heap
    stored h a x = record h { cell = λ b. if same_nat a b then some (t.pack x) else h.cell b }

    stored_here : (h : Heap) (a : ℕ) (x : T) → (stored h a x).cell a ≡ some (t.pack x)
    stored_here h a x = ground arith

    stored_other : (h : Heap) (a b : ℕ) (x : T) → a ≢ b → (stored h a x).cell b ≡ h.cell b
    stored_other h a b x ne = ground arith

    deep_copy_runs :
        (into : T → M T) (h : Heap) (a : ℕ) (x y : T) (h' : Heap)
        → h.cell a ≡ some (t.pack x)
        → into x (reserved h) ≡ some (y, h')
        → deep_copy into (some a) h ≡ some (some h.next, stored h' h.next y)
    unfolding deep_copy new load store ◌>>=◌
    deep_copy_runs into h a x y h' at e = rw (at, t.unpack-pack x, e)

  module _ {T V : Type 0} (R : Holding T V) (stable : IsStable R) (into : T → M T)
      (copies : Copies R into) where
    pub Each-Copies : Copies (Each R) (copy_each into)
    unfolding copy_each
    Each-Copies h [] [] r = Succeeds-pure [] (tt, omega arith, λ a l u. refl)
    Each-Copies h (x ∷ xs) (v ∷ vs) (r, rs) =
        Succeeds-bind _ _ _ (copies h x v r) λ y h1 (ry, grows1, same1).
          Succeeds-bind _ _ _
            (Each-Copies h1 xs vs
              (Each-IsStable R stable h h1 0 h.next 0 h1.next xs vs (omega arith) grows1 same1 rs))
            λ ys h2 (rys, grows2, same2). Succeeds-pure (y ∷ ys) (
              (
                stable h1 h2 h.next h1.next h.next h2.next y v (omega arith) grows2
                    (λ a l u. same2 a (omega arith) u) ry,
                Each-IsStable R stable h2 h2 h1.next h2.next h.next h2.next ys vs grows1
                    (omega arith) (λ a l u. refl) rys,
              ),
              omega arith,
              λ a l u. same2 a l (omega arith) ∙ same1 a l u,
            )
    Each-Copies h [] (v ∷ vs) r = elim r [ ]
    Each-Copies h (x ∷ xs) [] r = elim r [ ]

    pub At-Copies : ⦃t : InCell T⦄ → Copies (At R) (deep_copy into)
    unfolding deep_copy
    At-Copies h none none r = Succeeds-pure none (tt, omega arith, λ a l u. refl)
    At-Copies ⦃t⦄ h (some a) (some v) (x, above, below, at, r) =
        let h1 : Heap = reserved h in
        let c =
          copies h1 x v
            (stable h h1 0 h.next 0 h1.next x v (omega arith) (omega arith) (λ b l u. refl) r) in
        let (ry, grows, same) = c.holds in
        let q = h.next in
        let h3 : Heap = stored c.heap q c.value in
        record {
          value = some q;
          heap = h3;
          ends = deep_copy_runs into h a x c.value c.heap at c.ends;
          holds = (
            (
              c.value,
              omega arith,
              omega arith,
              stored_here c.heap q c.value,
              stable c.heap h3 h1.next c.heap.next q h3.next c.value v (omega arith) (omega arith)
                  (λ b l u. stored_other c.heap q b c.value (omega arith)) ry,
            ),
            omega arith,
            λ b l u. stored_other c.heap q b c.value (omega arith) ∙ same b l (omega arith),
          );
        }
    At-Copies h none (some v) r = elim r [ ]
    At-Copies h (some a) none r = elim r [ ]
