-- ===== src/User/Sync/Visits.antt =====
-- The loop over a map of role pairs in `reconcileRoles` and `reconcileUserRealmRoles`, in any order
-- in which Go visits the map.
use rhpam_dev_operator.Base.{
  String, ◌≡◌, refl, sym, ◌∙◌, ap, ◌==◌, Bool, true, false, some, List, [], ◌∷◌, contains, lookup,
  Unique, is_key, arith, eq_iff, eq_refl, if◌then◌else◌,
}
use rhpam_dev_operator.Env.{Env}
use rhpam_dev_operator.Effect.{Action, for_each}
use rhpam_dev_operator.Effect.Achieves.{
  Achieves, Achieves-pure, Achieves-bind, Achieves-step, Achieves-mono,
}
use rhpam_dev_operator.Keycloak.Types.{KeycloakRolePair}
use rhpam_dev_operator.User.Pairs.{RolePairs, role_pairs}
use rhpam_dev_operator.User.Pairs.Lookup.{pair_of, lookup-role_pairs, Unique-role_pairs}
use rhpam_dev_operator.User.Sync.{each_role_pair}

-- A map is visited once at each key, in any order, and the names stay as they are.
abbrev pub VisitsOnce : ⦃env : Env⦄ → (env.State → String → Bool) → Type 0
VisitsOnce ⦃env⦄ has =
    (pairs : RolePairs) (s : env.State)
    → Unique pairs
    → let (visited, s') = env.range_role_pairs pairs s in
      Unique visited
      × ((x : String) → lookup x visited ≡ lookup x pairs)
      × ((x : String) → has s' x ≡ has s x)

other_key :
    (m : RolePairs) (r x : String) {q : KeycloakRolePair}
    → is_key m r ≡ false
    → lookup x m ≡ some q
    → (x == r) ≡ false
other_key m r x new l = ground (arith, eq_iff x r)

-- A set of names in the outside state, and what a step for a pair makes of its name: `target` says
-- whether the name is there then, by whether it was.
module _ ⦃env : Env⦄ (has : env.State → String → Bool) (plain : String → Bool) (spec : List String)
    (target : String → Bool → Bool) (visit : KeycloakRolePair → Action (Unit {0})) where
  abbrev Becomes : (String → Bool) → env.State → Type 0
  Becomes names s' = (x : String) → has s' x ≡ names x

  abbrev pub Steps : Type 0
  Steps =
      (s : env.State) (r : String) (pair : KeycloakRolePair)
      → plain r ≡ true
      → pair_of r (has s r) (contains spec r) ≡ some pair
      → Achieves (visit pair) s (λ _. Becomes (λ x. if x == r then target r (has s r) else has s x))

  -- The pair of each key in the map, while the names are those that the pairs were made from.
  abbrev Paired : (String → Bool) → RolePairs → env.State → Type 0
  Paired had m s =
      (x : String) (p : KeycloakRolePair)
      → lookup x m ≡ some p
      → (plain x ≡ true) × (has s x ≡ had x) × (pair_of x (had x) (contains spec x) ≡ some p)

  module _ (steps : Steps) where
    each_pair_lem :
        (had : String → Bool) (visited : RolePairs) (s : env.State)
        → Unique visited
        → Paired had visited s
        → Achieves
            (for_each (λ (_, pair). visit pair) visited)
            s
            (λ _. Becomes (λ x. if is_key visited x then target x (had x) else has s x))
    unfolding for_each
    each_pair_lem had [] s u paired = Achieves-pure tt λ x. refl
    each_pair_lem had ((r, pair) ∷ visited) s (new, u) paired =
        let (p, hs, e) = paired r pair (rw (eq_refl r)) in
        Achieves-bind (λ _. Becomes (λ x. if x == r then target r (has s r) else has s x)) _ _
          (steps s r pair p (rw hs e))
          λ done s1 b.
            Achieves-mono
              (λ _. Becomes (λ x. if is_key visited x then target x (had x) else has s1 x)) _
              (each_pair_lem had visited s1 u λ x q l.
                let other = other_key visited r x new l in
                let (px, hx, ex) = paired x q (rw other l) in (px, b x ∙ rw other hx, ex))
              λ done s2 k x. k x ∙ ground (arith, eq_iff x r, b x, hs)

    -- The loop over the pairs of the names that are there and the names of the spec.
    pub each_role_pair_lem :
        (names : List String) (s : env.State)
        → VisitsOnce has
        → ((x : String) → contains names x ≡ has s x)
        → ((x : String) → has s x ≡ true → plain x ≡ true)
        → ((x : String) → contains spec x ≡ true → plain x ≡ true)
        → ((x : String) → contains spec x ≡ false → target x false ≡ false)
        → Achieves
            (each_role_pair visit (role_pairs names spec))
            s
            (λ _. Becomes (λ x. target x (has s x)))
    unfolding each_role_pair
    each_role_pair_lem names s order listed plain_had plain_spec idle =
        let pairs = role_pairs names spec in
        let (unique, same, kept) = order pairs s (Unique-role_pairs names spec) in
        Achieves-bind
          (λ visited s1. visited ≡ (env.range_role_pairs pairs s).0 × Becomes (has s) s1) _ _
          (Achieves-step _ (refl, kept))
          λ visited s1 (v, k).
            let at : (x : String) → lookup x visited ≡ pair_of x (has s x) (contains spec x) =
              λ x. ap (lookup x) v ∙ same x ∙ lookup-role_pairs x names spec ∙ rw (listed x) refl in
            Achieves-mono _ _
              (each_pair_lem (has s) visited s1 (rw v unique) λ x q l.
                let e : pair_of x (has s x) (contains spec x) ≡ some q = sym (at x) ∙ l in
                (ground (arith, plain_had x, plain_spec x), k x, e))
              λ done s2 b x. b x ∙ ground (arith, at x, k x, idle x)
