-- ===== src/Tests/Start.antt =====
-- A start whose sixth call, that for the scheme, fails, after a failing election.
use rhpam_dev_operator.Base.{
  ℕ, suc, Bool, true, false, ◌≡◌, refl, not, ◌||◌, ◌&&◌, [], ◌∷◌, same_nat,
}
use rhpam_dev_operator.Start.{
  Step, Platform, parse_flags, get_config, become_leader, set_ready, unset_ready, new_manager,
  add_to_scheme, main,
}
use rhpam_dev_operator.Start.Order.{always_leader, IsOther, passes_set, main-follow, main_lem}

-- How many calls there were, and whether the ready file is there.
abbrev file_after : Step → Bool → Bool → Bool
file_after set_ready good there = good
file_after unset_ready good there = false
file_after _ good there = there

abbrev unlucky : Platform
unlucky = record {
  State = ℕ × Bool;
  perform = λ step (n, there).
      let good = not (same_nat n 2 || same_nat n 5) in (good, (suc n, file_after step good there));
}

main-follow_example : main ⦃p = unlucky⦄ (0, false) ≡ record {
  code = 1;
  state = (6, true);
  steps =
      parse_flags ∷ get_config ∷ become_leader ∷ set_ready ∷ new_manager "" ∷ add_to_scheme ∷ [];
}
main-follow_example = main-follow ⦃p = unlucky⦄ (0, false)

touches_not : (step : Step) (s : ℕ × Bool) → IsOther step → (unlucky.perform step s).1.1 ≡ s.1
touches_not set_ready s o = elim o [ ]
touches_not unset_ready s o = elim o [ ]
touches_not _ s o = refl

main_lem_example :
    (main ⦃p = unlucky⦄ (0, false) ≡ main ⦃p = always_leader unlucky⦄ (0, false))
    × ((main ⦃p = unlucky⦄ (0, false)).state.1 ≡ (
        passes_set (main ⦃p = unlucky⦄ (0, false)).steps
        && not (same_nat (main ⦃p = unlucky⦄ (0, false)).code 0)))
main_lem_example = main_lem unlucky (λ s. s.1) (λ s f. refl) (λ s. refl) touches_not (0, false) refl
