-- ===== src/Dev/Token.antt =====
-- `generateToken` of pkg/controller/rhpamdev/phaseHandler.go.
pub mod Letters
use Prim.Native.Char.{Char}
use Prim.Native.String.{String}
use rhpam_dev_operator.Base.{ℕ, zero, suc, List, [], ◌∷◌, ◌++◌, length}
use rhpam_dev_operator.Env.{Env}
use rhpam_dev_operator.Effect.{Action, pure, step, ◌>>=◌}

unfoldable pub runes : String → List Char
runes String.[] = []
runes (String.◌∷◌ c s) = c ∷ runes s

unfoldable pub text_of : List Char → String
text_of [] = String.[]
text_of (c ∷ cs) = String.◌∷◌ c (text_of cs)

unfoldable pub letter_runes : List Char
unfolding runes
letter_runes = runes "abcdefghijklmnopqrstuvwxyzABCDEFGHIJKLMNOPQRSTUVWXYZ0123456789"

-- `letterRunes[i]`: the last case is an index out of range, which `rand.Intn` does not give.
unfoldable pub letter_at : List Char → ℕ → List Char
letter_at (c ∷ cs) zero = c ∷ []
letter_at (c ∷ cs) (suc i) = letter_at cs i
letter_at [] i = []

module _ ⦃env : Env⦄ where
  -- The letters from the i-th draw on, `n` of them, after `rand.Seed(seed)`.
  unfoldable pub draw : ℕ → ℕ → ℕ → List Char
  unfolding letter_at letter_runes
  draw seed i zero = []
  draw seed i (suc n) =
      letter_at letter_runes (env.intn seed i (length letter_runes)) ++ draw seed (suc i) n

  -- Reads the clock for the seed, in whole seconds.
  unfoldable pub generate_token : ℕ → Action String
  unfolding draw text_of
  generate_token n = do seed ← step env.unix_time; pure (text_of (draw seed 0 n))
