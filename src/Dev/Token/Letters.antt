-- ===== src/Dev/Token/Letters.antt =====
-- What `generateToken` draws.
use Prim.Native.Char.{Char}
use mathlib.Core.List.{Memᴰ}
use mathlib.Core.List.Memᴰ.{head, tail}
use rhpam_dev_operator.Base.{
  All, All-append, All-mono, ℕ, zero, suc, ◌≤◌, ◌<◌, ◌≡◌, refl, ap, ◌∙◌, List, [], ◌∷◌, ◌++◌,
  length, take, arith,
}
use rhpam_dev_operator.Env.{Env, ok}
use rhpam_dev_operator.Effect.{◌>>=◌}
use rhpam_dev_operator.Dev.Token.{generate_token, text_of, letter_at, letter_runes, draw}

length-letter_at : (cs : List Char) (i : ℕ) → i < length cs → length (letter_at cs i) ≡ 1
unfolding letter_at
length-letter_at [] i h = absurd (omega arith)
length-letter_at (c ∷ cs) zero h = refl
length-letter_at (c ∷ cs) (suc i) h = length-letter_at cs i (omega arith)

-- A letter of the alphabet.
abbrev pub IsLetter : Char → Type 0
IsLetter c = Memᴰ c letter_runes

letter_at-Mem : (cs : List Char) (i : ℕ) → All (λ c. Memᴰ c cs) (letter_at cs i)
unfolding letter_at
letter_at-Mem [] i = tt
letter_at-Mem (c ∷ cs) zero = (head refl, tt)
letter_at-Mem (c ∷ cs) (suc i) = All-mono (letter_at cs i) (λ x m. tail m) (letter_at-Mem cs i)

one_letter :
    {A : Type 0} (cs ds : List A)
    → length cs ≡ 1
    → (n : ℕ) → take (suc n) (cs ++ ds) ≡ cs ++ take n ds
one_letter [] ds h n = absurd (omega arith)
one_letter (c ∷ []) ds h n = refl
one_letter (c ∷ d ∷ cs) ds h n = absurd (omega arith)

length-one {ℓ} : {A : Type ℓ} (cs ds : List A) → length cs ≡ 1 → length (cs ++ ds) ≡ suc (length ds)
length-one [] ds h = absurd (omega arith)
length-one (c ∷ []) ds h = refl
length-one (c ∷ d ∷ cs) ds h = absurd (omega arith)

module _ ⦃env : Env⦄ (below : (seed i bound : ℕ) → 0 < bound → env.intn seed i bound < bound) where
  letters_exist : 0 < length letter_runes
  unfolding letter_runes
  letters_exist = omega arith

  -- One draw gives one letter.
  abbrev drawn : ℕ → ℕ → List Char
  drawn seed i = letter_at letter_runes (env.intn seed i (length letter_runes))

  length-drawn : (seed i : ℕ) → length (drawn seed i) ≡ 1
  length-drawn seed i =
      length-letter_at letter_runes _ (below seed i (length letter_runes) letters_exist)

  length-draw : (seed i n : ℕ) → length (draw seed i n) ≡ n
  unfolding draw
  length-draw seed i zero = refl
  length-draw seed i (suc n) =
      length-one (drawn seed i) _ (length-drawn seed i) ∙ ap suc (length-draw seed (suc i) n)

  take-draw : (seed i : ℕ) (n m : ℕ) → n ≤ m → take n (draw seed i m) ≡ draw seed i n
  unfolding draw
  take-draw seed i zero m h = refl
  take-draw seed i (suc n) zero h = absurd (omega arith)
  take-draw seed i (suc n) (suc m) h =
      one_letter (drawn seed i) _ (length-drawn seed i) n
      ∙ ap (λ cs. drawn seed i ++ cs) (take-draw seed (suc i) n m (omega arith))

  draw-All : (seed i n : ℕ) → All IsLetter (draw seed i n)
  unfolding draw
  draw-All seed i zero = tt
  draw-All seed i (suc n) =
      All-append IsLetter (drawn seed i) _
        (letter_at-Mem letter_runes (env.intn seed i (length letter_runes)))
        (draw-All seed (suc i) n)

  -- Where the random numbers stay below their bound, `generateToken` gives as many letters as were
  -- asked for, all of them from the alphabet; and if it is called twice while the clock shows the
  -- same second, for `n` letters and for `m ≥ n`, the longer token begins with the shorter one.
  pub generate_token_lem :
      (s s' : env.State) (n m : ℕ)
      → n ≤ m
      → (env.unix_time s).0 ≡ (env.unix_time s').0
      → (short : List Char) × (long : List Char) × ((generate_token n s).result
          ≡ ok (text_of short))
        × ((generate_token m s').result ≡ ok (text_of long))
        × (length short ≡ n)
        × (length long ≡ m)
        × All IsLetter long
        × (take n long ≡ short)
  unfolding generate_token ◌>>=◌
  generate_token_lem s s' n m h same =
      let seed = (env.unix_time s).0 in
      (
        draw seed 0 n,
        draw seed 0 m,
        refl,
        rw same refl,
        length-draw seed 0 n,
        length-draw seed 0 m,
        draw-All seed 0 m,
        take-draw seed 0 n m h,
      )
