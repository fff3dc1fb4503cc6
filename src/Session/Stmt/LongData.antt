-- ===== src/Session/Stmt/LongData.antt =====
-- src/conn/routines/helpers.rs: the chunks of `send_long_data`.
use mysql_async.Session.Stmt.{take, drop, chunks_at, chunks, long_data_chunks}
use mysql_async.Prelude.{
  ℕ, zero, suc, ◌≤◌, ◌<◌, ◌≡◌, refl, ap, ◌∙◌, ◌≢◌, List, [], ◌∷◌, ◌++◌, arith, length,
}

-- What the server makes of the chunks that it receives.
abbrev pub joined : List (List ℕ) → List ℕ
joined [] = []
joined (c ∷ cs) = c ++ joined cs

take-drop : (n : ℕ) (xs : List ℕ) → take n xs ++ drop n xs ≡ xs
unfolding take drop
take-drop zero xs = refl
take-drop (suc n) [] = refl
take-drop (suc n) (x ∷ xs) = ap (λ ys. x ∷ ys) (take-drop n xs)

length-drop : (n : ℕ) (x : ℕ) (xs : List ℕ) → 0 < n → length (drop n (x ∷ xs)) ≤ length xs
unfolding drop
length-drop zero x xs h = absurd (omega (arith, h))
length-drop (suc zero) x xs h = omega arith
length-drop (suc (suc n)) x [] h = omega arith
length-drop (suc (suc n)) x (y ∷ xs) h = omega (arith, length-drop (suc n) y xs (omega arith))

module _ (size : ℕ) (positive : 0 < size) where
  chunks_at-joined : (n : ℕ) (xs : List ℕ) → length xs ≤ n → joined (chunks_at n size xs) ≡ xs
  unfolding chunks_at
  chunks_at-joined zero [] h = refl
  chunks_at-joined zero (x ∷ xs) h = absurd (omega (arith, h))
  chunks_at-joined (suc n) [] h = refl
  chunks_at-joined (suc n) (x ∷ xs) h =
      ap (λ ys. take size (x ∷ xs) ++ ys)
        (chunks_at-joined n (drop size (x ∷ xs)) (omega (arith, h, length-drop size x xs positive)))
      ∙ take-drop size (x ∷ xs)

  chunks_at_nonempty : (n : ℕ) (x : ℕ) (xs : List ℕ) → chunks_at (suc n) size (x ∷ xs) ≢ []
  unfolding chunks_at
  chunks_at_nonempty n x xs = λ e. cc

-- The chunks that a value is sent in are the value, joined, and there is at least one, also for an
-- empty value.
pub long_data_chunks-joined :
    (bytes : List ℕ) → (joined (long_data_chunks bytes) ≡ bytes) × (long_data_chunks bytes ≢ [])
unfolding long_data_chunks chunks
long_data_chunks-joined [] = (refl, λ e. cc)
long_data_chunks-joined (x ∷ xs) = (
  chunks_at-joined 16777209 (omega arith) (suc (length xs)) (x ∷ xs) (omega arith),
  chunks_at_nonempty 16777209 (omega arith) (length xs) x xs,
)
