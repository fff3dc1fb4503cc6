-- ===== src/Session/Stmt/Fill.antt =====
-- src/conn/routines/helpers.rs: the data of the parameters, by their positions of 16 bits.
use mathlib.Core.List.{append-nil}
use mysql_async.Session.Protocol.{Value, value_bytes, other_value}
use mysql_async.Prelude.{
  ℕ, zero, suc, ◌+◌, ◌%◌, ◌^◌, ◌≤◌, ◌<◌, ◌≡◌, refl, sym, ap, ◌∙◌, inl, inr, false, ◌==◌, ==_iff,
  Bool-cases, ◌≢◌, List, [], ◌∷◌, ◌++◌, arith, if◌then◌else◌, length,
}

-- The bytes of a parameter, and of that at a position.
abbrev pub bytes_of : Value → List ℕ
bytes_of (value_bytes bs) = bs
bytes_of (other_value v) = []

abbrev pub bytes_at : ℕ → List Value → List ℕ
bytes_at j [] = []
bytes_at zero (v ∷ vs) = bytes_of v
bytes_at (suc j) (v ∷ vs) = bytes_at j vs

-- The data, with more of it for the parameter `k`.
abbrev pub add : ℕ → List ℕ → (ℕ → List ℕ) → ℕ → List ℕ
add k bs fed j = fed j ++ (if k == j then bs else [])

-- The data with that of the values, from the position `i`.
abbrev pub fill : ℕ → List Value → (ℕ → List ℕ) → ℕ → List ℕ
fill i [] fed = fed
fill i (v ∷ vs) fed = fill (suc i) vs (add (i % 2 ^ 16) (bytes_of v) fed)

==_ne : (a b : ℕ) → a ≢ b → (a == b) ≡ false
==_ne a b ne = elim (Bool-cases (a == b)) [ inl e ↦ absurd (ne ((==_iff a b).0 e)) | inr e ↦ e ]

-- A position that was passed is filled no more.
fill_before :
    (i j : ℕ) (vs : List Value) (fed : ℕ → List ℕ)
    → i + length vs ≤ 65536
    → j < i
    → fill i vs fed j ≡ fed j
fill_before i j [] fed fits lt = refl
fill_before i j (v ∷ vs) fed fits lt =
    fill_before (suc i) j vs _ (omega (arith, fits)) (omega (arith, lt))
    ∙ (ap (λ b. fed j ++ (if b then bytes_of v else [])) (==_ne (i % 65536) j other)
        ∙ append-nil (fed j))
  where
    other : i % 65536 ≢ j
    other e = absurd (omega (arith, e, lt, fits))

fill_at :
    (i k : ℕ) (vs : List Value) (fed : ℕ → List ℕ)
    → i + length vs ≤ 65536
    → k < length vs
    → fill i vs fed (i + k) ≡ fed (i + k) ++ bytes_at k vs
fill_at i k [] fed fits lt = absurd (omega (arith, lt))
fill_at i zero (v ∷ vs) fed fits lt =
    fill_before (suc i) (i + 0) vs _ (omega (arith, fits)) (omega arith)
    ∙ ap (λ b. fed (i + 0) ++ (if b then bytes_of v else []))
        ((==_iff (i % 65536) (i + 0)).1 (omega (arith, fits)))
fill_at i (suc k) (v ∷ vs) fed fits lt =
    let e : i + suc k ≡ suc i + k = omega arith in
    ap (fill (suc i) vs _) e
    ∙ (fill_at (suc i) k vs _ (omega (arith, fits)) (omega (arith, lt))
        ∙ (ap (λ j. add (i % 65536) (bytes_of v) fed j ++ bytes_at k vs) (sym e)
            ∙ ap (λ xs. xs ++ bytes_at k vs)
                (ap (λ b. fed (i + suc k) ++ (if b then bytes_of v else []))
                    (==_ne (i % 65536) (i + suc k) other)
                  ∙ append-nil (fed (i + suc k)))))
  where
    other : i % 65536 ≢ i + suc k
    other h = absurd (omega (arith, h, fits))

pub fill_first :
    (k : ℕ) (vs : List Value)
    → length vs ≤ 65536
    → k < length vs
    → fill 0 vs (λ _. []) k ≡ bytes_at k vs
fill_first k vs fits lt =
    ap (fill 0 vs (λ _. [])) e ∙ fill_at 0 k vs (λ _. []) (omega (arith, fits)) lt
  where
    e : k ≡ 0 + k
    e = omega arith
