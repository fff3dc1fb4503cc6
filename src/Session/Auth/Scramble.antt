-- ===== src/Session/Auth/Scramble.antt =====
-- src/conn/mod.rs: the password, scrambled with the nonce.
use mysql_async.Session.Auth.{element, xor, cons_xor, scramble_from, scramble}
use mathlib.Core.Option.{some-injective}
use native.Mathlib.Nat.{mod-lt}
use mysql_async.Prelude.{
  ℕ, zero, suc, ◌+◌, ◌*◌, ◌/◌, ◌%◌, ◌^◌, ◌<◌, ◌≡◌, refl, ap, ◌∙◌, ◌≢◌, inl, inr, Option, none, some,
  List, [], ◌∷◌, arith, Option-cases, length, All, subst,
}

halves : (c r : ℕ) → c < 2 → ((c + 2 * r) % 2 ≡ c) × ((c + 2 * r) / 2 ≡ r)
halves c r h = (omega (arith, h), omega (arith, h))

-- What is left of a number after its last bit.
pub xor-xor : (bits a n : ℕ) → a < 2 ^ bits → xor bits (xor bits a n) n ≡ a
unfolding xor
xor-xor zero a n h = omega (arith, h)
xor-xor (suc bits) a n h =
    let r = xor bits (a / 2) (n / 2) in
    let p = halves ((a % 2 + n % 2) % 2) r (omega arith) in
    let rest = xor-xor bits (a / 2) (n / 2) (omega (arith, h)) in
    go ((a % 2 + n % 2) % 2 + 2 * r) p.0 p.1 rest
  where
    go :
        (x : ℕ)
        → x % 2 ≡ (a % 2 + n % 2) % 2
        → x / 2 ≡ xor bits (a / 2) (n / 2)
        → xor bits (xor bits (a / 2) (n / 2)) (n / 2) ≡ a / 2
        → (x % 2 + n % 2) % 2 + 2 * xor bits (x / 2) (n / 2) ≡ a
    go x e f g = omega (arith, e, ap (λ y. xor bits y (n / 2)) f ∙ g)

-- Where one side is known, the result gives the other.
pub xor-cancel : (bits a n : ℕ) → n < 2 ^ bits → xor bits a (xor bits a n) ≡ n
unfolding xor
xor-cancel zero a n h = omega (arith, h)
xor-cancel (suc bits) a n h =
    let r = xor bits (a / 2) (n / 2) in
    let p = halves ((a % 2 + n % 2) % 2) r (omega arith) in
    go ((a % 2 + n % 2) % 2 + 2 * r) p.0 p.1 (xor-cancel bits (a / 2) (n / 2) (omega (arith, h)))
  where
    go :
        (x : ℕ)
        → x % 2 ≡ (a % 2 + n % 2) % 2
        → x / 2 ≡ xor bits (a / 2) (n / 2)
        → xor bits (a / 2) (xor bits (a / 2) (n / 2)) ≡ n / 2
        → (a % 2 + x % 2) % 2 + 2 * xor bits (a / 2) (x / 2) ≡ n
    go x e f g = omega (arith, e, ap (xor bits (a / 2)) f ∙ g)

-- A byte.
abbrev pub IsByte : ℕ → Type 0
IsByte b = b < 256

module _ (nonce : List ℕ) where
  scramble_from-twice :
      (pass scrambled : List ℕ) (i : ℕ)
      → All IsByte pass
      → scramble_from i pass nonce ≡ some scrambled
      → scramble_from i scrambled nonce ≡ some pass
  unfolding scramble_from cons_xor
  scramble_from-twice [] [] i h e = refl
  scramble_from-twice [] (x ∷ xs) i h e = cc
  scramble_from-twice (b ∷ pass) scrambled i h e =
      go (element (i % length nonce) nonce) refl (scramble_from (suc i) pass nonce) refl e
        (λ more em. scramble_from-twice pass more (suc i) h.1 em)
    where
      go :
          (n : Option ℕ)
          → element (i % length nonce) nonce ≡ n
          → (more : Option (List ℕ)) → scramble_from (suc i) pass nonce ≡ more
          → cons_xor b n more ≡ some scrambled
          → ((m : List ℕ)
              → scramble_from (suc i) pass nonce ≡ some m
              → scramble_from (suc i) m nonce ≡ some pass)
          → scramble_from i scrambled nonce ≡ some (b ∷ pass)
      go (some n) en (some more) em f rest =
          subst (λ out. scramble_from i out nonce ≡ some (b ∷ pass))
            (some-injective (xor 8 b n ∷ more) scrambled f)
            (ap (λ o. cons_xor (xor 8 b n) o (scramble_from (suc i) more nonce)) en
              ∙ (ap (cons_xor (xor 8 b n) (some n)) (rest more em)
                  ∙ ap (λ x. some (x ∷ pass)) (xor-xor 8 b n h.0)))
      go (some n) en none em f rest = cc
      go none en more em f rest = cc

  -- Each byte of the scrambled password differs from that of the password by the byte of the
  -- nonce, which starts over at its end.
  abbrev pub IsPad : ℕ → List ℕ → List ℕ → Type 0
  IsPad i [] [] = Unit {0}
  IsPad i (b ∷ pass) (x ∷ scrambled) =
      ((n : ℕ) × (element (i % length nonce) nonce ≡ some n) × (xor 8 b x ≡ n))
      × IsPad (suc i) pass scrambled
  IsPad i _ _ = ⊥

  element-IsByte : (i : ℕ) (xs : List ℕ) (n : ℕ) → All IsByte xs → element i xs ≡ some n → IsByte n
  unfolding element
  element-IsByte i [] n h e = cc
  element-IsByte zero (x ∷ xs) n h e = ground (arith, h.0, e)
  element-IsByte (suc i) (x ∷ xs) n h e = element-IsByte i xs n h.1 e

  scramble_from-IsPad :
      (pass scrambled : List ℕ) (i : ℕ)
      → All IsByte nonce
      → scramble_from i pass nonce ≡ some scrambled
      → IsPad i pass scrambled
  unfolding scramble_from cons_xor
  scramble_from-IsPad [] [] i h e = tt
  scramble_from-IsPad [] (x ∷ xs) i h e = cc
  scramble_from-IsPad (b ∷ pass) scrambled i h e =
      go (element (i % length nonce) nonce) refl (scramble_from (suc i) pass nonce) e
        (λ more em. scramble_from-IsPad pass more (suc i) h em) refl
    where
      go :
          (n : Option ℕ)
          → element (i % length nonce) nonce ≡ n
          → (more : Option (List ℕ)) → cons_xor b n more ≡ some scrambled
          → ((m : List ℕ) → scramble_from (suc i) pass nonce ≡ some m → IsPad (suc i) pass m)
          → scramble_from (suc i) pass nonce ≡ more
          → IsPad i (b ∷ pass) scrambled
      go (some n) en (some more) f rest em =
          subst (IsPad i (b ∷ pass)) (some-injective (xor 8 b n ∷ more) scrambled f) (
            (n, en, xor-cancel 8 b n (element-IsByte (i % length nonce) nonce n h en)),
            rest more em,
          )
      go (some n) en none f rest em = cc
      go none en more f rest em = cc

  element-IsSome : (i : ℕ) (xs : List ℕ) → i < length xs → element i xs ≢ none
  unfolding element
  element-IsSome i [] h = absurd (omega (arith, h))
  element-IsSome zero (x ∷ xs) h = λ e. cc
  element-IsSome (suc i) (x ∷ xs) h = element-IsSome i xs (omega (arith, h))

  cons_xor_ne :
      (b : ℕ) (n : Option ℕ) (more : Option (List ℕ))
      → n ≢ none
      → more ≢ none
      → cons_xor b n more ≢ none
  unfolding cons_xor
  cons_xor_ne b (some n) (some more) hn hm = λ e. cc
  cons_xor_ne b none more hn hm = absurd (hn refl)
  cons_xor_ne b (some n) none hn hm = absurd (hm refl)

  scramble_from_ne : (pass : List ℕ) (i : ℕ) → 0 < length nonce → scramble_from i pass nonce ≢ none
  unfolding scramble_from
  scramble_from_ne [] i h = λ e. cc
  scramble_from_ne (b ∷ pass) i h =
      cons_xor_ne b _ _ (element-IsSome (i % length nonce) nonce (mod-lt i h))
        (scramble_from_ne pass (suc i) h)

  -- A password of bytes is scrambled with any nonce of bytes that is not empty, without an index
  -- out of range. Byte by byte, the password and the result differ by the byte of the nonce, which
  -- starts over at its end, and a second scramble with the same nonce gives the password back.
  pub scramble-IsPad :
      (pass : List ℕ)
      → All IsByte pass
      → All IsByte nonce
      → 0 < length nonce
      → (scrambled : List ℕ) × (scramble pass nonce ≡ some scrambled)
        × (scramble scrambled nonce ≡ some pass)
        × IsPad 0 pass scrambled
  unfolding scramble
  scramble-IsPad pass h nonce_h some_nonce = elim (Option-cases (scramble_from 0 pass nonce)) [
    | inl missing ↦ absurd (scramble_from_ne pass 0 some_nonce missing)
    | inr (scrambled, e) ↦ (
      scrambled,
      e,
      scramble_from-twice pass scrambled 0 h e,
      scramble_from-IsPad pass scrambled 0 nonce_h e,
    )
  ]
