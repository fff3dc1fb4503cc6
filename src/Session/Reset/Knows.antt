-- ===== src/Session/Reset/Knows.antt =====
-- src/conn/mod.rs: the servers that know the reset of a connection.
use mysql_async.Session.State.{Session}
use mysql_async.Session.Transaction.{version_ltb}
use mysql_async.Session.Reset.{supports_com_reset_connection}
use mysql_async.Prelude.{
  ℕ, ◌<◌, ◌≡◌, refl, ◌⊎◌, inl, inr, Bool, true, false, not, ◌&&◌, ◌||◌, arith, ltb, ◌==◌, ==_iff,
  ltb→lt, lt→ltb, Bool-cases, if◌then◌else◌,
}

-- The order of versions, by their parts.
abbrev pub IsOlder : ℕ × ℕ × ℕ → ℕ × ℕ × ℕ → Type 0
IsOlder v w = (v.0 < w.0) ⊎ ((v.0 ≡ w.0) × ((v.1 < w.1) ⊎ ((v.1 ≡ w.1) × (v.2 < w.2))))

-- MariaDB from 10.2.4 on, and MySQL after 5.7.2.
abbrev pub Knows : {L : Type 0} → Session L → Type 0
Knows s =
    ((s.is_mariadb ≡ true) × ¬ IsOlder s.version (10, 2, 4))
    ⊎ ((s.is_mariadb ≡ false) × IsOlder (5, 7, 2) s.version)

IsOlder-version_ltb :
    (v w : ℕ × ℕ × ℕ)
    → (version_ltb v w ≡ true → IsOlder v w) × (IsOlder v w → version_ltb v w ≡ true)
unfolding version_ltb
IsOlder-version_ltb (a, b, c) (x, y, z) = (to, from)
  where
    to :
        (ltb a x || (a == x) && (ltb b y || (b == y) && ltb c z)) ≡ true
        → IsOlder (a, b, c) (x, y, z)
    to h = elim (Bool-cases (ltb a x)) [
      | inl p ↦ inl (ltb→lt a x p)
      | inr p ↦ elim (Bool-cases (a == x)) [
        | inl q ↦ inr (
          (==_iff a x).0 q,
          elim (Bool-cases (ltb b y)) [
            | inl r ↦ inl (ltb→lt b y r)
            | inr r ↦ elim (Bool-cases (b == y)) [
              | inl t ↦ inr ((==_iff b y).0 t, ltb→lt c z (ground (arith, p, q, r, t, h)))
              | inr t ↦ absurd (ground (arith, p, q, r, t, h))
            ]
          ],
        )
        | inr q ↦ absurd (ground (arith, p, q, h))
      ]
    ]

    from :
        IsOlder (a, b, c) (x, y, z)
        → (ltb a x || (a == x) && (ltb b y || (b == y) && ltb c z)) ≡ true
    from (inl p) = ground (arith, lt→ltb a x p)
    from (inr (p, inl q)) = elim (Bool-cases (ltb a x)) [
      | inl r ↦ ground (arith, r)
      | inr r ↦ ground (arith, r, (==_iff a x).1 p, lt→ltb b y q)
    ]
    from (inr (p, inr (q, r))) = elim (Bool-cases (ltb a x)) [
      | inl t ↦ ground (arith, t)
      | inr t ↦ elim (Bool-cases (ltb b y)) [
        | inl u ↦ ground (arith, t, u, (==_iff a x).1 p)
        | inr u ↦ ground (arith, t, u, (==_iff a x).1 p, (==_iff b y).1 q, lt→ltb c z r)
      ]
    ]

module _ {L : Type 0} (s : Session L) where
  pub supports-Knows : supports_com_reset_connection s ≡ true → Knows s
  unfolding supports_com_reset_connection
  supports-Knows = go s.is_mariadb refl
    where
      go :
          (b : Bool)
          → s.is_mariadb ≡ b
          → (if b then not (version_ltb s.version (10, 2, 4)) else version_ltb (5, 7, 2) s.version)
            ≡ true
          → Knows s
      go true e h =
          inl (e, λ older. grind (arith, h, (IsOlder-version_ltb s.version (10, 2, 4)).1 older))
      go false e h = inr (e, (IsOlder-version_ltb (5, 7, 2) s.version).0 h)

  pub supports-Knows-not : supports_com_reset_connection s ≡ false → ¬ Knows s
  unfolding supports_com_reset_connection
  supports-Knows-not = go s.is_mariadb refl
    where
      go :
          (b : Bool)
          → s.is_mariadb ≡ b
          → (if b then not (version_ltb s.version (10, 2, 4)) else version_ltb (5, 7, 2) s.version)
            ≡ false
          → ¬ Knows s
      go true e h (inr (f, _)) = absurd (grind (arith, e, f))
      go true e h (inl (_, newer)) = elim (Bool-cases (version_ltb s.version (10, 2, 4))) [
        | inl p ↦ newer ((IsOlder-version_ltb s.version (10, 2, 4)).0 p)
        | inr p ↦ absurd (grind (arith, p, h))
      ]
      go false e h (inl (f, _)) = absurd (grind (arith, e, f))
      go false e h (inr (_, older)) =
          absurd (grind (arith, h, (IsOlder-version_ltb (5, 7, 2) s.version).1 older))
