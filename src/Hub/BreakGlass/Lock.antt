-- ===== src/Hub/BreakGlass/Lock.antt =====
-- The lock of the break-glass door.
use ccdash.Prelude.{
  ℕ, ◌+◌, ◌-◌, ◌≤◌, ◌<◌, ◌≡◌, refl, ◌⊎◌, inl, inr, List, [], ◌∷◌, ◌++◌, Text, text_eq, text_eq_refl,
  length, length-append, length-select-le, leb, ltb, All, arith, Bool-cases,
}
use ccdash.Hub.BreakGlass.{
  break_glass_max, break_glass_win, recent, break_glass_check, attempts, opened, locked,
  wrong_password,
}

recent_within :
    (start now : ℕ) (fails : List ℕ)
    → All (λ t. start ≤ t) fails
    → now < start + break_glass_win
    → recent now fails ≡ fails
unfolding recent
recent_within start now [] h k = refl
recent_within start now (t ∷ fails) h k = ground (arith, recent_within start now fails h.1)

All-recent :
    (start now : ℕ) (fails : List ℕ)
    → All (λ t. start ≤ t) fails
    → All (λ t. start ≤ t) (recent now fails)
unfolding recent
All-recent start now [] h = tt
All-recent start now (t ∷ fails) h = ground (arith, All-recent start now fails h.1)

All-snoc :
    (start now : ℕ) (fails : List ℕ)
    → All (λ t. start ≤ t) fails
    → start ≤ now
    → All (λ t. start ≤ t) (fails ++ now ∷ [])
All-snoc start now [] h k = (k, tt)
All-snoc start now (t ∷ fails) h k = (h.0, All-snoc start now fails h.1 k)

module _ (digest : Text → Text) (secret : Text) where
  -- After five failures that have not aged out even the right password is refused, and the refusal is
  -- no further failure.
  pub check_locked :
      (fails : List ℕ) (password : Text) (now : ℕ)
      → break_glass_max ≤ length (recent now fails)
      → break_glass_check digest secret fails password now ≡ (recent now fails, locked)
  unfolding break_glass_check
  check_locked fails password now h = ground arith

  -- Below that the right password opens, and clears nothing.
  pub check_opens :
      (fails : List ℕ) (now : ℕ)
      → length (recent now fails) < break_glass_max
      → break_glass_check digest secret fails secret now ≡ (recent now fails, opened)
  unfolding break_glass_check
  check_opens fails now h = ground (arith, text_eq_refl (digest secret))

  -- The list of failures never has more than five.
  pub length-check :
      (fails : List ℕ) (password : Text) (now : ℕ)
      → length fails ≤ break_glass_max
      → length (break_glass_check digest secret fails password now).0 ≤ break_glass_max
  unfolding break_glass_check recent
  length-check fails password now h = ground (
    arith,
    length-select-le (λ t. ltb (now - t) break_glass_win) fails,
    length-append (recent now fails) (now ∷ []),
  )

  -- All attempts of a list lie in one window that begins at `start`.
  abbrev pub Within : ℕ → List (Text × ℕ) → Type 0
  Within start = All (λ a. (start ≤ a.1) × (a.1 < start + break_glass_win))

  -- Within the window an attempt keeps every failure, and may add one below the limit.
  check_cases :
      (start : ℕ) (fails : List ℕ) (password : Text) (now : ℕ)
      → All (λ t. start ≤ t) fails
      → now < start + break_glass_win
      → (break_glass_check digest secret fails password now ≡ (fails, locked))
        ⊎ ((break_glass_check digest secret fails password now ≡ (fails, opened))
            ⊎ ((length fails < break_glass_max)
                × (break_glass_check digest secret fails password now
                    ≡ (fails ++ now ∷ [], wrong_password))))
  unfolding break_glass_check
  check_cases start fails password now h k =
      rw (recent_within start now fails h k)
        (elim (Bool-cases (leb break_glass_max (length fails))) [
          | inl full ↦ inl (rw full)
          | inr room ↦ elim (Bool-cases (text_eq (digest password) (digest secret))) [
            | inl same ↦ inr (inl (rw (room, same)))
            | inr other ↦ inr (inr (ground arith, rw (room, other)))
          ]
        ])

  attempts_bound :
      (start : ℕ) (fails : List ℕ) (tries : List (Text × ℕ))
      → All (λ t. start ≤ t) fails
      → Within start tries
      → length fails ≤ break_glass_max
      → (attempts digest secret fails tries).1 + length fails ≤ break_glass_max
  unfolding attempts
  attempts_bound start fails [] h w l = omega arith
  attempts_bound start fails ((password, now) ∷ tries) h w l =
      elim (check_cases start fails password now h w.0.1) [
        | inl e ↦ rw (e, attempts) (attempts_bound start fails tries h w.1 l)
        | inr (inl e) ↦ rw (e, attempts) (attempts_bound start fails tries h w.1 l)
        | inr (inr (room, e)) ↦
            rw (e, attempts)
              (omega (
                arith,
                attempts_bound start (fails ++ now ∷ []) tries (All-snoc start now fails h w.0.0)
                    w.1 (omega (arith, length-append fails (now ∷ []))),
                length-append fails (now ∷ []),
              ))
      ]

  -- Of attempts that all lie in one window of ten minutes, from a door without failures, at most
  -- five have their password looked at and found wrong, whatever the digest is.
  pub attempts-le-max :
      (start : ℕ) (tries : List (Text × ℕ))
      → Within start tries
      → (attempts digest secret [] tries).1 ≤ break_glass_max
  attempts-le-max start tries w = omega (arith, attempts_bound start [] tries tt w (omega arith))
