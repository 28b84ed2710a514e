-- ===== src/Hub/BreakGlass.antt =====
-- internal/hub/breakglass.go: the password login that locks after repeated failures. Times are in
-- nanoseconds of the monotonic clock, and the digest is a parameter.
pub mod Lock
use ccdash.Prelude.{
  ℕ, suc, ◌-◌, ◌*◌, Bool, true, false, ◌&&◌, not, List, [], ◌∷◌, ◌++◌, Text, text_eq, is_empty,
  length, select, leb, ltb, if◌then◌else◌,
}

abbrev pub break_glass_max : ℕ
break_glass_max = 5

abbrev pub break_glass_win : ℕ
break_glass_win = 10 * 60 * 1_000_000_000

pub record AuthConfig : Type 0 where
  pub password : Text
  pub has_local : Bool
  pub no_auth : Bool
  pub tailscale_serve : Bool

unfoldable pub break_glass_enabled : AuthConfig → Bool
break_glass_enabled c =
    not (is_empty c.password) && not c.has_local && not c.no_auth && not c.tailscale_serve

pub data Verdict : Type 0 where
  opened locked wrong_password : Verdict

-- The failures that have not aged out.
unfoldable pub recent : ℕ → List ℕ → List ℕ
recent now = select (λ t. ltb (now - t) break_glass_win)

module _ (digest : Text → Text) (secret : Text) where
  -- The failures that are kept after an attempt, and what comes of it.
  unfoldable pub break_glass_check : List ℕ → Text → ℕ → List ℕ × Verdict
  break_glass_check fails password now =
      let kept = recent now fails in
      if leb break_glass_max (length kept)
      then (kept, locked)
      else if not (text_eq (digest password) (digest secret))
      then (kept ++ now ∷ [], wrong_password)
      else (kept, opened)

  abbrev pub count_wrong : Verdict → ℕ → ℕ
  count_wrong wrong_password n = suc n
  count_wrong _ n = n

  -- The attempts in order: the failures kept, and how many passwords were tried and found wrong.
  unfoldable pub attempts : List ℕ → List (Text × ℕ) → List ℕ × ℕ
  attempts fails [] = (fails, 0)
  attempts fails ((password, now) ∷ later) =
      let (fails', v) = break_glass_check fails password now in
      let (end, n) = attempts fails' later in (end, count_wrong v n)
