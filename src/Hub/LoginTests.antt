-- ===== src/Hub/LoginTests.antt =====
-- A log-out of the others, with a cookie that is the claims' numbers and its address.
use ccdash.Prelude.{
  ℕ, ◌≡◌, refl, subst, ◌≤◌, inl, inr, Bool-cases, ok-injective, if◌then◌else◌, false, ◌∷◌, [],
  Option, some, none, Text, codes, ◌==◌, Result, ok, arith,
}
use ccdash.Hub.State.{Fault}
use ccdash.Hub.Login.{
  SessionClaims, LoginConfig, NotBefore, Codec, session, not_before, logout_others, cut_off,
  fresh_cookie, new_session, session_ttl, safe_next, is_rooted, is_unsafe,
}
use ccdash.Hub.Login.Others.{logout_others-session}
use ccdash.Hub.Login.Origin.{safe_next-IsLocal, IsLocal, browser_reads, without_breaks}

abbrev opened : Text → Option SessionClaims
opened (n ∷ exp ∷ iat ∷ email) =
    some (record { email = email; exp = exp; iat = iat; break_glass = n == 1 })
opened _ = none

abbrev signed : SessionClaims → Text
signed sc =
    if sc.break_glass then 1 ∷ sc.exp ∷ sc.iat ∷ sc.email else 0 ∷ sc.exp ∷ sc.iat ∷ sc.email

abbrev first_code : Text → ℕ
first_code [] = 0
first_code (n ∷ s) = n

abbrev codec : Codec
codec = record {
  sign = signed;
  open_cookie = opened;
  format_int = λ n. n ∷ [];
  parse_int = first_code;
}

abbrev cfg : LoginConfig
cfg = record {
  session_ttl = 600;
  allowed_emails = codes "a@b.c" ∷ [];
  no_auth = false;
  tailscale_serve = false;
  break_glass_enabled = false;
}

abbrev phone : SessionClaims
phone = record { email = codes "a@b.c"; exp = 2000; iat = 900; break_glass = false }

abbrev desk : SessionClaims
desk = record { email = codes "a@b.c"; exp = 2000; iat = 950; break_glass = false }

abbrev start : NotBefore
start = record { value = 0; read_at = 0 }

abbrev cut : NotBefore
cut = record { value = 1000; read_at = 1000 }

abbrev desk_again : Text
desk_again = 0 ∷ 1600 ∷ 1000 ∷ codes "a@b.c"

done :
    logout_others codec cfg start (ok (0 ∷ [])) none (some (signed desk)) 1000
    ≡ (cut, some (desk_again, 1000 ∷ []))
unfolding logout_others session not_before cut_off fresh_cookie new_session session_ttl
done = refl

opens : (sc : SessionClaims) → opened (signed sc) ≡ some sc
opens sc = elim (Bool-cases sc.break_glass) [
  | inl glass ↦ rw glass refl
  | inr plain ↦ rw plain refl
]

later_cut : (v : Text) → Path (Result Fault Text) (ok (1000 ∷ [])) (ok v) → 1000 ≤ first_code v
later_cut v h = subst (λ x. 1000 ≤ first_code x) (ok-injective h) (omega arith)

logout_others-session_example :
    (session codec cfg cut (ok (1000 ∷ [])) (some (signed phone)) 1030).1 ≡ none
logout_others-session_example =
    logout_others-session codec cfg start cut (ok (0 ∷ [])) (ok (1000 ∷ [])) none
      (some (signed desk)) desk_again (1000 ∷ []) (signed phone) 1000 1030 phone done later_cut refl
      (omega arith)

-- A backslash would be read as a slash.
abbrev found : Text → Option (Text × Text)
found t = some ([], [])

backslash : safe_next found (codes "/\\evil") ≡ codes "/"
unfolding safe_next is_rooted is_unsafe
backslash = refl

kept : safe_next found (codes "/#/d/1") ≡ codes "/#/d/1"
unfolding safe_next is_rooted is_unsafe
kept = refl

safe_next-IsLocal_example : IsLocal (safe_next found (codes "//evil"))
safe_next-IsLocal_example = safe_next-IsLocal found (codes "//evil")

-- What the guards are for: a browser takes this for the host evil.
read_as_host : browser_reads (codes "/\t\\evil") ≡ codes "//evil"
unfolding browser_reads without_breaks
read_as_host = refl
