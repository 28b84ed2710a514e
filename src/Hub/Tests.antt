-- ===== src/Hub/Tests.antt =====
-- Runs of the parts of internal/hub, and each theorem on them at concrete attempts.
use ccdash.Prelude.{ℕ, ◌+◌, ◌≤◌, ◌≡◌, refl, List, [], ◌∷◌, Text, codes, arith, text_eq}
use ccdash.Prelude.{none, contains, segments, onto_first, after_api, get}
use ccdash.Calendar.{is_digit}
use ccdash.Hub.ReadTokens.{
  read_transcript_route, read_token_route, read_digits, read_number, is_small, read_token_allowed,
}
use ccdash.Hub.BreakGlass.{
  break_glass_max, break_glass_win, break_glass_check, attempts, recent, locked, opened,
}
use ccdash.Hub.BreakGlass.Lock.{attempts-le-max}

abbrev same_text : Text → Text
same_text s = s

abbrev secret : Text
secret = codes "open sesame"

-- Six wrong passwords, then the right one.
abbrev tries : List (Text × ℕ)
tries =
    (codes "a", 1)
    ∷ (codes "b", 2)
    ∷ (codes "c", 3)
    ∷ (codes "d", 4)
    ∷ (codes "e", 5)
    ∷ (codes "f", 6)
    ∷ (secret, 7)
    ∷ []

five_counted : attempts same_text secret [] tries ≡ (1 ∷ 2 ∷ 3 ∷ 4 ∷ 5 ∷ [], 5)
unfolding attempts break_glass_check recent text_eq
five_counted = refl

then_locked : (break_glass_check same_text secret (1 ∷ 2 ∷ 3 ∷ 4 ∷ 5 ∷ []) secret 7).1 ≡ locked
unfolding break_glass_check recent text_eq
then_locked = refl

opens_later :
    (break_glass_check same_text secret (1 ∷ 2 ∷ 3 ∷ 4 ∷ 5 ∷ []) secret (1 + break_glass_win)).1
    ≡ opened
unfolding break_glass_check recent text_eq
opens_later = refl

attempts-le-max_example : (attempts same_text secret [] tries).1 ≤ break_glass_max
attempts-le-max_example = attempts-le-max same_text secret 1 tries (omega arith)

abbrev transcript : Text
transcript = codes "/api/d/mac/api/sessions/ab-12/transcript"

transcript_allowed :
    read_token_allowed get transcript (codes "tail") (codes "9999999") ≡ (none, codes "1048576")
unfolding read_token_allowed read_token_route read_transcript_route is_small read_number read_digits
    is_digit segments onto_first after_api text_eq contains
transcript_allowed = refl

transcript_passes : (read_token_allowed get transcript (codes "tail") (codes "9999999")).0 ≡ none
transcript_passes = rw transcript_allowed refl
