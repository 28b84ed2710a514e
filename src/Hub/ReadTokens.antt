-- ===== src/Hub/ReadTokens.antt =====
-- internal/hub/readtoken.go: the tokens that let a machine read, and what they may read. A path is matched
-- between its slashes, as the regular expressions of the source do.
use ccdash.Prelude.{
  ℕ, ◌+◌, ◌-◌, ◌*◌, ◌≡◌, refl, Bool, true, false, ◌&&◌, not, List, [], ◌∷◌, Option, none, some,
  arith, Text, codes, text_eq, is_empty, contains, leb, ◌==◌, if◌then◌else◌, segments, after_api,
  Method, is_get,
}
use ccdash.Calendar.{is_digit}

abbrev pub max_read_transcript_bytes : ℕ
max_read_transcript_bytes = 1048576

-- After "/api/": the board, the active sessions, the devices, a device's sessions, a transcript.
unfoldable pub read_transcript_route : List Text → Bool
read_transcript_route (d ∷ device ∷ api ∷ sessions ∷ id ∷ transcript ∷ []) =
    text_eq d (codes "d")
    && not (is_empty device)
    && text_eq api (codes "api")
    && text_eq sessions (codes "sessions")
    && not (is_empty id)
    && text_eq transcript (codes "transcript")
read_transcript_route _ = false

unfoldable pub read_token_route : List Text → Bool
read_token_route (a ∷ []) = contains (codes "board" ∷ codes "active" ∷ codes "devices" ∷ []) a
read_token_route (d ∷ device ∷ api ∷ sessions ∷ []) =
    text_eq d (codes "d")
    && not (is_empty device)
    && text_eq api (codes "api")
    && text_eq sessions (codes "sessions")
read_token_route parts = read_transcript_route parts

-- The number that digits are read as, after the digits before them.
unfoldable pub read_digits : ℕ → Text → Option ℕ
read_digits n [] = some n
read_digits n (c ∷ s) =
    let rest = read_digits (n * 10 + (c - b'0')) s in if is_digit c then rest else none

-- What strconv.ParseInt reads, where that is not negative.
unfoldable pub read_number : Text → Option ℕ
read_number [] = none
read_number (c ∷ s) =
    let unsigned = read_digits 0 (c ∷ s) in
    if c == b'+' then (if is_empty s then none else read_digits 0 s) else unsigned

unfoldable pub is_small : Text → Bool
is_small bytes = elim (read_number bytes) [
  | none ↦ false
  | some n ↦ leb 1 n && leb n max_read_transcript_bytes
]

pub data Denied : Type 0 where
  get_only not_available tail_only : Denied

-- The size that the request goes on with, by its query's `mode` and `bytes`, or why it is denied.
unfoldable pub read_token_allowed : Method → Text → Text → Text → Option Denied × Text
read_token_allowed m path mode bytes =
    let api = after_api (segments path) in
    if not (is_get m)
    then (some get_only, bytes)
    else if not (read_token_route api)
    then (some not_available, bytes)
    else if not (read_transcript_route api)
    then (none, bytes)
    else if not (contains ([] ∷ codes "tail" ∷ codes "stat" ∷ []) mode)
    then (some tail_only, bytes)
    else (none, if not (is_empty bytes) && not (is_small bytes) then codes "1048576" else bytes)

max_is_small : is_small (codes "1048576") ≡ true
unfolding is_small read_number read_digits is_digit
max_is_small = refl

-- A request of a read token that is let through is a GET of one of the listed routes, and goes on,
-- where it is for a transcript, with no size or one from 1 to 2^20.
pub read_token_allowed_bytes :
    (m : Method) (path mode bytes : Text)
    → (read_token_allowed m path mode bytes).0 ≡ none
    → (is_get m ≡ true)
      × (read_token_route (after_api (segments path)) ≡ true)
      × (read_transcript_route (after_api (segments path))
            && not (is_empty (read_token_allowed m path mode bytes).1)
            && not (is_small (read_token_allowed m path mode bytes).1)
          ≡ false)
unfolding read_token_allowed
read_token_allowed_bytes m path mode bytes h = ground (arith, max_is_small)
