-- ===== src/Prelude/Paths.antt =====
-- The path of a request: its prefixes, and what stands between its slashes.
use mathlib.Core.Path.{◌≡◌, refl}
use mathlib.Core.Bool.{Bool, true, false, ◌&&◌}
use mathlib.Core.List.{List, [], ◌∷◌, ◌++◌}
use Prim.Native.Nat.{ℕ}
use native.Mathlib.Omega.{arith}
use ccdash.Prelude.Tests.{◌==◌, if◌then◌else◌}
use ccdash.Prelude.Texts.{Text, codes, text_eq, is_empty}

-- strings.HasPrefix(s, prefix)
unfoldable pub has_prefix : Text → Text → Bool
has_prefix s [] = true
has_prefix [] (c ∷ prefix) = false
has_prefix (d ∷ s) (c ∷ prefix) = (d == c) && has_prefix s prefix

unfoldable pub drop_length : Text → Text → Text
drop_length s [] = s
drop_length [] (c ∷ prefix) = []
drop_length (d ∷ s) (c ∷ prefix) = drop_length s prefix

pub has_prefix-append :
    (s prefix : Text) → has_prefix s prefix ≡ true → s ≡ prefix ++ drop_length s prefix
unfolding has_prefix drop_length
has_prefix-append s [] h = refl
has_prefix-append [] (c ∷ prefix) h = cc
has_prefix-append (d ∷ s) (c ∷ prefix) h = ground (arith, has_prefix-append s prefix)

unfoldable pub onto_first : ℕ → List Text → List Text
onto_first c [] = (c ∷ []) ∷ []
onto_first c (x ∷ xs) = (c ∷ x) ∷ xs

-- strings.Split(s, "/")
unfoldable pub segments : Text → List Text
segments [] = [] ∷ []
segments (c ∷ s) = if c == b'/' then [] ∷ segments s else onto_first c (segments s)

-- What follows "/api/", between its slashes; nothing where the path does not begin so.
unfoldable pub after_api : List Text → List Text
after_api (root ∷ api ∷ rest) = if is_empty root && text_eq api (codes "api") then rest else []
after_api _ = []

-- The method of a request.
pub data Method : Type 0 where
  get post delete other_method : Method

abbrev pub is_get : Method → Bool
is_get get = true
is_get _ = false

abbrev pub is_post : Method → Bool
is_post post = true
is_post _ = false

abbrev pub is_delete : Method → Bool
is_delete delete = true
is_delete _ = false
