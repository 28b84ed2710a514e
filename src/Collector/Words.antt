-- ===== src/Collector/Words.antt =====
-- internal/server/server.go: the texts that the hooks' events are summed up with. A text is its runes, and
-- len counts the bytes of their UTF-8.
use ccdash.Prelude.{
  ℕ, ◌+◌, ◌-◌, Bool, false, ◌&&◌, ◌||◌, not, List, [], ◌∷◌, ◌++◌, Option, none, some, Text, codes,
  text_eq, is_empty, trim_space, ltb, leb, ◌==◌, if◌then◌else◌, has_prefix,
}

-- utf8.RuneLen
abbrev pub rune_len : ℕ → ℕ
rune_len c = if ltb c 0x80 then 1 else if ltb c 0x800 then 2 else if ltb c 0x1_0000 then 3 else 4

unfoldable pub byte_length : Text → ℕ
byte_length [] = 0
byte_length (c ∷ s) = rune_len c + byte_length s

-- The longest beginning of whole runes that has at most `n` bytes.
unfoldable pub cut_bytes : ℕ → Text → Text
cut_bytes n [] = []
cut_bytes n (c ∷ s) =
    let rest = cut_bytes (n - rune_len c) s in if leb (rune_len c) n then c ∷ rest else []

unfoldable pub truncate : Text → ℕ → Text
unfolding byte_length cut_bytes
truncate s n = if leb (byte_length s) n then s else cut_bytes n s ++ codes "..."

-- strings.HasSuffix on a text that ends in one rune
unfoldable pub ends_in : ℕ → Text → Bool
ends_in c [] = false
ends_in c (d ∷ []) = d == c
ends_in c (d ∷ e ∷ s) = ends_in c (e ∷ s)

-- The value of a header; a placeholder that was not filled in is none.
unfoldable pub header_val : Text → Text
unfolding ends_in
header_val value =
    let v = trim_space value in
    if is_empty v then [] else if has_prefix v (codes "${") && ends_in b'}' v then [] else v

-- A tool's input as far as it is read: its fields that are strings, or none where it is empty or does not
-- decode to an object.
abbrev pub Input : Type 0
Input = Option (List (Text × Text))

unfoldable pub field_of : List (Text × Text) → Text → Text
field_of [] k = []
field_of ((name, v) ∷ m) k = if text_eq name k then v else field_of m k

-- The first of the keys whose field is a string that is not empty.
unfoldable pub pick : List (Text × Text) → List Text → Text
unfolding field_of
pick m [] = []
pick m (k ∷ ks) = if not (is_empty (field_of m k)) then field_of m k else pick m ks

abbrev is_one_of : Text → List Text → Bool
is_one_of t [] = false
is_one_of t (k ∷ ks) = text_eq t k || is_one_of t ks

abbrev or_else : Text → Text → Text
or_else fallback [] = fallback
or_else fallback (c ∷ s) = c ∷ s

unfoldable pub summary_of : Text → List (Text × Text) → Text
unfolding pick truncate
summary_of tool m =
    if text_eq tool (codes "Bash")
    then truncate (pick m (codes "command" ∷ [])) 200
    else if is_one_of tool (codes "Edit" ∷ codes "Write" ∷ codes "Read" ∷ [])
    then pick m (codes "file_path" ∷ [])
    else if is_one_of tool (codes "Glob" ∷ codes "Grep" ∷ [])
    then pick m (codes "pattern" ∷ codes "query" ∷ [])
    else if is_one_of tool (codes "WebFetch" ∷ codes "WebSearch" ∷ [])
    then pick m (codes "url" ∷ codes "query" ∷ [])
    else or_else tool (
        truncate
          (pick m (
            codes "file_path"
            ∷ codes "command"
            ∷ codes "url"
            ∷ codes "query"
            ∷ codes "pattern"
            ∷ []))
          200)

unfoldable pub summarize_tool_input : Text → Input → Text
unfolding summary_of
summarize_tool_input tool none = tool
summarize_tool_input tool (some m) = summary_of tool m

-- What stands before the first space or tab, or none where there is neither.
unfoldable pub first_word : Text → Option Text
first_word [] = none
first_word (c ∷ s) =
    let rest = first_word s in
    if (c == 32) || (c == 9) then some [] else elim rest [ none ↦ none | some w ↦ some (c ∷ w) ]

-- The rule for a command; an empty word, of which there is none after the trim, is not taken.
unfoldable pub bash_rule : Text → Text
unfolding first_word
bash_rule cmd = elim (first_word cmd) [
  | none ↦ codes "Bash(" ++ (cmd ++ codes ")")
  | some [] ↦ codes "Bash(" ++ (cmd ++ codes ")")
  | some (c ∷ w) ↦ codes "Bash(" ++ ((c ∷ w) ++ codes " *)")
]

-- ruleFor: the permission that "for the rest of the session" asks for.
unfoldable pub rule_for : Text → Input → Text
unfolding bash_rule field_of
rule_for tool none = if text_eq tool (codes "Bash") then codes "Bash" else tool
rule_for tool (some m) =
    if text_eq tool (codes "Bash")
    then (let cmd = trim_space (field_of m (codes "command")) in
        if is_empty cmd then codes "Bash" else bash_rule cmd)
    else tool
