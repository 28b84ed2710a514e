-- ===== src/Hub/Login/Origin.antt =====
-- internal/hub/auth.go: where a browser goes that is sent to the target after a login.
use ccdash.Prelude.{
  ◌≤◌, ◌≢◌, ◌≡◌, refl, inl, inr, true, false, ◌&&◌, ◌||◌, [], ◌∷◌, Option, Text, All, any, is_empty,
  codes, leb, ◌==◌, if◌then◌else◌, arith, Bool-cases, Option-cases,
}
use ccdash.Hub.Login.{is_rooted, is_unsafe, safe_next}

-- The URL standard on the address that a browser is sent to: it skips what is no more than a space at the
-- start, leaves out tabs, line feeds and carriage returns, and reads a backslash as a slash.
unfoldable pub without_breaks : Text → Text
without_breaks [] = []
without_breaks (c ∷ s) =
    let rest = without_breaks s in
    if (c == 9) || (c == 10) || (c == 13) then rest else (if c == 92 then 47 else c) ∷ rest

unfoldable pub browser_reads : Text → Text
unfolding without_breaks
browser_reads [] = []
browser_reads (c ∷ s) =
    let rest = browser_reads s in if leb c 0x20 then rest else without_breaks (c ∷ s)

-- A path of the same origin: a slash, and after it no second one, which would name a host.
abbrev IsPath : Text → Type 0
IsPath [] = ⊥
IsPath (c ∷ []) = c ≡ 47
IsPath (c ∷ d ∷ s) = (c ≡ 47) × (d ≢ 47)

abbrev pub IsLocal : Text → Type 0
IsLocal t = IsPath (browser_reads t) × All (λ c. 0x20 ≤ c) t

any-All : (t : Text) → any is_unsafe t ≡ false → All (λ c. 0x20 ≤ c) t
unfolding is_unsafe
any-All [] h = tt
any-All (c ∷ s) h = (ground arith, any-All s (ground arith))

rooted-IsPath : (t : Text) → is_rooted t ≡ true → any is_unsafe t ≡ false → IsPath (browser_reads t)
unfolding is_rooted is_unsafe browser_reads without_breaks
rooted-IsPath [] h k = cc
rooted-IsPath (c ∷ []) h k = let slash : c ≡ 47 = ground (arith, h) in rw slash refl
rooted-IsPath (c ∷ d ∷ s) h k =
    let slash : c ≡ 47 = ground (arith, h) in
    let tab : (d == 9) ≡ false = ground (arith, k) in
    let feed : (d == 10) ≡ false = ground (arith, k) in
    let return : (d == 13) ≡ false = ground (arith, k) in
    let back : (d == 92) ≡ false = ground (arith, k) in
    let single : d ≢ 47 = ground (arith, h) in rw (slash, tab, feed, return, back) (refl, single)

slash : IsLocal (codes "/")
unfolding browser_reads without_breaks
slash = (refl, (omega arith, tt))

-- Whatever url.Parse finds, a browser reads the target after a login as a path of the same origin,
-- one slash that no second one follows, also after it has skipped what is no more than a space at
-- the start, left out tabs and line ends, and read backslashes as slashes; and the target has no
-- character below a space.
pub safe_next-IsLocal :
    (parse : Text → Option (Text × Text)) (next : Text) → IsLocal (safe_next parse next)
unfolding safe_next
safe_next-IsLocal parse next = elim (Bool-cases (is_rooted next)) [
  | inr other ↦ rw (other, safe_next) slash
  | inl rooted ↦ elim (Bool-cases (any is_unsafe next)) [
    | inl bad ↦ rw (rooted, bad, safe_next) slash
    | inr safe ↦ elim (Option-cases (parse next)) [
      | inl broken ↦ rw (rooted, safe, broken, safe_next) slash
      | inr (u, parsed) ↦ elim (Bool-cases (is_empty u.0 && is_empty u.1)) [
        | inl local ↦
            rw (rooted, safe, parsed, local, safe_next)
              (rooted-IsPath next rooted safe, any-All next safe)
        | inr away ↦ rw (rooted, safe, parsed, away, safe_next) slash
      ]
    ]
  ]
]
