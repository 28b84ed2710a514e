-- ===== src/Hub/Login.antt =====
-- internal/hub/auth.go and local.go: the sessions of the portal. Times are in seconds. A cookie is signed
-- and opened by parameters, as are the numbers in the store printed and read, and url.Parse.
pub mod Others
pub mod Origin
use ccdash.Prelude.{
  ℕ, ◌+◌, ◌*◌, ◌-◌, ◌≡◌, Bool, true, false, ◌&&◌, ◌||◌, not, List, [], ◌∷◌, Option, none, some,
  Text, codes, text_eq, is_empty, contains, any, map, to_lower, trim_space, ltb, leb, ◌==◌,
  if◌then◌else◌, Result, ok, err,
}
use ccdash.Hub.State.{Fault}

pub record SessionClaims : Type 0 where
  pub email : Text
  pub exp : ℕ
  -- When the login happened.
  pub iat : ℕ
  pub break_glass : Bool

pub record LoginConfig : Type 0 where
  -- 0 where it is not set.
  pub session_ttl : ℕ
  pub allowed_emails : List Text
  pub no_auth : Bool
  pub tailscale_serve : Bool
  pub break_glass_enabled : Bool

abbrev pub default_session_ttl : ℕ
default_session_ttl = 86400

abbrev pub not_before_cache : ℕ
not_before_cache = 5

abbrev pub break_glass_user : Text
break_glass_user = codes "break-glass"

-- The cached time before which a session does not count, and when it was read.
pub record NotBefore : Type 0 where
  pub value : ℕ
  pub read_at : ℕ

-- What the source takes from its packages.
pub record Codec : Type 0 where
  pub sign : SessionClaims → Text
  pub open_cookie : Text → Option SessionClaims
  pub format_int : ℕ → Text
  pub parse_int : Text → ℕ

unfoldable pub session_ttl : LoginConfig → ℕ
session_ttl cfg = if ltb 0 cfg.session_ttl then cfg.session_ttl else default_session_ttl

unfoldable pub allowed : LoginConfig → Text → Bool
allowed cfg email = not (is_empty email) && contains cfg.allowed_emails (map to_lower email)

module _ (codec : Codec) (cfg : LoginConfig) where
  -- With what the store answers for the key.
  unfoldable pub not_before : NotBefore → Result Fault Text → ℕ → NotBefore
  not_before nb stored now =
      if ltb (now - nb.read_at) not_before_cache
      then nb
      else elim stored [ err e ↦ nb | ok v ↦ record { value = codec.parse_int v; read_at = now } ]

  -- The cache afterwards, and the claims of a cookie that counts.
  unfoldable pub session :
      NotBefore → Result Fault Text → Option Text → ℕ → NotBefore × Option SessionClaims
  unfolding not_before
  session nb stored none now = (nb, none)
  session nb stored (some cookie) now = elim (codec.open_cookie cookie) [
    | none ↦ (nb, none)
    | some sc ↦
        if ltb sc.exp now
        then (nb, none)
        else (let nb' = not_before nb stored now in
            (nb', if ltb sc.iat nb'.value then none else some sc))
  ]

  unfoldable pub new_session : Text → ℕ → ℕ → Text
  unfolding session_ttl
  new_session email iat now =
      codec.sign
        (record { email = email; exp = now + session_ttl cfg; iat = iat; break_glass = false })

  -- The cookie that a session in the second half of its life is given.
  unfoldable pub renewed : Option SessionClaims → ℕ → Option Text
  unfolding new_session session_ttl allowed
  renewed none now = none
  renewed (some sc) now =
      if sc.break_glass || not (allowed cfg sc.email)
      then none
      else if ltb (2 * (sc.exp - now)) (session_ttl cfg)
      then some (new_session sc.email sc.iat now)
      else none

  unfoldable pub renew_session :
      Bool → NotBefore → Result Fault Text → Option Text → ℕ → NotBefore × Option Text
  unfolding session renewed
  renew_session local nb stored cookie now =
      if local || cfg.no_auth || cfg.tailscale_serve
      then (nb, none)
      else (let r = session nb stored cookie now in (r.0, renewed r.1 now))

  -- The caller's new cookie, with the text that the store holds then.
  unfoldable pub fresh_cookie : SessionClaims → ℕ → Text
  unfolding new_session
  fresh_cookie sc now =
      if sc.break_glass
      then codec.sign (record { email = sc.email; exp = sc.exp; iat = now; break_glass = true })
      else new_session sc.email now now

  -- `put` is what the store answers to the write; nothing is given without a session or with its error.
  unfoldable pub cut_off :
      NotBefore → Option SessionClaims → Option Fault → ℕ → NotBefore × Option (Text × Text)
  unfolding fresh_cookie
  cut_off nb none put now = (nb, none)
  cut_off nb (some sc) (some e) now = (nb, none)
  cut_off nb (some sc) none now =
      (record { value = now; read_at = now }, some (fresh_cookie sc now, codec.format_int now))

  unfoldable pub logout_others :
      NotBefore
      → Result Fault Text
      → Option Fault
      → Option Text
      → ℕ
      → NotBefore × Option (Text × Text)
  unfolding session cut_off
  logout_others nb stored put cookie now =
      let r = session nb stored cookie now in cut_off r.0 r.1 put now

  unfoldable pub logged_in : Option SessionClaims → Option Text
  unfolding allowed
  logged_in none = none
  logged_in (some sc) =
      if sc.break_glass
      then (if cfg.break_glass_enabled then some break_glass_user else none)
      else if allowed cfg sc.email
      then some sc.email
      else none

  -- Who is logged in, on a hub that is not the local portal: by the header of the proxy, or by the cookie.
  unfoldable pub user :
      NotBefore → Result Fault Text → Text → Option Text → ℕ → NotBefore × Option Text
  unfolding session allowed logged_in
  user nb stored header cookie now =
      if cfg.no_auth
      then (nb, some (codes "dev@localhost"))
      else if cfg.tailscale_serve
      then (let login = map to_lower (trim_space header) in
          (nb, if allowed cfg login then some login else none))
      else (let r = session nb stored cookie now in (r.0, logged_in r.1))

unfoldable pub is_unsafe : ℕ → Bool
is_unsafe r = ltb r 0x20 || (r == 0x7f) || (r == b'\\')

-- The first rune is a slash and the second is none, nor a backslash.
unfoldable pub is_rooted : Text → Bool
is_rooted [] = false
is_rooted (c ∷ []) = c == b'/'
is_rooted (c ∷ d ∷ s) = (c == b'/') && not ((d == b'/') || (d == b'\\'))

-- `parse` gives the scheme and the host that url.Parse finds.
unfoldable pub safe_next : (Text → Option (Text × Text)) → Text → Text
unfolding is_unsafe is_rooted
safe_next parse next =
    if not (is_rooted next)
    then codes "/"
    else if any is_unsafe next
    then codes "/"
    else elim (parse next) [
      | none ↦ codes "/"
      | some u ↦ if is_empty u.0 && is_empty u.1 then next else codes "/"
    ]

-- The one-time token of the local portal.
unfoldable pub consume : Text → Text → Text → Bool × Text
consume fresh token tok =
    if not (is_empty tok) && text_eq tok token then (true, fresh) else (false, token)
