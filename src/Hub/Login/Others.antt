-- ===== src/Hub/Login/Others.antt =====
-- internal/hub/auth.go: what a log-out of the others does to the sessions.
use ccdash.Prelude.{
  ℕ, ◌+◌, ◌≤◌, ◌<◌, ◌≡◌, ◌≢◌, refl, sym, ◌∙◌, ap, subst, inl, inr, true, false, Option, none, some,
  Text, ltb, if◌then◌else◌, lt→ltb, Bool-cases, Option-cases, Result, ok, Result-cases, arith,
}
use mathlib.Core.Option.{some-injective, some-ne-none}
use ccdash.Hub.State.{Fault}
use ccdash.Hub.Login.{
  SessionClaims, LoginConfig, NotBefore, Codec, not_before, session, new_session, session_ttl,
  fresh_cookie, cut_off, logout_others,
}

module _ (codec : Codec) (cfg : LoginConfig) where
  -- The cut-off stays at `cut` where the cache and the store have it.
  not_before-le :
      (nb : NotBefore) (stored : Result Fault Text) (cut t : ℕ)
      → cut ≤ nb.value
      → ((v : Text) → stored ≡ ok v → cut ≤ codec.parse_int v)
      → cut ≤ (not_before codec cfg nb stored t).value
  unfolding not_before
  not_before-le nb stored cut t h k = elim (Result-cases stored) [
    | inl (v, good) ↦ ground (arith, h, good, k v good)
    | inr (e, bad) ↦ ground (arith, h, bad)
  ]

  refused_below : {a b c : ℕ} → a < b → b ≤ c → a < c
  refused_below h k = omega arith

  cut_off_cases :
      (nb nb' : NotBefore) (o : Option SessionClaims) (put : Option Fault) (now : ℕ)
      (new held : Text)
      → cut_off codec cfg nb o put now ≡ (nb', some (new, held))
      → (sc : SessionClaims) × (o ≡ some sc)
        × (nb' ≡ record { value = now; read_at = now })
        × (new ≡ fresh_cookie codec cfg sc now)
        × (held ≡ codec.format_int now)
  unfolding cut_off
  cut_off_cases nb nb' none put now new held h = absurd (some-ne-none _ (sym (ap (λ r. r.1) h)))
  cut_off_cases nb nb' (some sc) (some e) now new held h =
      absurd (some-ne-none _ (sym (ap (λ r. r.1) h)))
  cut_off_cases nb nb' (some sc) none now new held h =
      let same = some-injective _ (new, held) (ap (λ r. r.1) h) in
      (sc, refl, sym (ap (λ r. r.0) h), sym (ap (λ r. r.0) same), sym (ap (λ r. r.1) same))

  -- After a log-out of the others that succeeded, this replica refuses at any time every cookie
  -- whose claims were issued before it, if what the store answers from then on, where it answers at
  -- all, is no earlier cut-off.
  pub logout_others-session :
      (nb nb' : NotBefore) (stored later : Result Fault Text) (put : Option Fault)
      (cookie : Option Text) (new held c : Text) (now t : ℕ) (sc : SessionClaims)
      → logout_others codec cfg nb stored put cookie now ≡ (nb', some (new, held))
      → ((v : Text) → later ≡ ok v → now ≤ codec.parse_int v)
      → codec.open_cookie c ≡ some sc
      → sc.iat < now
      → (session codec cfg nb' later (some c) t).1 ≡ none
  unfolding session logout_others
  logout_others-session nb nb' stored later put cookie new held c now t sc h k opened old =
      let before = session codec cfg nb stored cookie now in
      let (given, _, cut, _, _) = cut_off_cases before.0 nb' before.1 put now new held h in
      let late = lt→ltb sc.iat (not_before codec cfg nb' later t).value (
        refused_below old
          (not_before-le nb' later now t (subst (λ x. now ≤ x.value) (sym cut) (omega arith)) k)) in
      elim (Bool-cases (ltb sc.exp t)) [
        | inl over ↦ rw (opened, over, session)
        | inr valid ↦ rw (opened, valid, session) (rw late)
      ]

  -- A session that counts has not run out.
  session_valid :
      (nb : NotBefore) (stored : Result Fault Text) (cookie : Option Text) (now : ℕ)
      (sc : SessionClaims)
      → (session codec cfg nb stored cookie now).1 ≡ some sc
      → ltb sc.exp now ≡ false
  unfolding session
  session_valid nb stored none now sc h = absurd (some-ne-none sc (sym h))
  session_valid nb stored (some c) now sc h = elim (Option-cases (codec.open_cookie c)) [
    | inl shut ↦ absurd (some-ne-none sc (sym (rw (shut, session) at h)))
    | inr (sc', opened) ↦ elim (Bool-cases (ltb sc'.exp now)) [
      | inl over ↦ absurd (some-ne-none sc (sym (rw (opened, over, session) at h)))
      | inr valid ↦ elim (Bool-cases (ltb sc'.iat (not_before codec cfg nb stored now).value)) [
        | inl old ↦ absurd (some-ne-none sc (sym (rw (opened, valid, old, session) at h)))
        | inr new ↦
            subst (λ x. ltb x.exp now ≡ false)
              (some-injective sc' sc (rw (opened, valid, new, session) at h)) valid
      ]
    ]
  ]

  fresh_claims :
      (sc : SessionClaims) (now : ℕ)
      → ltb sc.exp now ≡ false
      → (c : SessionClaims) × (fresh_cookie codec cfg sc now ≡ codec.sign c)
        × (c.iat ≡ now)
        × (ltb c.exp now ≡ false)
  unfolding fresh_cookie new_session
  fresh_claims sc now valid =
      let glassy : SessionClaims = record {
        email = sc.email;
        exp = sc.exp;
        iat = now;
        break_glass = true;
      } in
      let full : SessionClaims = record {
        email = sc.email;
        exp = now + session_ttl cfg;
        iat = now;
        break_glass = false;
      } in
      elim (Bool-cases sc.break_glass) [
        | inl glass ↦
            (glassy, ap (λ b. if b then codec.sign glassy else codec.sign full) glass, refl, valid)
        | inr plain ↦ (
          full,
          ap (λ b. if b then codec.sign glassy else codec.sign full) plain,
          refl,
          not_over (session_ttl cfg),
        )
      ]
    where
      not_over : (ttl : ℕ) → ltb (now + ttl) now ≡ false
      not_over ttl = ground arith

  -- If a signed cookie opens to its claims, the cookie that the caller of a log-out of the others
  -- is given counts right afterwards, whatever the store answers.
  pub logout_others-own :
      (nb nb' : NotBefore) (stored later : Result Fault Text) (put : Option Fault)
      (cookie : Option Text) (new held : Text) (now : ℕ)
      → ((sc : SessionClaims) → codec.open_cookie (codec.sign sc) ≡ some sc)
      → logout_others codec cfg nb stored put cookie now ≡ (nb', some (new, held))
      → (session codec cfg nb' later (some new) now).1 ≢ none
  unfolding session logout_others not_before
  logout_others-own nb nb' stored later put cookie new held now opens h refused =
      let before = session codec cfg nb stored cookie now in
      let (sc, found, cut, cookie_is, _) = cut_off_cases before.0 nb' before.1 put now new held h in
      let (c, signed, issued, lasts) =
        fresh_claims sc now (session_valid nb stored cookie now sc found) in
      let opened = ap codec.open_cookie (cookie_is ∙ signed) ∙ opens c in
      let at_cut = ap (λ x. (not_before codec cfg x later now).value) cut ∙ at_once now later in
      let kept =
        ap (λ n. ltb n (not_before codec cfg nb' later now).value) issued
        ∙ ap (ltb now) at_cut
        ∙ not_below now in
      some-ne-none c (rw (opened, lasts, kept, session) at refused)
    where
      at_once :
          (now : ℕ) (later : Result Fault Text)
          → (not_before codec cfg (record { value = now; read_at = now }) later now).value ≡ now
      at_once now later = ground arith

      not_below : (n : ℕ) → ltb n n ≡ false
      not_below n = ground arith
