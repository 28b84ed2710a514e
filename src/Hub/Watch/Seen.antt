-- ===== src/Hub/Watch/Seen.antt =====
-- internal/hub/notify.go: what a look sees of the sessions, and when it sends nothing of them.
use ccdash.Prelude.{
  ℕ, ◌≡◌, refl, ◌∙◌, ap, subst, ◌⊎◌, inl, inr, Bool, true, false, List, [], ◌∷◌, Text, codes,
  text_eq, text_eq_refl, text_eq_sym, is_empty, All, if◌then◌else◌, has_prefix, Bool-cases, arith,
  true-ne-false,
}
use ccdash.Session.{Session}
use ccdash.Hub.State.Sound.{Apart, All-imp}
use ccdash.Hub.Watch.{
  WatchState, Pty, Watched, Look, read_text, signature, stamp_letters, look_session, look_sessions,
}

abbrev pub same_session : Session → Session → Bool
same_session a b = text_eq a.session_id b.session_id

abbrev pub same_pty : Pty → Pty → Bool
same_pty a b = text_eq a.key b.key

-- A session's id is none of those that stand for a PTY.
abbrev pub IsSessionId : Session → Type 0
IsSessionId s = has_prefix s.session_id (codes "pty:") ≡ false

pub read_text_pass :
    (b : Bool) (m : List (Text × Text)) (k v k' : Text)
    → text_eq k k' ≡ false
    → read_text (if b then m else (k, v) ∷ m) k' ≡ read_text m k'
unfolding read_text
read_text_pass true m k v k' h = refl
read_text_pass false m k v k' h = rw h refl

pub read_text_top :
    (b : Bool) (m : List (Text × Text)) (k v : Text)
    → b ≡ false
    → read_text (if b then m else (k, v) ∷ m) k ≡ v
unfolding read_text
read_text_top true m k v h = absurd (true-ne-false h)
read_text_top false m k v h = rw (text_eq_refl k) refl

module _ (escape base : Text → Text) (d : Watched) (st : WatchState) where
  module _ (tools : List (Text × Text)) (now : ℕ) where
    look_session-first :
        (s : Session) (l : Look)
        → st.first ≡ true
        → (look_session escape base d st tools now s l).due ≡ l.due
    unfolding look_session
    look_session-first s l h = ground (arith, h)

    pub look_sessions-first :
        (ss : List Session) (l : Look)
        → st.first ≡ true
        → (look_sessions escape base d st tools now ss l).due ≡ l.due
    unfolding look_sessions
    look_sessions-first [] l h = refl
    look_sessions-first (s ∷ ss) l h =
        look_sessions-first ss (look_session escape base d st tools now s l) h
        ∙ look_session-first s l h

    look_session-seen :
        (s : Session) (l : Look)
        → (look_session escape base d st tools now s l).seen
          ≡ (if is_empty s.attention then l.seen else (s.session_id, signature tools s) ∷ l.seen)
    unfolding look_session
    look_session-seen s l = ground arith

    -- What is known of a session: it wants nothing, or what it wants was seen.
    abbrev pub IsKnown : List (Text × Text) → Session → Type 0
    IsKnown m s = (is_empty s.attention ≡ true) ⊎ (read_text m s.session_id ≡ signature tools s)

    look_session-known :
        (s : Session) (l : Look)
        → st.first ≡ false
        → IsKnown st.attention s
        → (look_session escape base d st tools now s l).due ≡ l.due
    unfolding look_session
    look_session-known s l h (inl nothing) = rw (nothing, look_session)
    look_session-known s l h (inr known) = ground (
      arith,
      h,
      subst (λ t. text_eq (read_text st.attention s.session_id) t ≡ true) known
          (text_eq_refl (read_text st.attention s.session_id)),
    )

    pub look_sessions-known :
        (ss : List Session) (l : Look)
        → st.first ≡ false
        → All (IsKnown st.attention) ss
        → (look_sessions escape base d st tools now ss l).due ≡ l.due
    unfolding look_sessions
    look_sessions-known [] l h ks = refl
    look_sessions-known (s ∷ ss) l h ks =
        look_sessions-known ss (look_session escape base d st tools now s l) h ks.1
        ∙ look_session-known s l h ks.0

    look_sessions-untouched :
        (ss : List Session) (l : Look) (k : Text)
        → All (λ y. text_eq y.session_id k ≡ false) ss
        → read_text (look_sessions escape base d st tools now ss l).seen k ≡ read_text l.seen k
    unfolding look_sessions
    look_sessions-untouched [] l k other = refl
    look_sessions-untouched (s ∷ ss) l k other =
        look_sessions-untouched ss (look_session escape base d st tools now s l) k other.1
        ∙ ap (λ m. read_text m k) (look_session-seen s l)
        ∙ read_text_pass (is_empty s.attention) l.seen s.session_id (signature tools s) k other.0

    pub look_sessions-IsKnown :
        (ss : List Session) (l : Look)
        → Apart same_session ss
        → All (IsKnown (look_sessions escape base d st tools now ss l).seen) ss
    unfolding look_sessions
    look_sessions-IsKnown [] l apart = tt
    look_sessions-IsKnown (s ∷ ss) l apart = (
      elim (Bool-cases (is_empty s.attention)) [
        | inl nothing ↦ inl nothing
        | inr wants ↦ inr (
            look_sessions-untouched ss (look_session escape base d st tools now s l) s.session_id
              (All-imp _ _ ss (λ y p. text_eq_sym y.session_id s.session_id ∙ p) apart.0)
            ∙ ap (λ m. read_text m s.session_id) (look_session-seen s l)
            ∙ read_text_top (is_empty s.attention) l.seen s.session_id (signature tools s) wants)
      ],
      look_sessions-IsKnown ss (look_session escape base d st tools now s l) apart.1,
    )

-- Stamping the letters changes no id.
pub stamp_letters-All :
    (P : Text → Type 0) (letter : Text) (ss : List Session)
    → All (λ s. P s.session_id) ss
    → All (λ s. P s.session_id) (stamp_letters letter ss)
unfolding stamp_letters
stamp_letters-All P letter [] ps = tt
stamp_letters-All P letter (s ∷ ss) ps = elim (Bool-cases (is_empty s.host_letter)) [
  | inl unstamped ↦ rw unstamped (ps.0, stamp_letters-All P letter ss ps.1)
  | inr stamped ↦ rw stamped (ps.0, stamp_letters-All P letter ss ps.1)
]

pub stamp_letters-Apart :
    (letter : Text) (ss : List Session)
    → Apart same_session ss
    → Apart same_session (stamp_letters letter ss)
unfolding stamp_letters
stamp_letters-Apart letter [] apart = tt
stamp_letters-Apart letter (s ∷ ss) apart = elim (Bool-cases (is_empty s.host_letter)) [
  | inl unstamped ↦ rw unstamped (
    stamp_letters-All (λ k. text_eq s.session_id k ≡ false) letter ss apart.0,
    stamp_letters-Apart letter ss apart.1,
  )
  | inr stamped ↦ rw stamped (
    stamp_letters-All (λ k. text_eq s.session_id k ≡ false) letter ss apart.0,
    stamp_letters-Apart letter ss apart.1,
  )
]
