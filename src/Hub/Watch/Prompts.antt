-- ===== src/Hub/Watch/Prompts.antt =====
-- internal/hub/notify.go: what a look sees of the PTYs, and when it sends nothing of them.
use ccdash.Prelude.{
  ℕ, ◌≡◌, refl, sym, ◌∙◌, ap, subst, ◌⊎◌, inl, inr, Bool, true, false, ◌||◌, not, List, [], ◌∷◌,
  ◌++◌, Text, codes, text_eq, text_eq_iff, text_eq_refl, text_eq_sym, is_empty, All, if◌then◌else◌,
  has_prefix, Bool-cases, arith, true-ne-false,
}
use ccdash.Session.{Session}
use ccdash.Hub.State.Sound.{Apart, All-imp}
use ccdash.Hub.Watch.{WatchState, Pty, Watched, Look, read_text, is_named, look_pty, look_ptys}
use ccdash.Hub.Watch.Seen.{same_pty, IsSessionId, IsKnown, read_text_pass, read_text_top}

same_after : (s t : Text) → text_eq (codes "pty:" ++ s) (codes "pty:" ++ t) ≡ text_eq s t
unfolding text_eq
same_after s t = refl

module _ (escape base : Text → Text) (d : Watched) (st : WatchState) where
  module _ (all : List Pty) (now : ℕ) where
    -- A PTY that is no new session's, or asks nothing.
    abbrev is_passed : Pty → Bool
    is_passed p =
        not p.alive
        || is_empty p.prompt
        || is_named all p.pid
        || not (has_prefix p.key (codes "pid-"))

    look_pty-first :
        (p : Pty) (l : Look) → st.first ≡ true → (look_pty escape base d st all now p l).due ≡ l.due
    unfolding look_pty
    look_pty-first p l h = ground (arith, h)

    pub look_ptys-first :
        (ps : List Pty) (l : Look)
        → st.first ≡ true
        → (look_ptys escape base d st all now ps l).due ≡ l.due
    unfolding look_ptys
    look_ptys-first [] l h = refl
    look_ptys-first (p ∷ ps) l h =
        look_ptys-first ps (look_pty escape base d st all now p l) h ∙ look_pty-first p l h

    look_pty-seen :
        (p : Pty) (l : Look)
        → (look_pty escape base d st all now p l).seen
          ≡ (if is_passed p then l.seen else (codes "pty:" ++ p.key, p.prompt) ∷ l.seen)
    unfolding look_pty
    look_pty-seen p l = ground arith

    abbrev pub IsKnownPty : List (Text × Text) → Pty → Type 0
    IsKnownPty m p = (is_passed p ≡ true) ⊎ (read_text m (codes "pty:" ++ p.key) ≡ p.prompt)

    look_pty-known :
        (p : Pty) (l : Look)
        → st.first ≡ false
        → IsKnownPty st.attention p
        → (look_pty escape base d st all now p l).due ≡ l.due
    unfolding look_pty
    look_pty-known p l h (inl passed) = rw (passed, look_pty)
    look_pty-known p l h (inr known) = ground (
      arith,
      h,
      subst (λ t. text_eq (read_text st.attention (codes "pty:" ++ p.key)) t ≡ true) known
          (text_eq_refl (read_text st.attention (codes "pty:" ++ p.key))),
    )

    pub look_ptys-known :
        (ps : List Pty) (l : Look)
        → st.first ≡ false
        → All (IsKnownPty st.attention) ps
        → (look_ptys escape base d st all now ps l).due ≡ l.due
    unfolding look_ptys
    look_ptys-known [] l h ks = refl
    look_ptys-known (p ∷ ps) l h ks =
        look_ptys-known ps (look_pty escape base d st all now p l) h ks.1
        ∙ look_pty-known p l h ks.0

    look_ptys-untouched :
        (ps : List Pty) (l : Look) (k : Text)
        → All (λ y. text_eq (codes "pty:" ++ y.key) k ≡ false) ps
        → read_text (look_ptys escape base d st all now ps l).seen k ≡ read_text l.seen k
    unfolding look_ptys
    look_ptys-untouched [] l k other = refl
    look_ptys-untouched (p ∷ ps) l k other =
        look_ptys-untouched ps (look_pty escape base d st all now p l) k other.1
        ∙ ap (λ m. read_text m k) (look_pty-seen p l)
        ∙ read_text_pass (is_passed p) l.seen (codes "pty:" ++ p.key) p.prompt k other.0

    pub look_ptys-IsKnownPty :
        (ps : List Pty) (l : Look)
        → Apart same_pty ps
        → All (IsKnownPty (look_ptys escape base d st all now ps l).seen) ps
    unfolding look_ptys
    look_ptys-IsKnownPty [] l apart = tt
    look_ptys-IsKnownPty (p ∷ ps) l apart = (
      elim (Bool-cases (is_passed p)) [
        | inl passed ↦ inl passed
        | inr asks ↦ inr (
            look_ptys-untouched ps (look_pty escape base d st all now p l) (codes "pty:" ++ p.key)
              (All-imp _ _ ps (λ y e. same_after y.key p.key ∙ text_eq_sym y.key p.key ∙ e) apart.0)
            ∙ ap (λ m. read_text m (codes "pty:" ++ p.key)) (look_pty-seen p l)
            ∙ read_text_top (is_passed p) l.seen (codes "pty:" ++ p.key) p.prompt asks)
      ],
      look_ptys-IsKnownPty ps (look_pty escape base d st all now p l) apart.1,
    )

  session-not_pty :
      (k key : Text) → has_prefix k (codes "pty:") ≡ false → text_eq (codes "pty:" ++ key) k ≡ false
  unfolding has_prefix
  session-not_pty k key h = elim (Bool-cases (text_eq (codes "pty:" ++ key) k)) [
    | inr other ↦ other
    | inl same ↦
        let e = (text_eq_iff (codes "pty:" ++ key) k).0 same in
        absurd (true-ne-false (subst (λ t. has_prefix t (codes "pty:") ≡ false) (sym e) h))
  ]

  All-not_pty :
      (ps : List Pty) (k : Text)
      → has_prefix k (codes "pty:") ≡ false
      → All (λ y. text_eq (codes "pty:" ++ y.key) k ≡ false) ps
  All-not_pty [] k h = tt
  All-not_pty (p ∷ ps) k h = (session-not_pty k p.key h, All-not_pty ps k h)

  -- What the PTYs add to a look hides no session of it.
  pub look_ptys-keeps :
      (tools : List (Text × Text)) (all ps : List Pty) (now : ℕ) (l : Look) (ss : List Session)
      → All IsSessionId ss
      → All (IsKnown escape base d st tools now l.seen) ss
      → All (IsKnown escape base d st tools now (look_ptys escape base d st all now ps l).seen) ss
  look_ptys-keeps tools all ps now l [] names ks = tt
  look_ptys-keeps tools all ps now l (s ∷ ss) names ks = (
    elim ks.0 [
      | inl nothing ↦ inl nothing
      | inr known ↦ inr (
          look_ptys-untouched all now ps l s.session_id (All-not_pty ps s.session_id names.0)
          ∙ known)
    ],
    look_ptys-keeps tools all ps now l ss names.1 ks.1,
  )
