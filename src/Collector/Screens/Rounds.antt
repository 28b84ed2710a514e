-- ===== src/Collector/Screens/Rounds.antt =====
-- internal/server/attention.go: after a round, what is shown is what is on the screens.
use ccdash.Prelude.{
  ℕ, ◌≡◌, refl, sym, ap, ◌∙◌, inl, inr, Bool, true, false, List, [], ◌∷◌, Text, text_eq,
  text_eq_iff, text_eq_sym, text_eq_refl, is_empty, or_right, All, if◌then◌else◌, Bool-cases,
  true-ne-false, arith,
}
use ccdash.Hub.Watch.{read_text}
use ccdash.Hub.State.Sound.{Apart}
use ccdash.Collector.Screens.{
  drop_key, mark_entry, mark_entries, has_key, forget_gone, attention_round,
}

abbrev pub same_key : Text × Text → Text × Text → Bool
same_key a b = text_eq a.0 b.0

read_text-drop_key :
    (k j : Text) (m : List (Text × Text))
    → read_text (drop_key k m) j ≡ (if text_eq k j then [] else read_text m j)
unfolding read_text drop_key
read_text-drop_key k j [] = ground arith
read_text-drop_key k j (b ∷ m) =
    let ih = read_text-drop_key k j m in
    elim (Bool-cases (text_eq b.0 k)) [
      | inl mine ↦
          let same : text_eq b.0 j ≡ text_eq k j =
            ap (λ (x : Text). text_eq x j) ((text_eq_iff b.0 k).0 mine) in
          elim (Bool-cases (text_eq k j)) [
            | inl dropped ↦ rw (mine, dropped) (rw dropped at ih)
            | inr kept ↦ rw (mine, same, kept) (rw kept at ih)
          ]
      | inr away ↦ elim (Bool-cases (text_eq b.0 j)) [
        | inl found ↦
            let other : text_eq k j ≡ false =
              text_eq_sym k j
              ∙ ap (λ (x : Text). text_eq x k) (sym ((text_eq_iff b.0 j).0 found))
              ∙ away in
            rw (away, found, other) refl
        | inr passed ↦ rw (away, passed) ih
      ]
    ]

is_empty-nil : (s : Text) → is_empty s ≡ true → s ≡ []
is_empty-nil [] h = refl
is_empty-nil (c ∷ s) h = absurd (true-ne-false (sym h))

-- What is already so stays so.
read_text-same :
    (e : Text × Text) (shown : List (Text × Text)) (j : Text)
    → read_text shown e.0 ≡ e.1
    → read_text shown j ≡ (if text_eq e.0 j then e.1 else read_text shown j)
read_text-same e shown j h = elim (Bool-cases (text_eq e.0 j)) [
  | inl mine ↦ rw mine (ap (λ (x : Text). read_text shown x) (sym ((text_eq_iff e.0 j).0 mine)) ∙ h)
  | inr away ↦ rw away refl
]

-- The law of a map, whatever was shown before.
read_text-mark_entry :
    (now : ℕ) (e : Text × Text) (shown : List (Text × Text)) (j : Text)
    → read_text (mark_entry now e shown).0 j ≡ (if text_eq e.0 j then e.1 else read_text shown j)
unfolding mark_entry
read_text-mark_entry now e shown j = elim (Bool-cases (is_empty e.1)) [
  | inr dialog ↦ elim (Bool-cases (text_eq (read_text shown e.0) e.1)) [
    | inl same ↦ rw (dialog, same) (read_text-same e shown j ((text_eq_iff _ _).0 same))
    | inr new ↦ rw (dialog, new) (unfold read_text in refl)
  ]
  | inl clear ↦ elim (Bool-cases (is_empty (read_text shown e.0))) [
    | inl none_shown ↦
        rw (clear, none_shown)
          (read_text-same e shown j (is_empty-nil _ none_shown ∙ sym (is_empty-nil _ clear)))
    | inr was ↦
        let bare : e.1 ≡ [] = is_empty-nil e.1 clear in
        rw (clear, was)
          (read_text-drop_key e.0 j shown
            ∙ ap (λ (x : Text). if text_eq e.0 j then x else read_text shown j) (sym bare))
  ]
]

has_key-apart :
    (e : Text × Text) (entries : List (Text × Text))
    → All (λ y. same_key e y ≡ false) entries
    → has_key e.0 entries ≡ false
has_key-apart e [] h = refl
has_key-apart e (b ∷ entries) h = rw (text_eq_sym b.0 e.0, h.0) (has_key-apart e entries h.1)

read_text-mark_entries :
    (now : ℕ) (entries shown : List (Text × Text)) (j : Text)
    → Apart same_key entries
    → read_text (mark_entries now entries shown).0 j
      ≡ (if has_key j entries then read_text entries j else read_text shown j)
unfolding mark_entries
read_text-mark_entries now [] shown j apart = refl
read_text-mark_entries now (e ∷ entries) shown j apart =
    read_text-mark_entries now entries (mark_entry now e shown).0 j apart.1
    ∙ elim (Bool-cases (text_eq e.0 j)) [
      | inl mine ↦
          let gone : has_key j entries ≡ false =
            ap (λ (x : Text). has_key x entries) (sym ((text_eq_iff e.0 j).0 mine))
            ∙ has_key-apart e entries apart.0 in
          rw (gone, mine)
            (read_text-mark_entry now e shown j ∙ rw (mine) (unfold read_text in refl))
      | inr away ↦ elim (Bool-cases (has_key j entries)) [
        | inl inside ↦ rw (inside, away) (unfold read_text in refl)
        | inr outside ↦ rw (outside, away) (read_text-mark_entry now e shown j ∙ rw away refl)
      ]
    ]

read_text-forget_gone :
    (entries shown : List (Text × Text)) (j : Text)
    → read_text (forget_gone entries shown) j
      ≡ (if has_key j entries then read_text shown j else [])
unfolding forget_gone read_text
read_text-forget_gone entries [] j = ground arith
read_text-forget_gone entries (b ∷ shown) j =
    let ih = read_text-forget_gone entries shown j in
    elim (Bool-cases (text_eq b.0 j)) [
      | inl mine ↦
          let same : has_key b.0 entries ≡ has_key j entries =
            ap (λ (x : Text). has_key x entries) ((text_eq_iff b.0 j).0 mine) in
          elim (Bool-cases (has_key j entries)) [
            | inl inside ↦ rw (same, inside, mine) refl
            | inr outside ↦ rw (same, outside) (rw (outside) at ih)
          ]
      | inr away ↦ elim (Bool-cases (has_key b.0 entries)) [
        | inl kept ↦ rw (kept, away) ih
        | inr gone ↦ rw (gone, away) ih
      ]
    ]

read_text-outside :
    (entries : List (Text × Text)) (j : Text) → has_key j entries ≡ false → read_text entries j ≡ []
unfolding read_text
read_text-outside [] j h = refl
read_text-outside (b ∷ entries) j h = elim (Bool-cases (text_eq b.0 j)) [
  | inl mine ↦ absurd (true-ne-false (rw mine at h))
  | inr away ↦ rw away (read_text-outside entries j (rw away at h))
]

-- After a round over the sessions on the screens, which differ, what is shown of any session is the
-- reason that its screen gives in this round, or nothing where its screen shows no dialog or it is
-- on no screen, whatever was shown before.
pub attention_round-shown :
    (now : ℕ) (entries shown : List (Text × Text)) (j : Text)
    → Apart same_key entries
    → read_text (attention_round now entries shown).0 j ≡ read_text entries j
unfolding attention_round
attention_round-shown now entries shown j apart =
    read_text-forget_gone entries (mark_entries now entries shown).0 j
    ∙ elim (Bool-cases (has_key j entries)) [
      | inl inside ↦ rw inside (read_text-mark_entries now entries shown j apart ∙ rw inside refl)
      | inr outside ↦ rw outside (sym (read_text-outside entries j outside))
    ]

-- What is shown already of every session on a screen.
abbrev AllShown : List (Text × Text) → List (Text × Text) → Type 0
AllShown shown = All (λ e. read_text shown e.0 ≡ e.1)

mark_entry-shown :
    (now : ℕ) (e : Text × Text) (shown : List (Text × Text))
    → read_text shown e.0 ≡ e.1
    → mark_entry now e shown ≡ (shown, [])
unfolding mark_entry
mark_entry-shown now e shown h = elim (Bool-cases (is_empty e.1)) [
  | inl clear ↦ rw (clear, h) (rw clear refl)
  | inr dialog ↦ rw (dialog, h) (rw (text_eq_refl e.1) refl)
]

mark_entries-shown :
    (now : ℕ) (entries shown : List (Text × Text))
    → AllShown shown entries
    → mark_entries now entries shown ≡ (shown, [])
unfolding mark_entries
mark_entries-shown now [] shown h = refl
mark_entries-shown now (e ∷ entries) shown h =
    rw (mark_entry-shown now e shown h.0) (mark_entries-shown now entries shown h.1)

read_text-later :
    (e : Text × Text) (entries : List (Text × Text)) (j : Text)
    → All (λ y. same_key e y ≡ false) entries
    → has_key j entries ≡ true
    → read_text (e ∷ entries) j ≡ read_text entries j
unfolding read_text
read_text-later e entries j apart inside = elim (Bool-cases (text_eq e.0 j)) [
  | inr away ↦ rw away refl
  | inl mine ↦ absurd (
      true-ne-false (
        sym inside
        ∙ ap (λ (x : Text). has_key x entries) (sym ((text_eq_iff e.0 j).0 mine))
        ∙ has_key-apart e entries apart))
]

AllShown-entries :
    (entries shown : List (Text × Text))
    → Apart same_key entries
    → ((j : Text) → has_key j entries ≡ true → read_text shown j ≡ read_text entries j)
    → AllShown shown entries
AllShown-entries [] shown apart h = tt
AllShown-entries (e ∷ entries) shown apart h = (
  h e.0 (rw (text_eq_refl e.0) refl) ∙ unfold read_text in rw (text_eq_refl e.0) refl,
  AllShown-entries entries shown apart.1 (λ j inside.
      h j (or_right (text_eq e.0 j) (has_key j entries) inside)
      ∙ read_text-later e entries j apart.0 inside),
)

forget_gone-All :
    (entries shown : List (Text × Text))
    → All (λ b. has_key b.0 entries ≡ true) shown
    → forget_gone entries shown ≡ shown
unfolding forget_gone
forget_gone-All entries [] h = refl
forget_gone-All entries (b ∷ shown) h = rw h.0 (ap (λ x. b ∷ x) (forget_gone-All entries shown h.1))

forget_gone-kept :
    (entries shown : List (Text × Text))
    → All (λ b. has_key b.0 entries ≡ true) (forget_gone entries shown)
unfolding forget_gone
forget_gone-kept entries [] = tt
forget_gone-kept entries (b ∷ shown) = elim (Bool-cases (has_key b.0 entries)) [
  | inl kept ↦ rw kept (kept, forget_gone-kept entries shown)
  | inr gone ↦ rw gone (forget_gone-kept entries shown)
]

-- A second round over the same sessions, which differ, with the same reasons changes nothing of
-- what is shown and does nothing to a session's row.
pub attention_round_again :
    (now later : ℕ) (entries shown : List (Text × Text))
    → Apart same_key entries
    → (let after = (attention_round now entries shown).0 in
        attention_round later entries after ≡ (after, []))
attention_round_again now later entries shown apart =
    let after = (attention_round now entries shown).0 in
    let all_shown =
      AllShown-entries entries after apart
        (λ j inside. attention_round-shown now entries shown j apart) in
    let kept : forget_gone entries after ≡ after =
      forget_gone-All entries after
        (unfold attention_round in forget_gone-kept entries (mark_entries now entries shown).0) in
    unfold attention_round in
    rw (mark_entries-shown later entries after all_shown) (λ i. (kept i, []))
