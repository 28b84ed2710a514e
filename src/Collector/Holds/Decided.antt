-- ===== src/Collector/Holds/Decided.antt =====
-- internal/server/server.go: which requests put a decision into which handler's channel.
use ccdash.Prelude.{
  ℕ, ◌≡◌, ◌≢◌, refl, sym, ap, ◌∙◌, ◌⊎◌, inl, inr, Bool, true, false, [], ◌∷◌, Option, none, some,
  Text, ◌==◌, Bool-cases, Option-cases, true-ne-false, arith,
}
use ccdash.Collector.Holds.{
  ApprovalDecision, Holds, find_hold, send, close_hold, Answer, accepted, decide_id, is_behavior,
  offer, decide_at, decide_path, handle_approval_decide,
}

abbrev pub is_accepted : Answer → Bool
is_accepted accepted = true
is_accepted _ = false

pub find_hold-send :
    (id : ℕ) (d : ApprovalDecision) (holds : Holds) (held : Option ApprovalDecision)
    → find_hold id holds ≡ some held
    → find_hold id (send id d holds) ≡ some (some d)
unfolding find_hold send
find_hold-send id d [] held h = ground arith
find_hold-send id d (x ∷ holds) held h = elim (Bool-cases (x.0 == id)) [
  | inl mine ↦ rw mine (rw mine refl)
  | inr away ↦ rw away (rw away (find_hold-send id d holds held (rw (away) at h)))
]

-- The other channels stay as they are.
find_hold-send-away :
    (id j : ℕ) (d : ApprovalDecision) (holds : Holds)
    → j ≢ id
    → find_hold j (send id d holds) ≡ find_hold j holds
unfolding find_hold send
find_hold-send-away id j d [] h = refl
find_hold-send-away id j d (x ∷ holds) h = elim (Bool-cases (x.0 == id)) [
  | inl mine ↦ let other : (x.0 == j) ≡ false = ground (arith, mine, h) in rw mine (rw other refl)
  | inr away ↦ elim (Bool-cases (x.0 == j)) [
    | inl found ↦ rw away (rw found refl)
    | inr more ↦ rw away (rw more (find_hold-send-away id j d holds h))
  ]
]

-- The id in the path of a request.
abbrev pub IsAbout : (Text → Option ℕ) → Text → ℕ → Type 0
IsAbout parse_int path id = (t : Text) × (decide_id path ≡ some t) × (parse_int t ≡ some id)

module _ (parse_int : Text → Option ℕ) (is_post : Bool) (path : Text)
    (body : Option ApprovalDecision) (holds : Holds) where
  -- A POST about that id with that decision, and a handler that waits for it with an empty channel.
  pub record IsReady (id : ℕ) (d : ApprovalDecision) : Type 0 where
    pub posted : is_post ≡ true
    pub about : IsAbout parse_int path id
    pub decides : body ≡ some d
    pub behaves : is_behavior d.behavior ≡ true
    pub is_waiting : find_hold id holds ≡ some none

  abbrev decided : Answer × Holds
  decided = handle_approval_decide parse_int is_post path body holds

  -- Such a request is accepted, and its decision goes to that handler alone.
  pub IsReady-accepted :
      (id : ℕ) (d : ApprovalDecision) → IsReady id d → decided ≡ (accepted, send id d holds)
  unfolding handle_approval_decide decide_path decide_at offer
  IsReady-accepted id d r =
      let (t, found, number) = r.about in
      rw (r.posted, r.decides, found, number, decide_path, r.behaves, r.is_waiting, offer) refl

  -- What else is answered changes no channel.
  abbrev Refused : Type 0
  Refused = (is_accepted decided.0 ≡ false) × (decided.1 ≡ holds)

  refused_or_IsReady : Refused ⊎ ((id : ℕ) × (d : ApprovalDecision) × IsReady id d)
  unfolding handle_approval_decide decide_path decide_at offer
  refused_or_IsReady = elim (Bool-cases is_post) [
    | inr other ↦ inl (rw other (refl, refl))
    | inl posted ↦ elim (Option-cases (decide_id path)) [
      | inl nowhere ↦ inl (rw (posted, nowhere, decide_path) (refl, refl))
      | inr (t, found) ↦ elim (Option-cases (parse_int t)) [
        | inl no_number ↦ inl (rw (posted, found, no_number, decide_path) (refl, refl))
        | inr (id, number) ↦ elim (Option-cases body) [
          | inl unread ↦ inl (rw (posted, found, number, unread, decide_path) (refl, refl))
          | inr (d, decides) ↦ elim (Bool-cases (is_behavior d.behavior)) [
            | inr bad ↦ inl (rw (posted, found, number, decides, bad, decide_path) (refl, refl))
            | inl good ↦ elim (Option-cases (find_hold id holds)) [
              | inl nobody ↦ inl (
                  rw (posted, found, number, decides, good, nobody, decide_path, offer)
                    (refl, refl))
              | inr (some before, full) ↦
                  inl (
                    rw (posted, found, number, decides, good, full, decide_path, offer)
                      (refl, refl))
              | inr (none, empty) ↦ inr (
                id,
                d,
                record {
                  posted = posted;
                  about = (t, found, number);
                  decides = decides;
                  behaves = good;
                  is_waiting = empty;
                },
              )
            ]
          ]
        ]
      ]
    ]
  ]

  -- What a request does to the channels, one way or the other.
  abbrev pub Outcome : Type 0
  Outcome =
      (Refused × ((id : ℕ) (d : ApprovalDecision) → IsReady id d → ⊥))
      ⊎ ((id : ℕ) × (d : ApprovalDecision) × IsReady id d
          × (decided.0 ≡ accepted)
          × (find_hold id decided.1 ≡ some (some d))
          × ((j : ℕ) → j ≢ id → find_hold j decided.1 ≡ find_hold j holds))

  -- A request is answered in one of two ways: it is not accepted, no waiting handler's channel
  -- changes, and it was no POST about an id (which decide_id takes from the path), with a decision
  -- to allow or to deny, whose handler waits with an empty channel; or it was one, it is accepted,
  -- the channel of that id holds its decision, and every other id's channel is as it was.
  pub handle_approval_decide-Outcome : Outcome
  handle_approval_decide-Outcome = elim refused_or_IsReady [
    | inl refused ↦ inl (
      refused,
      λ id d r.
          true-ne-false (sym (ap (λ x. is_accepted x.0) (IsReady-accepted id d r)) ∙ refused.0),
    )
    | inr (id, d, r) ↦
        let e = IsReady-accepted id d r in
        inr (
          id,
          d,
          r,
          ap (λ x. x.0) e,
          ap (λ x. find_hold id x.1) e ∙ find_hold-send id d holds none r.is_waiting,
          λ j other. ap (λ x. find_hold j x.1) e ∙ find_hold-send-away id j d holds other,
        )
  ]

-- A hold that is closed takes no decision.
pub find_hold-close_hold : (id : ℕ) (holds : Holds) → find_hold id (close_hold id holds) ≡ none
unfolding find_hold close_hold
find_hold-close_hold id [] = refl
find_hold-close_hold id (h ∷ holds) = elim (Bool-cases (h.0 == id)) [
  | inl mine ↦ rw mine (find_hold-close_hold id holds)
  | inr away ↦ rw away (rw away (find_hold-close_hold id holds))
]
