-- ===== src/Collector/Holds/First.antt =====
-- internal/server/server.go: the decision that a waiting handler receives after any requests.
use ccdash.Prelude.{
  ℕ, ◌≡◌, ◌≢◌, ◌&&◌, refl, subst, sym, ap, ◌∙◌, inl, inr, Bool, true, false, List, [], ◌∷◌, Option,
  none, some, Text, ◌==◌, ==_iff, if◌then◌else◌, Bool-cases, Option-cases, arith, not,
}
use mathlib.Core.Option.{some-injective, some-ne-none}
use ccdash.Collector.Holds.{
  ApprovalDecision, Holds, find_hold, close_hold, decide_id, is_behavior, handle_approval_decide,
  take_decision,
}
use ccdash.Collector.Holds.Decided.{
  is_accepted, IsAbout, IsReady, handle_approval_decide-Outcome, find_hold-close_hold,
  IsReady-accepted, find_hold-send,
}

pub record Request : Type 0 where
  pub is_post : Bool
  pub path : Text
  pub body : Option ApprovalDecision

module _ (parse_int : Text → Option ℕ) (id : ℕ) where
  -- The decision in a request that is a POST about the id, has a body, and a behavior that there is.
  unfoldable pub decision_in : Request → Option ApprovalDecision
  decision_in q = if not q.is_post then none else elim (decide_id q.path) [
    | none ↦ none
    | some t ↦ elim (parse_int t) [
      | none ↦ none
      | some n ↦ elim q.body [
        | none ↦ none
        | some d ↦ if (n == id) && is_behavior d.behavior then some d else none
      ]
    ]
  ]

  unfoldable pub first_decision : List Request → Option ApprovalDecision
  first_decision [] = none
  first_decision (q ∷ qs) = elim (decision_in q) [ none ↦ first_decision qs | some d ↦ some d ]

  abbrev after_request : Request → Holds → Holds
  after_request q holds = (handle_approval_decide parse_int q.is_post q.path q.body holds).1

  -- The requests one after the other, answered from the open holds.
  unfoldable pub decide_all : List Request → Holds → Holds
  decide_all [] holds = holds
  decide_all (q ∷ qs) holds =
      decide_all qs (handle_approval_decide parse_int q.is_post q.path q.body holds).1

  abbrev Ready : Request → Holds → ApprovalDecision → Type 0
  Ready q holds d = IsReady parse_int q.is_post q.path q.body holds id d

  decision_in-ready :
      (q : Request) (holds : Holds) (d : ApprovalDecision)
      → Ready q holds d
      → decision_in q ≡ some d
  unfolding decision_in
  decision_in-ready q holds d r =
      let (t, found, number) = r.about in
      let same : (id == id) ≡ true = ground arith in
      rw (r.posted, found, number, r.decides, same, r.behaves) refl

  decision_in-cases :
      (q : Request) (holds : Holds) (d : ApprovalDecision)
      → find_hold id holds ≡ some none
      → decision_in q ≡ some d
      → Ready q holds d
  unfolding decision_in
  decision_in-cases q holds d empty h = elim (Bool-cases q.is_post) [
    | inr other ↦ absurd (some-ne-none d (sym (rw other at h)))
    | inl posted ↦ elim (Option-cases (decide_id q.path)) [
      | inl nowhere ↦ absurd (some-ne-none d (sym (rw (posted, nowhere) at h)))
      | inr (t, found) ↦ elim (Option-cases (parse_int t)) [
        | inl no_number ↦ absurd (some-ne-none d (sym (rw (posted, found, no_number) at h)))
        | inr (n, number) ↦ elim (Option-cases q.body) [
          | inl unread ↦ absurd (some-ne-none d (sym (rw (posted, found, number, unread) at h)))
          | inr (d', decides) ↦ elim (Bool-cases ((n == id) && is_behavior d'.behavior)) [
            | inr off ↦
                absurd (some-ne-none d (sym (rw (posted, found, number, decides, off) at h)))
            | inl on ↦
                let e = some-injective d' d (rw (posted, found, number, decides, on) at h) in
                let mine : n ≡ id = ground (arith, on) in
                let good : is_behavior d'.behavior ≡ true = ground (arith, on) in
                record {
                  posted = posted;
                  about = (t, found, number ∙ ap some mine);
                  decides = decides ∙ ap some e;
                  behaves = sym (ap (λ x. is_behavior x.behavior) e) ∙ good;
                  is_waiting = empty;
                }
          ]
        ]
      ]
    ]
  ]

  moved :
      {q : Request} {holds : Holds} {d : ApprovalDecision} (n : ℕ)
      → (n == id) ≡ true
      → IsReady parse_int q.is_post q.path q.body holds n d
      → Ready q holds d
  moved {q = q} {holds = holds} {d = d} n mine r =
      subst (λ k. IsReady parse_int q.is_post q.path q.body holds k d) ((==_iff n id).0 mine) r

  away_from : (n : ℕ) → (n == id) ≡ false → id ≢ n
  away_from n h e = ground (arith, h, e)

  -- What one request does to the channel of the id.
  after_request-none :
      (q : Request) (holds : Holds)
      → decision_in q ≡ none
      → find_hold id (after_request q holds) ≡ find_hold id holds
  after_request-none q holds h =
      elim (handle_approval_decide-Outcome parse_int q.is_post q.path q.body holds) [
        | inl (refused, never) ↦ ap (find_hold id) refused.1
        | inr (n, d, r, acc, lies, frame) ↦ elim (Bool-cases (n == id)) [
          | inl mine ↦
              absurd (some-ne-none d (sym (decision_in-ready q holds d (moved n mine r)) ∙ h))
          | inr away ↦ frame id (away_from n away)
        ]
      ]

  after_request-some :
      (q : Request) (holds : Holds) (d : ApprovalDecision)
      → find_hold id holds ≡ some none
      → decision_in q ≡ some d
      → find_hold id (after_request q holds) ≡ some (some d)
  after_request-some q holds d empty h =
      let r = decision_in-cases q holds d empty h in
      ap (λ x. find_hold id x.1) (IsReady-accepted parse_int q.is_post q.path q.body holds id d r)
      ∙ find_hold-send id d holds none empty

  after_request-full :
      (q : Request) (holds : Holds) (d : ApprovalDecision)
      → find_hold id holds ≡ some (some d)
      → find_hold id (after_request q holds) ≡ some (some d)
  after_request-full q holds d full =
      elim (handle_approval_decide-Outcome parse_int q.is_post q.path q.body holds) [
        | inl (refused, never) ↦ ap (find_hold id) refused.1 ∙ full
        | inr (n, d', r, acc, lies, frame) ↦ elim (Bool-cases (n == id)) [
          | inl mine ↦
              absurd
                (some-ne-none d (sym (some-injective _ _ (sym (moved n mine r).is_waiting ∙ full))))
          | inr away ↦ frame id (away_from n away) ∙ full
        ]
      ]

  decide_all-full :
      (qs : List Request) (holds : Holds) (d : ApprovalDecision)
      → find_hold id holds ≡ some (some d)
      → find_hold id (decide_all qs holds) ≡ some (some d)
  unfolding decide_all
  decide_all-full [] holds d full = full
  decide_all-full (q ∷ qs) holds d full =
      decide_all-full qs (after_request q holds) d (after_request-full q holds d full)

  find_hold-decide_all :
      (qs : List Request) (holds : Holds)
      → find_hold id holds ≡ some none
      → find_hold id (decide_all qs holds) ≡ some (first_decision qs)
  unfolding decide_all first_decision
  find_hold-decide_all [] holds empty = empty
  find_hold-decide_all (q ∷ qs) holds empty = elim (Option-cases (decision_in q)) [
    | inl nothing ↦
        rw (nothing, first_decision)
          (find_hold-decide_all qs (after_request q holds)
            (after_request-none q holds nothing ∙ empty))
    | inr (d, decides) ↦
        rw (decides, first_decision)
          (decide_all-full qs (after_request q holds) d
            (after_request-some q holds d empty decides))
  ]

  take_decision-found :
      (holds : Holds) (held : Option ApprovalDecision)
      → find_hold id holds ≡ some held
      → (take_decision id holds).0 ≡ held
  unfolding take_decision
  take_decision-found holds none found = rw (found, take_decision) refl
  take_decision-found holds (some d) found = rw (found, take_decision) refl

  -- Where a handler waits with an empty channel, what it receives after any requests, to any ids,
  -- is the first of their decisions that is a POST about its id (which decide_id takes from the
  -- path) and allows or denies, and nothing where there is none.
  pub take_decision-first_decision :
      (qs : List Request) (holds : Holds)
      → find_hold id holds ≡ some none
      → (take_decision id (decide_all qs holds)).0 ≡ first_decision qs
  take_decision-first_decision qs holds empty =
      take_decision-found (decide_all qs holds) (first_decision qs)
        (find_hold-decide_all qs holds empty)

  -- Once the hold is closed, no request about its id is accepted.
  pub closed-refused :
      (q : Request) (holds : Holds)
      → IsAbout parse_int q.path id
      → is_accepted
          (handle_approval_decide parse_int q.is_post q.path q.body (close_hold id holds)).0
        ≡ false
  closed-refused q holds (t, found, number) =
      elim (handle_approval_decide-Outcome parse_int q.is_post q.path q.body
        (close_hold id holds)) [
          | inl (refused, never) ↦ refused.0
          | inr (n, d, r, _, _, _) ↦
              let (t', found', number') = r.about in
              let same_text = some-injective t' t (sym found' ∙ found) in
              let same = some-injective n id (sym number' ∙ ap parse_int same_text ∙ number) in
              absurd (
                some-ne-none none (
                  sym (subst (λ k. find_hold k (close_hold id holds) ≡ some none) same r.is_waiting)
                  ∙ find_hold-close_hold id holds))
        ]
