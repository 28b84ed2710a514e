-- ===== src/Collector/Approvals/Oldest.antt =====
-- internal/db/db.go: which approval is closed when a tool has run.
use ccdash.Prelude.{
  ℕ, ◌≤◌, ◌≡◌, ◌↔◌, refl, subst, sym, ap, ◌∙◌, inl, inr, Bool, true, false, List, [], ◌∷◌, ◌++◌,
  Option, none, some, Text, is_empty, text_eq_iff, All, true-ne-false, ◌⊎◌, ◌==◌, ltb, Bool-cases,
  Option-cases, arith,
}
use ccdash.Hub.State.Sound.{Apart, All-imp}
use ccdash.Collector.Rows.{unix}
use ccdash.Collector.Approvals.{
  ApprovalStatus, pending, approved, denied, timeout, resolved, failed, ApprovalRow, is_pending,
  waits_for, earlier, oldest_pending, close_where, resolve_oldest_pending_for_tool,
}

abbrev same_id : ApprovalRow → ApprovalRow → Bool
same_id a b = a.id == b.id

All-middle :
    (P : ApprovalRow → Type 0) (before : List ApprovalRow) (b : ApprovalRow)
    (after : List ApprovalRow)
    → All P (before ++ b ∷ after)
    → P b
All-middle P [] b after h = h.0
All-middle P (a ∷ before) b after h = All-middle P before b after h.1

module _ (status : ApprovalStatus) (now : ℕ) where
  abbrev closed : ApprovalRow → ApprovalRow
  closed b = record b { status = status; decided_at = unix now }

  close_where-away :
      (id : ℕ) (table : List ApprovalRow)
      → All (λ a. (a.id == id) ≡ false) table
      → close_where (λ a. a.id == id) status now table ≡ table
  unfolding close_where
  close_where-away id [] h = refl
  close_where-away id (a ∷ more) h = rw h.0 (ap (λ x. a ∷ x) (close_where-away id more h.1))

  -- Where ids differ, one row is closed.
  close_where-one :
      (before : List ApprovalRow) (b : ApprovalRow) (after : List ApprovalRow)
      → Apart same_id (before ++ b ∷ after)
      → close_where (λ a. a.id == b.id) status now (before ++ b ∷ after)
        ≡ before ++ closed b ∷ after
  unfolding close_where
  close_where-one [] b after apart =
      let same : (b.id == b.id) ≡ true = ground arith in
      let rest : All (λ a. (a.id == b.id) ≡ false) after =
        All-imp _ _ after (λ a h. ground (arith, h)) apart.0 in
      rw (same, close_where-away b.id after rest)
  close_where-one (a ∷ before) b after apart =
      rw (All-middle _ before b after apart.0)
        (ap (λ x. a ∷ x) (close_where-one before b after apart.1))

module _ (session tool : Text) where
  -- An approval of that session for that tool that nobody has decided.
  abbrev pub IsWaiting : ApprovalRow → Type 0
  IsWaiting a = (a.session_id ≡ session) × (a.tool ≡ tool) × (a.status ≡ pending)

  is_pending_iff : (s : ApprovalStatus) → (is_pending s ≡ true) ↔ (s ≡ pending)
  is_pending_iff pending = (λ h. refl, λ h. refl)
  is_pending_iff approved = (λ h. cc, λ h. cc)
  is_pending_iff denied = (λ h. cc, λ h. cc)
  is_pending_iff timeout = (λ h. cc, λ h. cc)
  is_pending_iff resolved = (λ h. cc, λ h. cc)
  is_pending_iff failed = (λ h. cc, λ h. cc)

  waits_for_iff : (a : ApprovalRow) → (waits_for session tool a ≡ true) ↔ IsWaiting a
  waits_for_iff a =
      ground
        (arith, text_eq_iff a.session_id session, text_eq_iff a.tool tool, is_pending_iff a.status)

  abbrev waits : ApprovalRow → Bool
  waits = waits_for session tool

  -- What a query has found: nothing that waits, or one that waits and came no later than the others.
  abbrev IsFound : List ApprovalRow → Option ApprovalRow → Type 0
  IsFound table none = All (λ c. waits c ≡ false) table
  IsFound table (some b) =
      (waits b ≡ true)
      × All (λ c. waits c ≡ true → b.ts ≤ c.ts) table
      × ((before : List ApprovalRow) × (after : List ApprovalRow) × (table ≡ before ++ b ∷ after))

  skip-IsFound :
      (a : ApprovalRow) (more : List ApprovalRow) (o : Option ApprovalRow)
      → waits a ≡ false
      → IsFound more o
      → IsFound (a ∷ more) o
  skip-IsFound a more none off found = (off, found)
  skip-IsFound a more (some b) off (w, least, (before, after, e)) = (
    w,
    (λ on. absurd (true-ne-false (sym on ∙ off)), least),
    (a ∷ before, after, ap (λ x. a ∷ x) e),
  )

  earlier-IsFound :
      (a : ApprovalRow) (more : List ApprovalRow) (o : Option ApprovalRow)
      → waits a ≡ true
      → IsFound more o
      → IsFound (a ∷ more) (earlier a o)
  earlier-IsFound a more none on found = (
    on,
    (λ _. omega arith, All-imp _ _ more (λ c off w. absurd (true-ne-false (sym w ∙ off))) found),
    ([], more, refl),
  )
  earlier-IsFound a more (some b) on (w, least, (before, after, e)) =
      elim (Bool-cases (ltb b.ts a.ts)) [
        | inl older ↦
            rw older
              (w, (λ _. ground (arith, older), least), (a ∷ before, after, ap (λ x. a ∷ x) e))
        | inr newer ↦ rw newer (
          on,
          (
            λ _. omega arith,
            All-imp _ _ more (λ c f k. (let l = f k in ground (arith, newer, l))) least,
          ),
          ([], more, refl),
        )
      ]

  oldest_pending-IsFound :
      (table : List ApprovalRow) → IsFound table (oldest_pending session tool table)
  unfolding oldest_pending
  oldest_pending-IsFound [] = tt
  oldest_pending-IsFound (a ∷ more) = elim (Bool-cases (waits a)) [
    | inl on ↦ rw on (earlier-IsFound a more _ on (oldest_pending-IsFound more))
    | inr off ↦ rw off (skip-IsFound a more _ off (oldest_pending-IsFound more))
  ]

  -- The approval `b` among the others, no later than any other of the session that waits for the tool.
  pub record IsOldest (table before : List ApprovalRow) (b : ApprovalRow) (after : List ApprovalRow)
      : Type 0 where
    pub splits : table ≡ before ++ b ∷ after
    pub is_waiting : IsWaiting b
    pub oldest : All (λ c. IsWaiting c → b.ts ≤ c.ts) table

  module _ (status : ApprovalStatus) (now : ℕ) where
    -- Where the approvals have different ids, closing the oldest one of a session and a tool that
    -- both have names does one of two things: no approval of the session is pending for the tool,
    -- and nothing changes; or one that is pending for the tool in the session, and no later than
    -- any other that is, gets the new status and the time, and all other approvals stay as they
    -- are, in their order.
    pub resolve_oldest_pending_for_tool_lem :
        (table : List ApprovalRow)
        → Apart same_id table
        → is_empty session ≡ false
        → is_empty tool ≡ false
        → (All (λ c. IsWaiting c → ⊥) table
            × (resolve_oldest_pending_for_tool now session tool status table ≡ table))
          ⊎ ((before : List ApprovalRow) × (b : ApprovalRow) × (after : List ApprovalRow) × IsOldest
                table before b after
              × (resolve_oldest_pending_for_tool now session tool status table
                  ≡ before ++ (record b { status = status; decided_at = unix now }) ∷ after))
    unfolding resolve_oldest_pending_for_tool
    resolve_oldest_pending_for_tool_lem table apart named tooled =
        elim (Option-cases (oldest_pending session tool table)) [
          | inl nobody ↦
              let off = subst (IsFound table) nobody (oldest_pending-IsFound table) in
              inl (
                All-imp _ _ table (λ c h w. true-ne-false (sym ((waits_for_iff c).1 w) ∙ h)) off,
                rw (named, tooled, nobody, resolve_oldest_pending_for_tool) refl,
              )
          | inr (b, found) ↦
              let (on, least, (before, after, e)) =
                subst (IsFound table) found (oldest_pending-IsFound table) in
              inr (
                before,
                b,
                after,
                record {
                  splits = e;
                  is_waiting = (waits_for_iff b).0 on;
                  oldest = All-imp _ _ table (λ c f w. f ((waits_for_iff c).1 w)) least;
                },
                rw (named, tooled, found, resolve_oldest_pending_for_tool)
                    (ap (close_where (λ a. a.id == b.id) status now) e
                      ∙ close_where-one status now before b after (subst (Apart same_id) e apart)),
              )
        ]
