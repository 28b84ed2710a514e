-- ===== src/Collector/Listing/InFlight.antt =====
-- internal/db/db.go: the tool that a session is shown to work with.
use ccdash.Prelude.{
  ℕ, ◌≤◌, ◌≡◌, refl, sym, inl, inr, true, false, ◌&&◌, List, [], ◌∷◌, ◌++◌, some, Text, text_eq,
  text_eq_refl, leb, All, if◌then◌else◌, Bool-cases, arith,
}
use ccdash.Collector.Rows.{unix, Row}
use ccdash.Collector.Approvals.{
  EventType, Event, session_start, session_end, user_prompt, pre_tool, post_tool, post_tool_failure,
  permission_request, stop, notification, subagent_stop, append_event,
}
use ccdash.Collector.Listing.{
  is_active, is_work, is_pre_tool, last_work, is_prompt, turn_started, fill_work,
}

-- The events so far are no later than now.
abbrev pub AllPast : ℕ → List Event → Type 0
AllPast t = All (λ e. e.ts ≤ t)

-- An event that is not earlier than the others is the last.
last_work-append :
    (id : Text) (since t : ℕ) (events : List Event) (e : Event)
    → AllPast t events
    → e.ts ≡ t
    → text_eq e.session_id id ≡ true
    → leb since t ≡ true
    → is_work e.event_type ≡ true
    → last_work id since (events ++ e ∷ []) ≡ some e
unfolding last_work
last_work-append id since t [] e past now mine after work = rw (mine, now, after, work) refl
last_work-append id since t (x ∷ events) e past now mine after work =
    let rest = last_work-append id since t events e past.1 now mine after work in
    let newer : leb x.ts e.ts ≡ true = ground (arith, past.0, now) in
    elim (Bool-cases (text_eq x.session_id id && leb since x.ts && is_work x.event_type)) [
      | inl counts ↦ rw (counts, rest) (rw newer refl)
      | inr other ↦ rw (other, rest) refl
    ]

is_work-is_prompt : (kind : EventType) → is_work kind ≡ true → is_prompt kind ≡ false
is_work-is_prompt user_prompt h = sym h
is_work-is_prompt pre_tool h = refl
is_work-is_prompt post_tool h = refl
is_work-is_prompt post_tool_failure h = refl
is_work-is_prompt stop h = refl
is_work-is_prompt session_start h = refl
is_work-is_prompt session_end h = refl
is_work-is_prompt permission_request h = refl
is_work-is_prompt notification h = refl
is_work-is_prompt subagent_stop h = refl

-- An event that is no prompt starts no turn.
turn_started-append :
    (id : Text) (events : List Event) (e : Event)
    → is_work e.event_type ≡ true
    → turn_started id (events ++ e ∷ []) ≡ turn_started id events
unfolding turn_started
turn_started-append id [] e work = elim (Bool-cases (text_eq e.session_id id)) [
  | inl mine ↦ rw (mine, is_work-is_prompt e.event_type work) refl
  | inr other ↦ rw other refl
]
turn_started-append id (x ∷ events) e work = rw (turn_started-append id events e work) refl

turn_started-le :
    (id : Text) (t : ℕ) (events : List Event) → AllPast t events → turn_started id events ≤ t
unfolding turn_started
turn_started-le id t [] past = omega arith
turn_started-le id t (x ∷ events) past = ground (arith, past.0, turn_started-le id t events past.1)

-- If no event is later than now, then after a tool has begun in a running session, that is the tool
-- shown to be in flight, with its summary; after a tool has ended or failed, or the turn has
-- stopped, none is; and the start of the turn is what it was.
pub fill_work-append_event :
    (now : ℕ) (r : Row) (kind : EventType) (tool summary : Text) (events : List Event)
    → AllPast (unix now) events
    → is_active r.status ≡ true
    → is_work kind ≡ true
    → (let w = fill_work (append_event now r.session_id kind tool summary events) r in
        (w.turn_started_at ≡ turn_started r.session_id events)
        × (w.tool ≡ (if is_pre_tool kind then tool else []))
        × (w.tool_summary ≡ (if is_pre_tool kind then summary else [])))
unfolding fill_work append_event
fill_work-append_event now r kind tool summary events past running work =
    let id = r.session_id in
    let e : Event = record {
      session_id = id;
      ts = unix now;
      event_type = kind;
      tool = tool;
      summary = summary;
    } in
    let turn = turn_started-append id events e work in
    let after : leb (turn_started id events) (unix now) ≡ true =
      ground (arith, turn_started-le id (unix now) events past) in
    let last =
      last_work-append id (turn_started id events) (unix now) events e past refl (text_eq_refl id)
        after work in
    rw (running, turn, last)
      (elim (Bool-cases (is_pre_tool kind)) [
        | inl begins ↦ rw begins (refl, refl, refl)
        | inr over ↦ rw over (refl, refl, refl)
      ])
