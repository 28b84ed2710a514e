-- ===== src/Server/Restart/Waits.antt =====
-- When a scheduled restart is made, and when it is not.
use ccdash.Prelude.{
  ℕ, ◌+◌, ◌-◌, ◌≤◌, ◌<◌, ◌≡◌, ◌⊎◌, refl, sym, ap, ◌∙◌, inl, inr, max, Bool, true, false, List, [],
  ◌∷◌, ◌++◌, Option, none, some, Text, All, arith, ltb, if◌then◌else◌, Bool-cases,
}
use ccdash.Server.Restart.{
  RestartSchedule, Server, Ending, ends, waits, ready, restart_quiet, restart_max_timeout,
  timeout_of, schedule_restart, cancel_scheduled_restart, idle_since, idle_round, look, looks,
  commit,
}

-- Whatever number of minutes is asked for, negative and overflowing ones too, the wait is more than
-- nothing and at most a day.
pub timeout_of-bounds :
    (minutes : ℕ) → (0 < timeout_of minutes) × (timeout_of minutes ≤ restart_max_timeout)
unfolding timeout_of
timeout_of-bounds minutes = ground arith

-- To ask while a restart is pending starts no second loop and keeps the schedule, since when and by
-- whom; its deadline does not come earlier, and does not come later than the old one and a day from
-- now.
pub schedule_restart-pending :
    (minutes : ℕ) (by : Text) (now : ℕ) (s : Server) (p : RestartSchedule)
    → s.sched ≡ some p
    → (q : RestartSchedule) × ((schedule_restart minutes by now s).0.sched ≡ some q)
      × (q.ident ≡ p.ident)
      × (q.since ≡ p.since)
      × (q.by ≡ p.by)
      × (p.deadline ≤ q.deadline)
      × (q.deadline ≤ max p.deadline (now + restart_max_timeout))
      × ((schedule_restart minutes by now s).1 ≡ false)
unfolding schedule_restart
schedule_restart-pending minutes by now s p e = (
  record p { deadline = max p.deadline (now + timeout_of minutes) },
  ground arith,
  refl,
  refl,
  refl,
  omega arith,
  omega (arith, timeout_of-bounds minutes),
  ground arith,
)

-- After a pending schedule, whose identity is below the next one, is cancelled, the wait loop that
-- had looked at it makes no restart and changes nothing, also when another restart has been
-- scheduled since.
pub commit-cancelled :
    (why : Option Ending) (minutes : ℕ) (by : Text) (now later : ℕ) (s : Server)
    (p : RestartSchedule)
    → s.sched ≡ some p
    → p.ident < s.fresh
    → let s1 = (cancel_scheduled_restart why now s).0 in
      let s2 = (schedule_restart minutes by later s1).0 in
      (commit p.ident s1 ≡ (s1, false)) × (commit p.ident s2 ≡ (s2, false))
unfolding commit cancel_scheduled_restart schedule_restart
commit-cancelled none minutes by now later s p e h = (ground arith, ground arith)
commit-cancelled (some w) minutes by now later s p e h = (ground arith, ground arith)

abbrev pub Looks : Type 0
Looks = List (ℕ × Bool)

abbrev pub AllIdle : Looks → Type 0
AllIdle = All (λ l. l.1 ≡ false)

-- After some looks, all were idle up to one at a time that is long enough after `from`, and before the
-- deadline.
pub record QuietFrom (from deadline : ℕ) (run : Looks) : Type 0 where
  pub idle : Looks
  pub end : ℕ
  pub rest : Looks
  pub run_is : run ≡ idle ++ ((end, false) ∷ rest)
  pub all_idle : AllIdle idle
  pub long : restart_quiet ≤ end - from
  pub in_time : end ≤ deadline

-- Somewhere in the looks such a stretch begins, with an idle one.
pub record QuietStretch (deadline : ℕ) (run : Looks) : Type 0 where
  pub earlier : Looks
  pub from : ℕ
  pub stretch : Looks
  pub run_is : run ≡ earlier ++ ((from, false) ∷ stretch)
  pub quiet : QuietFrom from deadline stretch

-- What the loop has seen when it restarts, by what it had seen before.
abbrev Seen : ℕ → Option ℕ → Looks → Type 0
Seen deadline none run = QuietStretch deadline run
Seen deadline (some c) run = QuietFrom c deadline run ⊎ QuietStretch deadline run

later_stretch :
    (deadline : ℕ) (l : ℕ × Bool) (run : Looks)
    → QuietStretch deadline run
    → QuietStretch deadline (l ∷ run)
later_stretch deadline l run q = record {
  earlier = l ∷ q.earlier;
  from = q.from;
  stretch = q.stretch;
  run_is = ap (λ r. l ∷ r) q.run_is;
  quiet = q.quiet;
}

later_quiet :
    (c deadline now : ℕ) (run : Looks)
    → QuietFrom c deadline run
    → QuietFrom c deadline ((now, false) ∷ run)
later_quiet c deadline now run q = record {
  idle = (now, false) ∷ q.idle;
  end = q.end;
  rest = q.rest;
  run_is = ap (λ r. (now, false) ∷ r) q.run_is;
  all_idle = (refl, q.all_idle);
  long = q.long;
  in_time = q.in_time;
}

module _ (s : Server) (p : RestartSchedule) (pending : s.sched ≡ some p) where
  look_busy :
      (clear : Option ℕ) (now : ℕ)
      → (look clear now true s).1 ≡ (if ltb p.deadline now then ends else waits none)
  unfolding look
  look_busy clear now = ground arith

  look_idle :
      (clear : Option ℕ) (now : ℕ)
      → (look clear now false s).1
        ≡ (if ltb p.deadline now then ends else idle_round p.ident clear now)
  unfolding look
  look_idle clear now = ground arith

  step_waits :
      (clear c : Option ℕ) (now : ℕ) (busy : Bool) (run : Looks)
      → (look clear now busy s).1 ≡ waits c
      → looks clear ((now, busy) ∷ run) s ≡ looks c run s
  unfolding looks
  step_waits clear c now busy run e = rw (e, looks)

  step_ends :
      (clear : Option ℕ) (now : ℕ) (busy : Bool) (run : Looks)
      → (look clear now busy s).1 ≡ ends
      → looks clear ((now, busy) ∷ run) s ≡ ends
  unfolding looks
  step_ends clear now busy run e = rw (e, looks)

  step_ready :
      (clear : Option ℕ) (now i : ℕ) (busy : Bool) (run : Looks)
      → (look clear now busy s).1 ≡ ready i
      → looks clear ((now, busy) ∷ run) s ≡ ready i
  unfolding looks
  step_ready clear now i busy run e = rw (e, looks)

  -- A loop that comes to a restart was not late at its first look.
  first_in_time :
      (clear : Option ℕ) (now : ℕ) (busy : Bool) (run : Looks) (ident : ℕ)
      → looks clear ((now, busy) ∷ run) s ≡ ready ident
      → ltb p.deadline now ≡ false
  first_in_time clear now true run ident h =
      ground (arith, step_ends clear now true run, look_busy clear now)
  first_in_time clear now false run ident h =
      ground (arith, step_ends clear now false run, look_idle clear now)

  after_busy :
      (clear : Option ℕ) (now : ℕ) (run : Looks) (ident : ℕ)
      → looks clear ((now, true) ∷ run) s ≡ ready ident
      → looks none run s ≡ ready ident
  after_busy clear now run ident h =
      let t = first_in_time clear now true run ident h in
      let e : (look clear now true s).1 ≡ waits none = look_busy clear now ∙ rw t in
      sym (step_waits clear none now true run e) ∙ h

  after_first_idle :
      (now : ℕ) (run : Looks) (ident : ℕ)
      → looks none ((now, false) ∷ run) s ≡ ready ident
      → looks (some now) run s ≡ ready ident
  after_first_idle now run ident h =
      let t = first_in_time none now false run ident h in
      let e : (look none now false s).1 ≡ waits (some now) =
        look_idle none now ∙ rw t (unfold idle_round idle_since in ground arith) in
      sym (step_waits none (some now) now false run e) ∙ h

  -- One more idle look: long enough since the first, or not yet.
  after_idle :
      (c now : ℕ) (run : Looks) (ident : ℕ)
      → looks (some c) ((now, false) ∷ run) s ≡ ready ident
      → ((restart_quiet ≤ now - c) × (ident ≡ p.ident)) ⊎ (looks (some c) run s ≡ ready ident)
  after_idle c now run ident h =
      let t = first_in_time (some c) now false run ident h in
      elim (Bool-cases (ltb (now - c) restart_quiet)) [
        | inl short ↦
            let e : (look (some c) now false s).1 ≡ waits (some c) =
              look_idle (some c) now ∙ rw t (unfold idle_round idle_since in rw short) in
            inr (sym (step_waits (some c) (some c) now false run e) ∙ h)
        | inr long ↦
            let e : (look (some c) now false s).1 ≡ ready p.ident =
              look_idle (some c) now ∙ rw t (unfold idle_round idle_since in rw long) in
            let k : ready p.ident ≡ ready ident =
              sym (step_ready (some c) now p.ident false run e) ∙ h in
            inl (ground arith, ground arith)
      ]

  looks-Seen :
      (clear : Option ℕ) (run : Looks) (ident : ℕ)
      → looks clear run s ≡ ready ident
      → (ident ≡ p.ident) × Seen p.deadline clear run
  looks-Seen clear [] ident h = absurd (unfold looks in ground arith)
  looks-Seen none ((now, true) ∷ run) ident h =
      let (i, q) = looks-Seen none run ident (after_busy none now run ident h) in
      (i, later_stretch p.deadline (now, true) run q)
  looks-Seen (some c) ((now, true) ∷ run) ident h =
      let (i, q) = looks-Seen none run ident (after_busy (some c) now run ident h) in
      (i, inr (later_stretch p.deadline (now, true) run q))
  looks-Seen none ((now, false) ∷ run) ident h =
      let (i, q) = looks-Seen (some now) run ident (after_first_idle now run ident h) in
      (i, first_or_later now run q)
    where
      first_or_later :
          (now : ℕ) (run : Looks)
          → Seen p.deadline (some now) run
          → Seen p.deadline none ((now, false) ∷ run)
      first_or_later now run (inl q) = record {
        earlier = [];
        from = now;
        stretch = run;
        run_is = refl;
        quiet = q;
      }
      first_or_later now run (inr q) = later_stretch p.deadline (now, false) run q
  looks-Seen (some c) ((now, false) ∷ run) ident h = elim (after_idle c now run ident h) [
    | inl (long, i) ↦ (
      i,
      inl (record {
        idle = [];
        end = now;
        rest = run;
        run_is = refl;
        all_idle = tt;
        long = long;
        in_time = ground (arith, first_in_time (some c) now false run ident h);
      }),
    )
    | inr more ↦ let (i, q) = looks-Seen (some c) run ident more in (i, longer q)
  ]
    where
      longer : Seen p.deadline (some c) run → Seen p.deadline (some c) ((now, false) ∷ run)
      longer (inl q) = inl (later_quiet c p.deadline now run q)
      longer (inr q) = inr (later_stretch p.deadline (now, false) run q)

-- While one schedule is pending, the wait loop comes to a restart only for that schedule, and only
-- after a run of looks that were all idle, over at least four seconds, the last of them not after
-- the deadline.
pub looks-QuietStretch :
    (s : Server) (p : RestartSchedule) (run : Looks) (ident : ℕ)
    → s.sched ≡ some p
    → looks none run s ≡ ready ident
    → (ident ≡ p.ident) × QuietStretch p.deadline run
looks-QuietStretch s p run ident e h = looks-Seen s p e none run ident h
