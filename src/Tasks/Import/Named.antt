-- ===== src/Tasks/Import/Named.antt =====
-- internal/tasks/legacy.go: the map of the projects that the first loop of PlanImport makes.
use ccdash.Prelude.{
  ◌≡◌, refl, subst, sym, ap, ◌∙◌, inl, inr, Bool, true, false, ◌||◌, List, [], ◌∷◌, Option, none,
  some, Text, codes, text_eq, text_eq_iff, text_eq_refl, trim_space, is_empty, contains, All,
  or_right, if◌then◌else◌, Bool-cases, Option-cases, arith,
}
use ccdash.Hub.State.Sound.{All-imp}
use ccdash.Tasks.Task.{Task}
use ccdash.Tasks.Import.{
  ImportOptions, find, decide_project, Projects, plan_project, plan_projects, project_of,
}

module _ (opt : ImportOptions) (exists : Text → Bool) where
  -- The project of a task after the import: none for none; the one that the options map it to; itself
  -- where it exists or is to be created; else none.
  pub named : Text → Text
  named project =
      let old = trim_space project in
      if is_empty old then [] else elim (find old opt.map_to) [
        | some new ↦ trim_space new
        | none ↦ if exists old || text_eq opt.unmapped (codes "create") then trim_space old else []
      ]

  abbrev or_none : Option Text → Text
  or_none none = []
  or_none (some new) = new

  abbrev outcome : Text → Text
  outcome old = or_none (decide_project opt exists old)

  named_lem :
      (project : Text)
      → is_empty (trim_space project) ≡ false
      → outcome (trim_space project) ≡ named project
  unfolding decide_project named
  named_lem project some_text = elim (Option-cases (find (trim_space project) opt.map_to)) [
    | inr (new, found) ↦ rw (found, some_text, decide_project) refl
    | inl unmapped ↦ rw (unmapped, some_text, decide_project) (ground arith)
  ]

  -- The map tells of each project that was seen what was decided, and of no other.
  record IsTold (seen : List Text) (m : List (Text × Text)) : Type 0 where
    tells : (k : Text) → or_none (find k m) ≡ (if contains seen k then outcome k else [])
    no_empty : contains seen [] ≡ false

  not_empty : (old : Text) → is_empty old ≡ false → text_eq old [] ≡ false
  unfolding text_eq
  not_empty [] h = cc
  not_empty (c ∷ s) h = refl

  module _ (seen : List Text) (m : List (Text × Text)) (old : Text)
      (fresh : contains seen old ≡ false) (some_text : is_empty old ≡ false)
      (told : IsTold seen m) where
    none_yet : or_none (find old m) ≡ []
    none_yet = told.tells old ∙ ap (λ b. if b then outcome old else []) fresh

    IsTold-undecided : decide_project opt exists old ≡ none → IsTold (old ∷ seen) m
    unfolding contains
    IsTold-undecided not_yet = record {
      tells = λ k. elim (Bool-cases (text_eq old k)) [
        | inl mine ↦
            let e = (text_eq_iff old k).0 mine in
            rw mine
              (subst (λ k. or_none (find k m) ≡ outcome k) e (none_yet ∙ sym (ap or_none not_yet)))
        | inr away ↦ rw away (told.tells k)
      ];
      no_empty = rw (not_empty old some_text) told.no_empty;
    }

    IsTold-decided :
        (new : Text)
        → decide_project opt exists old ≡ some new
        → IsTold (old ∷ seen) ((old, new) ∷ m)
    unfolding contains find
    IsTold-decided new is = record {
      tells = λ k. elim (Bool-cases (text_eq old k)) [
        | inl mine ↦
            let e = (text_eq_iff old k).0 mine in
            rw mine (subst (λ k. new ≡ outcome k) e (sym (ap or_none is)))
        | inr away ↦ rw away (told.tells k)
      ];
      no_empty = rw (not_empty old some_text) told.no_empty;
    }

  abbrev Told : Projects → Type 0
  Told p = IsTold p.seen p.mapping

  plan_project-Told : (p : Projects) (t : Task) → Told p → Told (plan_project opt exists p t)
  unfolding plan_project
  plan_project-Told p t told = elim (Bool-cases (is_empty (trim_space t.project))) [
    | inl nothing ↦ rw (nothing) told
    | inr some_text ↦ elim (Bool-cases (contains p.seen (trim_space t.project))) [
      | inl again ↦ rw (some_text, again) told
      | inr fresh ↦ elim (Option-cases (decide_project opt exists (trim_space t.project))) [
        | inl open_still ↦
            rw (some_text, fresh, open_still)
              (IsTold-undecided p.seen p.mapping (trim_space t.project) fresh some_text told
                open_still)
        | inr (new, is) ↦
            rw (some_text, fresh, is)
              (IsTold-decided p.seen p.mapping (trim_space t.project) fresh some_text told new is)
      ]
    ]
  ]

  abbrev seen_then : List Text → Text → List Text
  seen_then seen old = if is_empty old then seen else if contains seen old then seen else old ∷ seen

  seen-plan_project :
      (p : Projects) (t : Task)
      → (plan_project opt exists p t).seen ≡ seen_then p.seen (trim_space t.project)
  unfolding plan_project
  seen-plan_project p t = elim (Bool-cases (is_empty (trim_space t.project))) [
    | inl nothing ↦ rw nothing refl
    | inr some_text ↦ elim (Bool-cases (contains p.seen (trim_space t.project))) [
      | inl again ↦ rw (some_text, again) refl
      | inr fresh ↦ elim (Option-cases (decide_project opt exists (trim_space t.project))) [
        | inl open_still ↦ rw (some_text, fresh, open_still) refl
        | inr (new, is) ↦ rw (some_text, fresh, is) refl
      ]
    ]
  ]

  -- What was seen is not forgotten, and a task's project has been seen after it.
  seen_then-kept :
      (seen : List Text) (old k : Text)
      → contains seen k ≡ true
      → contains (seen_then seen old) k ≡ true
  unfolding contains
  seen_then-kept seen old k h = elim (Bool-cases (is_empty old)) [
    | inl nothing ↦ rw nothing h
    | inr some_text ↦ elim (Bool-cases (contains seen old)) [
      | inl again ↦ rw (some_text, again) h
      | inr fresh ↦ rw (some_text, fresh) (or_right (text_eq old k) (contains seen k) h)
    ]
  ]

  seen_then-new :
      (seen : List Text) (old : Text)
      → is_empty old ≡ false
      → contains (seen_then seen old) old ≡ true
  unfolding contains
  seen_then-new seen old h = elim (Bool-cases (contains seen old)) [
    | inl again ↦ rw (h, again) again
    | inr fresh ↦ rw (h, fresh, text_eq_refl old) refl
  ]

  plan_projects-kept :
      (p : Projects) (ts : List Task) (k : Text)
      → contains p.seen k ≡ true
      → contains (plan_projects opt exists p ts).seen k ≡ true
  unfolding plan_projects
  plan_projects-kept p [] k h = h
  plan_projects-kept p (t ∷ ts) k h = plan_projects-kept (plan_project opt exists p t) ts k (
      ap (λ s. contains s k) (seen-plan_project p t)
      ∙ seen_then-kept p.seen (trim_space t.project) k h)

  plan_projects-seen :
      (p : Projects) (ts : List Task)
      → All
          (λ t.
            is_empty (trim_space t.project) ≡ false
            → contains (plan_projects opt exists p ts).seen (trim_space t.project) ≡ true)
          ts
  unfolding plan_projects
  plan_projects-seen p [] = tt
  plan_projects-seen p (t ∷ ts) = (
    λ h. plan_projects-kept (plan_project opt exists p t) ts (trim_space t.project) (
        ap (λ s. contains s (trim_space t.project)) (seen-plan_project p t)
        ∙ seen_then-new p.seen (trim_space t.project) h),
    plan_projects-seen (plan_project opt exists p t) ts,
  )

  plan_projects-Told :
      (p : Projects) (ts : List Task) → Told p → Told (plan_projects opt exists p ts)
  unfolding plan_projects
  plan_projects-Told p [] told = told
  plan_projects-Told p (t ∷ ts) told =
      plan_projects-Told (plan_project opt exists p t) ts (plan_project-Told p t told)

  is_empty-nil : (s : Text) → is_empty s ≡ true → s ≡ []
  is_empty-nil [] h = refl
  is_empty-nil (c ∷ s) h = cc

  find-or_none :
      (m : List (Text × Text)) (project : Text)
      → project_of m project ≡ or_none (find (trim_space project) m)
  unfolding project_of
  find-or_none m project = elim (Option-cases (find (trim_space project) m)) [
    | inl nothing ↦ rw (nothing, project_of) refl
    | inr (new, found) ↦ rw (found, project_of) refl
  ]

  project_of-named :
      (seen : List Text) (m : List (Text × Text)) (project : Text)
      → IsTold seen m
      → (is_empty (trim_space project) ≡ false → contains seen (trim_space project) ≡ true)
      → project_of m project ≡ named project
  unfolding named
  project_of-named seen m project told met =
      let old = trim_space project in
      elim (Bool-cases (is_empty old)) [
        | inl nothing ↦
            let unseen : contains seen old ≡ false =
              ap (contains seen) (is_empty-nil old nothing) ∙ told.no_empty in
            let no_project : [] ≡ named project = rw nothing refl in
            find-or_none m project
            ∙ told.tells old
            ∙ ap (λ b. if b then outcome old else []) unseen
            ∙ no_project
        | inr some_text ↦
            find-or_none m project
            ∙ told.tells old
            ∙ ap (λ b. if b then outcome old else []) (met some_text)
            ∙ named_lem project some_text
      ]

  -- The map that the first loop leaves gives every task the project that the options name for it.
  pub plan_projects-named :
      (ts : List Task)
      → let p =
          plan_projects opt exists
            (record { mapping = []; create = []; undecided = []; seen = [] })
            ts in
        All (λ t. project_of p.mapping t.project ≡ named t.project) ts
  unfolding contains find
  plan_projects-named ts =
      let start : Projects = record { mapping = []; create = []; undecided = []; seen = [] } in
      let p = plan_projects opt exists start ts in
      let told = plan_projects-Told start ts (record { tells = λ k. refl; no_empty = refl }) in
      All-imp _ _ ts (λ t met. project_of-named p.seen p.mapping t.project told met)
        (plan_projects-seen start ts)
