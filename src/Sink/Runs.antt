-- ===== src/Sink/Runs.antt =====
-- What one event does to the rows of `tool_runs`.
use aicybersec.Common.{
  ℕ, ◌≡◌, ◌≢◌, refl, sym, ap, ◌∙◌, inl, inr, true, false, Option, none, some, List, [], ◌∷◌, ◌++◌,
  All, Bool-cases, Option-cases, arith,
}
use mathlib.Core.Path.{subst}
use aicybersec.Common.Text.{Text, codes, text_eq}
use aicybersec.Common.Text.Laws.{text_eq_iff}
use aicybersec.Persistence.Json.{Dict}
use aicybersec.Sink.{
  RunEvent, RunState, running, completed, failed, timeout, cancelled, ToolRun, Tables, Sink, Python,
}
use aicybersec.Sink.Write.{
  has_status, is_running, is_open, finish_status, finished, finish_latest, close_for,
  close_tool_run, open_for, open_tool_run, tool_of,
}

-- A run that ended: it was of the scan and running, and only its status, summary, end and duration are
-- new.
abbrev pub IsEnd : ℕ → ToolRun → ToolRun → Type 0
IsEnd scan_id old new =
    (old.scan_id ≡ scan_id)
    × (old.status ≡ running)
    × (new.status ≢ running)
    × ((t : ℕ) × (new.ended_at ≡ some t))
    × (new ≡ record old {
      status = new.status;
      summary = new.summary;
      ended_at = new.ended_at;
      duration_ms = new.duration_ms;
    })

-- A row that is added: of the scan, running, and not ended.
abbrev pub IsStart : ℕ → ToolRun → Type 0
IsStart scan_id run = (run.scan_id ≡ scan_id) × (run.status ≡ running) × (run.ended_at ≡ none)

-- The rows stay, one starts, or the latest open one of a tool ends.
pub data RunsStep (scan_id : ℕ) : List ToolRun → List ToolRun → Type 0 where
  stays : (runs : List ToolRun) → RunsStep scan_id runs runs
  starts :
      (runs : List ToolRun) (run : ToolRun)
      → IsStart scan_id run
      → RunsStep scan_id runs (runs ++ run ∷ [])
  ends :
      (before after : List ToolRun) (old new : ToolRun)
      → IsEnd scan_id old new
      → All (λ run. is_open scan_id old.tool run ≡ false) after
      → RunsStep scan_id (before ++ old ∷ after) (before ++ new ∷ after)

finish_status-lem : (d : Dict) → finish_status d ≢ running
finish_status-lem d = λ h. elim (Bool-cases (has_status (codes "ok") d)) [
  | inl e ↦ absurd (not_running completed refl (rw e at h))
  | inr e ↦ elim (Bool-cases (has_status (codes "timeout") d)) [
    | inl f ↦ absurd (not_running timeout refl (rw (e, f) at h))
    | inr f ↦ absurd (not_running failed refl (rw (e, f) at h))
  ]
]
  where
    not_running : (s : RunState) → is_running s ≡ false → ¬ (s ≡ running)
    not_running s e q = absurd (let p = ap is_running q in cc)

-- The rows before the one that ends, that row, and those after it.
pub finish_latest-none :
    (scan_id : ℕ) (tool : Text) (finish : ToolRun → ToolRun) (runs : List ToolRun)
    → finish_latest scan_id tool finish runs ≡ none
    → All (λ run. is_open scan_id tool run ≡ false) runs
unfolding finish_latest
finish_latest-none scan_id tool finish [] h = tt
finish_latest-none scan_id tool finish (run ∷ runs) h =
    elim (Option-cases (finish_latest scan_id tool finish runs)) [
      | inr (rest, e) ↦ absurd (let q = rw e at h in cc)
      | inl e ↦ elim (Bool-cases (is_open scan_id tool run)) [
        | inl t ↦ absurd (let q = rw (e, t) at h in cc)
        | inr t ↦ (t, finish_latest-none scan_id tool finish runs e)
      ]
    ]

-- The shape of the rows in which the latest open one is finished.
abbrev pub IsLatest : ℕ → Text → (ToolRun → ToolRun) → List ToolRun → List ToolRun → Type 0
IsLatest scan_id tool finish runs out =
    (before : List ToolRun) × (old : ToolRun) × (after : List ToolRun) × (runs
      ≡ before ++ old ∷ after)
    × (out ≡ before ++ finish old ∷ after)
    × (is_open scan_id tool old ≡ true)
    × All (λ run. is_open scan_id tool run ≡ false) after

pub finish_latest-IsLatest :
    (scan_id : ℕ) (tool : Text) (finish : ToolRun → ToolRun) (runs out : List ToolRun)
    → finish_latest scan_id tool finish runs ≡ some out
    → IsLatest scan_id tool finish runs out
unfolding finish_latest
finish_latest-IsLatest scan_id tool finish [] out h = cc
finish_latest-IsLatest scan_id tool finish (run ∷ runs) out h =
    elim (Option-cases (finish_latest scan_id tool finish runs)) [
      | inr (rest, e) ↦
          let q : run ∷ rest ≡ out = cc (rw e at h) in
          let (before, old, after, a, b, o, later) =
            finish_latest-IsLatest scan_id tool finish runs rest e in
          (run ∷ before, old, after, ap (λ r. run ∷ r) a, sym q ∙ ap (λ r. run ∷ r) b, o, later)
      | inl e ↦ elim (Bool-cases (is_open scan_id tool run)) [
        | inr t ↦ absurd (let q = rw (e, t) at h in cc)
        | inl t ↦
            let q : finish run ∷ runs ≡ out = cc (rw (e, t) at h) in
            ([], run, runs, refl, sym q, t, finish_latest-none scan_id tool finish runs e)
      ]
    ]

pub is_open_lem :
    (scan_id : ℕ) (tool : Text) (run : ToolRun)
    → is_open scan_id tool run ≡ true
    → (run.scan_id ≡ scan_id) × (run.tool ≡ tool) × (run.status ≡ running)
is_open_lem scan_id tool run h =
    let t : text_eq run.tool tool ≡ true = ground arith in
    (ground arith, (text_eq_iff run.tool tool).0 t, go run.status (ground arith))
  where
    go : (s : RunState) → is_running s ≡ true → s ≡ running
    go running e = refl
    go completed e = cc
    go failed e = cc
    go timeout e = cc
    go cancelled e = cc

-- The rows after a tool's end: as they were, or with its latest open run ended.
pub close_tool_run-RunsStep :
    (py : Python) (now : ℕ) (e : RunEvent) (sink : Sink) (db : Tables)
    → RunsStep sink.scan_id db.tool_runs (close_tool_run py now e sink db).tool_runs
unfolding close_tool_run
close_tool_run-RunsStep py now e sink db = go (tool_of e)
  where
    go :
        (o : Option Text)
        → RunsStep sink.scan_id db.tool_runs (close_for py now e o sink db).tool_runs
    go none = stays db.tool_runs
    go (some tool) =
        let end = finished py now e.payload in
        elim (Option-cases (finish_latest sink.scan_id tool end db.tool_runs)) [
          | inl n ↦ rw n (stays db.tool_runs)
          | inr (out, n) ↦
              let (before, old, after, a, b, o, later) =
                finish_latest-IsLatest sink.scan_id tool end db.tool_runs out n in
              let (s, t, r) = is_open_lem sink.scan_id tool old o in
              let ended : IsEnd sink.scan_id old (end old) =
                (s, r, finish_status-lem e.payload, (now, refl), refl) in
              let rest =
                subst (λ (x : Text). All (λ run. is_open sink.scan_id x run ≡ false) after) (sym t)
                  later in
              rw n (
                subst (λ (x : List ToolRun). RunsStep sink.scan_id x out) (sym a)
                  (subst (RunsStep sink.scan_id (before ++ old ∷ after)) (sym b)
                    (ends before after old (end old) ended rest)))
        ]

-- A tool's start adds one row, or none where the event names no tool.
pub open_tool_run-RunsStep :
    (now : ℕ) (e : RunEvent) (sink : Sink) (db : Tables)
    → RunsStep sink.scan_id db.tool_runs (open_tool_run now e (sink, db)).1.tool_runs
unfolding open_tool_run
open_tool_run-RunsStep now e sink db = go (tool_of e)
  where
    go :
        (o : Option Text)
        → RunsStep sink.scan_id db.tool_runs (open_for now e o (sink, db)).1.tool_runs
    go none = stays db.tool_runs
    go (some tool) = starts db.tool_runs _ (refl, refl, refl)
