-- ===== src/Sink/Closing.antt =====
-- The end of a tool closes its run.
use aicybersec.Common.{
  ℕ, ◌-◌, ◌≡◌, ◌≢◌, refl, ap, ◌∙◌, ◌⊎◌, inl, inr, true, false, Option, none, some, or_else, List,
  [], ◌∷◌, ◌++◌, All, All-IsIn, IsIn, Option-cases, Bool-cases, ◌==◌, ==_iff,
}
use aicybersec.Common.Text.{Text, codes, text_eq, elem}
use aicybersec.Common.Text.Laws.{text_eq_iff}
use aicybersec.Persistence.Json.{Json, string, Dict, get_key}
use aicybersec.Persistence.Findings.{text_of}
use aicybersec.Sink.{
  RunEvent, RunState, running, completed, failed, timeout, ToolRun, Tables, Sink, Python,
}
use aicybersec.Sink.Write.{
  has_status, finish_status, is_running, duration, persisted_event_type, tool_of, is_open, finished,
  finish_latest, close_tool_run, dispatch, handle,
}
use aicybersec.Sink.Runs.{IsLatest, is_open_lem, finish_latest-none, finish_latest-IsLatest}

-- Where a run of the tool is open there is a latest one, and it is the one that ends.
or_else-IsLatest :
    (scan_id : ℕ) (tool : Text) (finish : ToolRun → ToolRun) (runs : List ToolRun) (run : ToolRun)
    → IsIn run runs
    → is_open scan_id tool run ≡ true
    → IsLatest scan_id tool finish runs (or_else (finish_latest scan_id tool finish runs) runs)
or_else-IsLatest scan_id tool finish runs run m o =
    elim (Option-cases (finish_latest scan_id tool finish runs)) [
      | inr (out, e) ↦ rw e (finish_latest-IsLatest scan_id tool finish runs out e)
      | inl e ↦
          let all = finish_latest-none scan_id tool finish runs e in
          absurd (let q = All-IsIn (λ r. is_open scan_id tool r ≡ false) run runs all m in cc)
    ]

-- A run of the tool in the scan that has not ended.
abbrev pub IsRunning : ℕ → Text → ToolRun → Type 0
IsRunning scan_id tool run = (run.scan_id ≡ scan_id) × (run.tool ≡ tool) × (run.status ≡ running)

-- The state that a status text stands for.
abbrev pub IsStatus : Text → RunState → Type 0
IsStatus s state =
    ((s ≡ codes "ok") × (state ≡ completed))
    ⊎ ((s ≡ codes "timeout") × (state ≡ timeout))
    ⊎ ((s ≢ codes "ok") × (s ≢ codes "timeout") × (state ≡ failed))

-- The duration of a run that ends now: from its start, where it has one.
abbrev pub IsDuration : ℕ → ToolRun → Option ℕ → Type 0
IsDuration now old d =
    ((old.started_at ≡ none) × (d ≡ old.duration_ms))
    ⊎ ((t : ℕ) × (old.started_at ≡ some t) × (d ≡ some (now - t)))

-- The rows in which the latest running one of the tool has ended with a status text.
abbrev pub IsClosed : ℕ → Text → Text → ℕ → List ToolRun → List ToolRun → Type 0
IsClosed scan_id tool s now runs out =
    (before : List ToolRun) × (old : ToolRun) × (new : ToolRun) × (after : List ToolRun) × (runs
      ≡ before ++ old ∷ after)
    × (out ≡ before ++ new ∷ after)
    × IsRunning scan_id tool old
    × All (λ run. ¬ IsRunning scan_id tool run) after
    × IsStatus s new.status
    × (new.ended_at ≡ some now)
    × IsDuration now old new.duration_ms
    × (new ≡ record old {
      status = new.status;
      summary = new.summary;
      ended_at = new.ended_at;
      duration_ms = new.duration_ms;
    })

IsRunning-is_open :
    (scan_id : ℕ) (tool : Text) (run : ToolRun)
    → IsRunning scan_id tool run
    → is_open scan_id tool run ≡ true
IsRunning-is_open scan_id tool run (s, t, r) =
    let a : (run.scan_id == scan_id) ≡ true = (==_iff run.scan_id scan_id).1 s in
    let b : text_eq run.tool tool ≡ true = (text_eq_iff run.tool tool).1 t in
    let c : is_running run.status ≡ true = rw r refl in rw (a, b, c) refl

none-IsRunning :
    (scan_id : ℕ) (tool : Text) (runs : List ToolRun)
    → All (λ run. is_open scan_id tool run ≡ false) runs
    → All (λ run. ¬ IsRunning scan_id tool run) runs
none-IsRunning scan_id tool [] h = tt
none-IsRunning scan_id tool (run ∷ runs) (n, h) =
    (λ r. let e = IsRunning-is_open scan_id tool run r in cc, none-IsRunning scan_id tool runs h)

has_status_lem :
    (value s : Text) (d : Dict)
    → get_key (codes "status") d ≡ string s
    → has_status value d ≡ text_eq s value
has_status_lem value s d e =
    ap (λ (j : Json). elim (text_of j) [ none ↦ false | some t ↦ text_eq t value ]) e

finish_status-IsStatus :
    (s : Text) (d : Dict) → get_key (codes "status") d ≡ string s → IsStatus s (finish_status d)
finish_status-IsStatus s d e =
    let same_ok = has_status_lem (codes "ok") s d e in
    let same_timeout = has_status_lem (codes "timeout") s d e in
    elim (Bool-cases (text_eq s (codes "ok"))) [
      | inl a ↦ rw (same_ok ∙ a) (inl ((text_eq_iff s (codes "ok")).0 a, refl))
      | inr a ↦ elim (Bool-cases (text_eq s (codes "timeout"))) [
        | inl b ↦
            rw (same_ok ∙ a, same_timeout ∙ b)
              (inr (inl ((text_eq_iff s (codes "timeout")).0 b, refl)))
        | inr b ↦
            rw (same_ok ∙ a, same_timeout ∙ b)
              (inr (inr (other (codes "ok") a, other (codes "timeout") b, refl)))
      ]
    ]
  where
    other : (t : Text) → text_eq s t ≡ false → s ≢ t
    other t f q = let same : text_eq s t ≡ true = (text_eq_iff s t).1 q in cc

duration-IsDuration :
    (now : ℕ) (old : ToolRun) → IsDuration now old (duration now old.started_at old.duration_ms)
duration-IsDuration now old = elim (Option-cases old.started_at) [
  | inl e ↦ rw e (inl (refl, refl))
  | inr (t, e) ↦ rw e (inr (t, refl, refl))
]

IsLatest-IsClosed :
    (py : Python) (scan_id : ℕ) (tool s : Text) (now : ℕ) (d : Dict) (runs out : List ToolRun)
    → get_key (codes "status") d ≡ string s
    → IsLatest scan_id tool (finished py now d) runs out
    → IsClosed scan_id tool s now runs out
IsLatest-IsClosed py scan_id tool s now d runs out g (before, old, after, a, b, o, later) = (
  before,
  old,
  finished py now d old,
  after,
  a,
  b,
  is_open_lem scan_id tool old o,
  none-IsRunning scan_id tool after later,
  finish_status-IsStatus s d g,
  refl,
  duration-IsDuration now old,
  refl,
)

-- A tool ends with a status text, a run of that tool in the scan is running, and the session commits.
-- Then the latest of these runs ends now: it is completed for "ok", timed out for "timeout", failed for
-- any other text, its duration is from its start, where it has one, its summary may change, and all
-- else of it and every other run stays.
pub handle-IsLatest :
    (py : Python) (now : ℕ) (e : RunEvent) (sink : Sink) (db : Tables) (tool s : Text)
    (run : ToolRun)
    → e.type ≡ codes "tool.finished"
    → tool_of e ≡ some tool
    → get_key (codes "status") e.payload ≡ string s
    → IsIn run db.tool_runs
    → IsRunning sink.scan_id tool run
    → IsClosed sink.scan_id tool s now db.tool_runs (handle py now true e (sink, db)).1.tool_runs
unfolding handle dispatch close_tool_run persisted_event_type text_eq elem
handle-IsLatest py now e sink db tool s run t o g m h =
    rw (t, o)
      (IsLatest-IsClosed py sink.scan_id tool s now e.payload db.tool_runs _ g (
        or_else-IsLatest sink.scan_id tool (finished py now e.payload) db.tool_runs run m
          (IsRunning-is_open sink.scan_id tool run h)))
