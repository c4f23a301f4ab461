-- ===== src/Sink/Write.antt =====
-- `_persisted_event_type` and the methods of `DatabaseEventSink`.
use aicybersec.Common.{
  ℕ, ◌-◌, Bool, true, false, ◌&&◌, Option, none, some, or_else, List, [], ◌∷◌, ◌++◌, take,
  if◌then◌else◌, ◌==◌,
}
use aicybersec.Common.Text.{Text, codes, text_eq, elem}
use aicybersec.Persistence.Builders.{nonempty_text}
use aicybersec.Persistence.Json.{
  Json, string, object, Dict, no_entries, get_key, sanitize_event_data,
}
use aicybersec.Persistence.Findings.{FindingRow, text_of}
use aicybersec.Persistence.Insert.{persist_finding}
use aicybersec.Persistence.Decode.{shown, live_finding}
use aicybersec.Sink.{
  RunEvent, RunState, running, completed, failed, timeout, ToolRun, AgentEvent, Tables, Sink,
  Python,
}

-- `str(data.get("status")) == value`
abbrev pub has_status : Text → Dict → Bool
has_status value d = elim (text_of (get_key (codes "status") d)) [
  | none ↦ false
  | some s ↦ text_eq s value
]

-- The keys of `_EVENT_TRANSLATION` whose value is None.
abbrev pub skipped_types : List Text
skipped_types =
    codes "run.started" ∷ codes "run.finished" ∷ codes "run.failed" ∷ codes "step.started" ∷ []

-- `_persisted_event_type`
unfoldable pub persisted_event_type : Text → Dict → Option Text
persisted_event_type t d =
    if elem t skipped_types
    then none
    else if text_eq t (codes "tool.started")
    then some (codes "tool_started")
    else if text_eq t (codes "finding.recorded")
    then some (codes "finding_created")
    else if text_eq t (codes "tool.finished")
    then some (if has_status (codes "ok") d then codes "tool_completed" else codes "tool_failed")
    else if text_eq t (codes "decision.proposed")
    then some (codes "agent_decision")
    else if text_eq t (codes "decision.rejected")
    then some (codes "agent_observation")
    else some t

-- A dict without the key of a step, and its value there.
unfoldable pub without_step : ℕ → List (ℕ × Dict) → List (ℕ × Dict)
without_step n [] = []
without_step n ((k, d) ∷ ps) =
    let rest = without_step n ps in if k == n then rest else (k, d) ∷ rest

unfoldable pub params_at : ℕ → List (ℕ × Dict) → Option Dict
params_at n [] = none
params_at n ((k, d) ∷ ps) = let rest = params_at n ps in if k == n then some d else rest

abbrev pub set_params : ℕ → Dict → List (ℕ × Dict) → List (ℕ × Dict)
set_params n d ps = (n, d) ∷ without_step n ps

abbrev pub is_tool_call : Json → Bool
is_tool_call (string s) = text_eq s (codes "tool_call")
is_tool_call _ = false

abbrev pub keep_params : Option ℕ → Json → List (ℕ × Dict) → List (ℕ × Dict)
keep_params (some n) (object params) ps = set_params n params ps
keep_params _ _ ps = ps

abbrev pub remember_decision : Option ℕ → Json → List (ℕ × Dict) → List (ℕ × Dict)
remember_decision step (object d) ps =
    if is_tool_call (get_key (codes "kind") d)
    then keep_params step (get_key (codes "params") d) ps
    else ps
remember_decision step _ ps = ps

-- `_remember_proposal`
unfoldable pub remember_proposal : RunEvent → Sink → Sink
remember_proposal e sink = record sink {
  proposed = remember_decision e.step (get_key (codes "decision") e.payload) sink.proposed;
}

-- The tool of an event, where that is a text that is not empty.
abbrev pub tool_of : RunEvent → Option Text
tool_of e = nonempty_text (text_of (get_key (codes "tool") e.payload))

abbrev pub params_of : Option ℕ → List (ℕ × Dict) → Dict
params_of none ps = no_entries
params_of (some n) ps = or_else (params_at n ps) no_entries

abbrev pub pop_step : Option ℕ → List (ℕ × Dict) → List (ℕ × Dict)
pop_step none ps = ps
pop_step (some n) ps = without_step n ps

abbrev pub running_row : Sink → ℕ → Text → Dict → ToolRun
running_row sink now tool params = record {
  scan_id = sink.scan_id;
  tool = take 50 tool;
  status = running;
  initiated_by = sink.initiated_by;
  parameters = params;
  summary = none;
  started_at = some now;
  ended_at = none;
  duration_ms = none;
}

abbrev pub open_for : ℕ → RunEvent → Option Text → Sink × Tables → Sink × Tables
open_for now e none (sink, db) = (sink, db)
open_for now e (some tool) (sink, db) = (
  record sink { proposed = pop_step e.step sink.proposed },
  record db {
    tool_runs = db.tool_runs ++ running_row sink now tool (params_of e.step sink.proposed) ∷ [];
  },
)

-- `_open_tool_run`
unfoldable pub open_tool_run : ℕ → RunEvent → Sink × Tables → Sink × Tables
open_tool_run now e w = open_for now e (tool_of e) w

abbrev pub is_running : RunState → Bool
is_running running = true
is_running _ = false

abbrev pub is_open : ℕ → Text → ToolRun → Bool
is_open scan_id tool run = run.scan_id == scan_id && text_eq run.tool tool && is_running run.status

-- `_FINISH_STATUS`, and failed where it has no key.
abbrev pub finish_status : Dict → RunState
finish_status d =
    if has_status (codes "ok") d
    then completed
    else if has_status (codes "timeout") d
    then timeout
    else failed

abbrev pub duration : ℕ → Option ℕ → Option ℕ → Option ℕ
duration now none old = old
duration now (some started) old = some (now - started)

abbrev pub cut_to : ℕ → Option Text → Option Text
cut_to n none = none
cut_to n (some s) = some (take n s)

abbrev pub finished : Python → ℕ → Dict → ToolRun → ToolRun
finished py now d run = record run {
  status = finish_status d;
  summary = cut_to 2000 (shown py.str (get_key (codes "summary") d));
  ended_at = some now;
  duration_ms = duration now run.started_at run.duration_ms;
}

-- The rows where the latest of the open ones is finished, None where there is none.
unfoldable pub finish_latest : ℕ → Text → (ToolRun → ToolRun) → List ToolRun → Option (List ToolRun)
finish_latest scan_id tool finish [] = none
finish_latest scan_id tool finish (run ∷ runs) =
    let later = finish_latest scan_id tool finish runs in
    elim later [
      | some rest ↦ some (run ∷ rest)
      | none ↦ if is_open scan_id tool run then some (finish run ∷ runs) else none
    ]

abbrev pub close_for : Python → ℕ → RunEvent → Option Text → Sink → Tables → Tables
close_for py now e none sink db = db
close_for py now e (some tool) sink db = record db {
  tool_runs =
      or_else (finish_latest sink.scan_id tool (finished py now e.payload) db.tool_runs)
        db.tool_runs;
}

-- `_close_tool_run`
unfoldable pub close_tool_run : Python → ℕ → RunEvent → Sink → Tables → Tables
close_tool_run py now e sink db = close_for py now e (tool_of e) sink db

abbrev pub add_finding : Option FindingRow → Tables → Option Tables
add_finding none db = none
add_finding (some row) db = some (record db { findings = db.findings ++ row ∷ [] })

-- The event of a finding, beyond its own row; None where `persist_finding` rolls back.
abbrev pub store_finding : Python → Sink → Json → Tables → Option Tables
store_finding py sink (object d) db =
    add_finding
      (persist_finding py.sha256 sink.scan_id sink.project_id db.assets db.findings
        (live_finding py.str d))
      db
store_finding py sink _ db = some db

abbrev pub some_tables : Sink × Tables → Sink × Option Tables
some_tables (sink, db) = (sink, some db)

unfoldable pub dispatch : Python → ℕ → RunEvent → Sink → Tables → Sink × Option Tables
dispatch py now e sink db =
    if text_eq e.type (codes "decision.proposed")
    then (remember_proposal e sink, some db)
    else if text_eq e.type (codes "tool.started")
    then some_tables (open_tool_run now e (sink, db))
    else if text_eq e.type (codes "tool.finished")
    then (sink, some (close_tool_run py now e sink db))
    else if text_eq e.type (codes "finding.recorded")
    then (sink, store_finding py sink (get_key (codes "finding") e.payload) db)
    else (sink, some db)

abbrev pub event_row : Python → Sink → RunEvent → Text → AgentEvent
event_row py sink e t = record {
  scan_id = sink.scan_id;
  event_type = t;
  step = e.step;
  payload = sanitize_event_data py.dumps e.payload;
}

abbrev pub add_event : Python → Sink → RunEvent → Option Text → Tables → Tables
add_event py sink e none db = db
add_event py sink e (some t) db = record db { events = db.events ++ event_row py sink e t ∷ [] }

-- After the session: a rollback also takes back the event's own row.
abbrev pub commit : Bool → Tables → Option Tables → Tables
commit true old (some new) = new
commit _ old _ = old

-- `handle`, with whether the session's commit succeeds. An exception of `_write` is logged.
unfoldable pub handle : Python → ℕ → Bool → RunEvent → Sink × Tables → Sink × Tables
handle py now commits e (sink, db) =
    let row = persisted_event_type e.type e.payload in
    let (next, staged) = dispatch py now e sink (add_event py sink e row db) in
    (next, commit commits db staged)

-- One call of `handle`: the event, the time, and whether the commit succeeds.
pub record SinkCall : Type 0 where
  pub event : RunEvent
  pub now : ℕ
  pub commits : Bool

unfoldable pub handle_all : Python → List SinkCall → Sink × Tables → Sink × Tables
handle_all py [] w = w
handle_all py (c ∷ cs) w = handle_all py cs (handle py c.now c.commits c.event w)
