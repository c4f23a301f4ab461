-- ===== src/Sink/Tests.antt =====
-- A run of one tool, and a finding that is reported twice.
use aicybersec.Common.{inl, ◌≡◌, refl, true, false, none, some, List, [], ◌∷◌, ◌++◌}
use aicybersec.Common.Text.{codes, text_eq, elem}
use aicybersec.Persistence.Json.{string, object, Dict, no_entries, entry, get_key}
use aicybersec.Sink.{ToolRun, running, RunEvent, completed, Tables, Sink, Python}
use aicybersec.Sink.Write.{
  persisted_event_type, without_step, params_at, remember_proposal, open_tool_run, close_tool_run,
  finish_latest, dispatch, handle, SinkCall, handle_all, running_row,
}
use aicybersec.Sink.Laws.{IsWritten, handle-IsWritten}
use aicybersec.Sink.Consistent.{IsConsistent, handle_all-IsConsistent}
use aicybersec.Sink.Closing.{IsClosed, handle-IsLatest}
use aicybersec.Sink.Proposals.{handle-handle}

abbrev py : Python
py = record { dumps = λ d. some []; sha256 = λ s. s; str = λ j. [] }

abbrev sink : Sink
sink = record { scan_id = 1; project_id = 2; initiated_by = codes "agent"; proposed = [] }

abbrev empty : Tables
empty = record { events = []; tool_runs = []; findings = []; assets = [] }

abbrev params : Dict
params = entry (codes "target") (string (codes "a.com")) no_entries

abbrev decision : Dict
decision =
    entry (codes "kind") (string (codes "tool_call"))
      (entry (codes "params") (object params) no_entries)

abbrev proposal : RunEvent
proposal = record {
  type = codes "decision.proposed";
  step = some 3;
  payload = entry (codes "decision") (object decision) no_entries;
}

abbrev start : RunEvent
start = record {
  type = codes "tool.started";
  step = some 3;
  payload = entry (codes "tool") (string (codes "nmap")) no_entries;
}

abbrev end : RunEvent
end = record {
  type = codes "tool.finished";
  step = some 3;
  payload =
      entry (codes "tool") (string (codes "nmap"))
        (entry (codes "status") (string (codes "ok")) no_entries);
}

abbrev finding : Dict
finding = entry (codes "title") (string (codes "Open port")) no_entries

abbrev report : RunEvent
report = record {
  type = codes "finding.recorded";
  step = none;
  payload = entry (codes "finding") (object finding) no_entries;
}

abbrev calls : List SinkCall
calls =
    record { event = proposal; now = 10; commits = true }
    ∷ record { event = start; now = 20; commits = true }
    ∷ record { event = end; now = 50; commits = true }
    ∷ []

tool_run :
    (handle_all py calls (sink, empty)).1.tool_runs
    ≡ record (running_row sink 20 (codes "nmap") params) {
      status = completed;
      ended_at = some 50;
      duration_ms = some 30;
    }
      ∷ []
unfolding handle_all handle dispatch persisted_event_type text_eq elem remember_proposal
    open_tool_run close_tool_run finish_latest params_at without_step get_key
tool_run = refl

handle_all-IsConsistent_example : IsConsistent (handle_all py calls (sink, empty)).1
handle_all-IsConsistent_example = handle_all-IsConsistent py calls sink empty ((tt, tt))

handle-IsWritten_example :
    IsWritten 1 empty (handle py 10 true report (sink, empty)).1
    × ((handle py 10 true report (sink, empty)).0.scan_id ≡ 1)
handle-IsWritten_example = handle-IsWritten py 10 true report sink empty

handle-handle_example :
    ((run : ToolRun) × ((handle py 20 true start
          (handle py 10 false proposal (sink, empty))).1.tool_runs
        ≡ (handle py 10 false proposal (sink, empty)).1.tool_runs ++ run ∷ [])
      × (run.parameters ≡ params)
      × (run.tool ≡ codes "nmap")
      × (run.status ≡ running)
      × (run.scan_id ≡ 1)
      × (run.initiated_by ≡ codes "agent")
      × (run.started_at ≡ some 20)
      × (run.ended_at ≡ none))
    × (params_at 3 (handle py 20 true start (handle py 10 false proposal (sink, empty))).0.proposed
        ≡ none)
unfolding get_key text_eq
handle-handle_example =
    handle-handle py 10 20 false proposal start 3 params (codes "nmap") sink empty
      (refl, refl, (decision, refl, refl, refl)) (refl, refl, refl)

abbrev started : Tables
started = record empty { tool_runs = running_row sink 20 (codes "nmap") params ∷ [] }

handle-IsLatest_example :
    IsClosed 1
      (codes "nmap")
      (codes "ok")
      50
      started.tool_runs
      (handle py 50 true end (sink, started)).1.tool_runs
unfolding get_key text_eq
handle-IsLatest_example =
    handle-IsLatest py 50 end sink started (codes "nmap") (codes "ok")
      (running_row sink 20 (codes "nmap") params) refl refl refl (inl refl) (refl, refl, refl)
