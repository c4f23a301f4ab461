-- ===== src/Sink/Laws.antt =====
-- What one event, and any sequence of events, does to the tables.
use aicybersec.Common.{
  ℕ, ◌≡◌, refl, ◌⊎◌, inl, inr, Bool, true, false, Option, none, some, List, [], ◌∷◌, ◌++◌,
  else_some, if◌then◌else◌, ap, IsIn, arith,
}
use mathlib.Core.Path.{subst}
use aicybersec.Common.Text.{Text, codes, text_eq}
use aicybersec.Common.Text.Laws.{text_eq_refl}
use aicybersec.Persistence.{Asset}
use aicybersec.Persistence.Json.{Json, null, string, scalar, array, object, get_key}
use aicybersec.Persistence.Findings.{FindingRow, LiveFinding}
use aicybersec.Persistence.Insert.{same_finding, is_recorded, finding_row, persist_finding}
use aicybersec.Persistence.Decode.{live_finding}
use aicybersec.Sink.{RunEvent, AgentEvent, Tables, Sink, Python}
use aicybersec.Sink.Write.{
  persisted_event_type, remember_proposal, tool_of, open_for, open_tool_run, close_for,
  close_tool_run, add_finding, store_finding, dispatch, event_row, add_event, commit, handle,
}
use aicybersec.Sink.Runs.{RunsStep, open_tool_run-RunsStep, close_tool_run-RunsStep}

-- The columns of the unique index `uq_findings_scan_fp`.
abbrev pub finding_keys : List FindingRow → List (ℕ × Text)
finding_keys [] = []
finding_keys (row ∷ rows) = (row.scan_id, row.fingerprint) ∷ finding_keys rows

not_recorded :
    (row : FindingRow) (rows : List FindingRow)
    → is_recorded row rows ≡ false
    → ¬ IsIn (row.scan_id, row.fingerprint) (finding_keys rows)
unfolding is_recorded
not_recorded row [] h m = m
not_recorded row (r ∷ rows) h (inl e) =
    let a : row.scan_id ≡ r.scan_id = ap (λ (x : ℕ × Text). x.0) e in
    let b : row.fingerprint ≡ r.fingerprint = ap (λ (x : ℕ × Text). x.1) e in
    let t : text_eq r.fingerprint row.fingerprint ≡ true = rw b (text_eq_refl r.fingerprint) in
    let s : same_finding row r ≡ true = ground arith in absurd (ground arith)
not_recorded row (r ∷ rows) h (inr m) = not_recorded row rows (ground arith) m

-- The findings stay, or one is added that no other has the fingerprint of in its scan.
abbrev pub IsNewFinding : List FindingRow → List FindingRow → Type 0
IsNewFinding old new =
    (new ≡ old)
    ⊎ ((row : FindingRow) × (new ≡ old ++ row ∷ [])
        × ¬ IsIn (row.scan_id, row.fingerprint) (finding_keys old))

-- The events stay, or one of the scan is added.
abbrev pub IsNewEvent : ℕ → List AgentEvent → List AgentEvent → Type 0
IsNewEvent scan_id old new =
    (new ≡ old) ⊎ ((row : AgentEvent) × (new ≡ old ++ row ∷ []) × (row.scan_id ≡ scan_id))

-- What one event may do.
abbrev pub IsWritten : ℕ → Tables → Tables → Type 0
IsWritten scan_id old new =
    (new.assets ≡ old.assets)
    × IsNewEvent scan_id old.events new.events
    × IsNewFinding old.findings new.findings
    × RunsStep scan_id old.tool_runs new.tool_runs

-- The same of a session that has added the event's own row, or of one that rolls back.
abbrev IsStaged : ℕ → Tables → Option Tables → Type 0
IsStaged scan_id db none = Unit
IsStaged scan_id db (some new) =
    (new.assets ≡ db.assets)
    × (new.events ≡ db.events)
    × IsNewFinding db.findings new.findings
    × RunsStep scan_id db.tool_runs new.tool_runs

stays-IsStaged : (scan_id : ℕ) (db : Tables) → IsStaged scan_id db (some db)
stays-IsStaged scan_id db = (refl, refl, inl refl, RunsStep.stays db.tool_runs)

-- What `persist_finding` returns is new in its scan.
persist_finding-eq-some :
    (sha256 : Text → Text) (scan_id project_id : ℕ) (assets : List Asset) (rows : List FindingRow)
    (f : LiveFinding) (row : FindingRow)
    → persist_finding sha256 scan_id project_id assets rows f ≡ some row
    → is_recorded row rows ≡ false
unfolding persist_finding
persist_finding-eq-some sha256 scan_id project_id assets rows f row h =
    let new = finding_row sha256 scan_id project_id assets f in
    let (e, same) = else_some (is_recorded new rows) (some new) row h in
    let q : new ≡ row = cc in subst (λ (x : FindingRow). is_recorded x rows ≡ false) q e

add_finding-IsStaged :
    (scan_id : ℕ) (o : Option FindingRow) (db : Tables)
    → ((row : FindingRow) → o ≡ some row → is_recorded row db.findings ≡ false)
    → IsStaged scan_id db (add_finding o db)
add_finding-IsStaged scan_id none db f = tt
add_finding-IsStaged scan_id (some row) db f = (
  refl,
  refl,
  inr (row, refl, not_recorded row db.findings (f row refl)),
  RunsStep.stays db.tool_runs,
)

store_finding-IsStaged :
    (py : Python) (sink : Sink) (j : Json) (db : Tables)
    → IsStaged sink.scan_id db (store_finding py sink j db)
store_finding-IsStaged py sink null db = stays-IsStaged sink.scan_id db
store_finding-IsStaged py sink (string s) db = stays-IsStaged sink.scan_id db
store_finding-IsStaged py sink (scalar s) db = stays-IsStaged sink.scan_id db
store_finding-IsStaged py sink (array js) db = stays-IsStaged sink.scan_id db
store_finding-IsStaged py sink (object d) db = add_finding-IsStaged sink.scan_id _ db (
    persist_finding-eq-some py.sha256 sink.scan_id sink.project_id db.assets db.findings
      (live_finding py.str d))

close_tool_run-IsStaged :
    (py : Python) (now : ℕ) (e : RunEvent) (sink : Sink) (db : Tables)
    → IsStaged sink.scan_id db (some (close_tool_run py now e sink db))
unfolding close_tool_run
close_tool_run-IsStaged py now e sink db = go (tool_of e) (close_tool_run-RunsStep py now e sink db)
  where
    go :
        (o : Option Text)
        → RunsStep sink.scan_id db.tool_runs (close_for py now e o sink db).tool_runs
        → IsStaged sink.scan_id db (some (close_for py now e o sink db))
    go none r = (refl, refl, inl refl, r)
    go (some tool) r = (refl, refl, inl refl, r)

open_tool_run-IsStaged :
    (now : ℕ) (e : RunEvent) (sink : Sink) (db : Tables)
    → IsStaged sink.scan_id db (some (open_tool_run now e (sink, db)).1)
      × ((open_tool_run now e (sink, db)).0.scan_id ≡ sink.scan_id)
unfolding open_tool_run
open_tool_run-IsStaged now e sink db = go (tool_of e) (open_tool_run-RunsStep now e sink db)
  where
    go :
        (o : Option Text)
        → RunsStep sink.scan_id db.tool_runs (open_for now e o (sink, db)).1.tool_runs
        → IsStaged sink.scan_id db (some (open_for now e o (sink, db)).1)
          × ((open_for now e o (sink, db)).0.scan_id ≡ sink.scan_id)
    go none r = ((refl, refl, inl refl, r), refl)
    go (some tool) r = ((refl, refl, inl refl, r), refl)

abbrev IsDispatched : Sink → Tables → Sink × Option Tables → Type 0
IsDispatched sink db w = IsStaged sink.scan_id db w.1 × (w.0.scan_id ≡ sink.scan_id)

if_IsDispatched :
    (sink : Sink) (db : Tables) (b : Bool) (x y : Sink × Option Tables)
    → IsDispatched sink db x
    → IsDispatched sink db y
    → IsDispatched sink db (if b then x else y)
if_IsDispatched sink db true x y h k = h
if_IsDispatched sink db false x y h k = k

dispatch-IsDispatched :
    (py : Python) (now : ℕ) (e : RunEvent) (sink : Sink) (db : Tables)
    → IsDispatched sink db (dispatch py now e sink db)
unfolding dispatch remember_proposal
dispatch-IsDispatched py now e sink db =
    if_IsDispatched sink db (text_eq e.type (codes "decision.proposed")) _ _
      (stays-IsStaged sink.scan_id db, refl)
      (if_IsDispatched sink db (text_eq e.type (codes "tool.started")) _ _
        (open_tool_run-IsStaged now e sink db)
        (if_IsDispatched sink db (text_eq e.type (codes "tool.finished")) _ _
          (close_tool_run-IsStaged py now e sink db, refl)
          (if_IsDispatched sink db (text_eq e.type (codes "finding.recorded")) _ _
            (store_finding-IsStaged py sink (get_key (codes "finding") e.payload) db, refl)
            (stays-IsStaged sink.scan_id db, refl))))

unchanged-IsWritten : (scan_id : ℕ) (db : Tables) → IsWritten scan_id db db
unchanged-IsWritten scan_id db = (refl, inl refl, inl refl, RunsStep.stays db.tool_runs)

commit-IsWritten :
    (b : Bool) (py : Python) (sink : Sink) (e : RunEvent) (t : Option Text) (db : Tables)
    (staged : Option Tables)
    → IsStaged sink.scan_id (add_event py sink e t db) staged
    → IsWritten sink.scan_id db (commit b db staged)
commit-IsWritten false py sink e t db staged h = unchanged-IsWritten sink.scan_id db
commit-IsWritten true py sink e t db none h = unchanged-IsWritten sink.scan_id db
commit-IsWritten true py sink e none db (some new) (a, v, f, r) = (a, inl v, f, r)
commit-IsWritten true py sink e (some t) db (some new) (a, v, f, r) =
    (a, inr (event_row py sink e t, v, refl), f, r)

-- One event, whatever it is and whether its session commits, adds at most one event of the scan and at
-- most one finding, whose fingerprint is new in its scan; it leaves the assets; and of the tool runs
-- it adds one that is running, or ends the latest open one of a tool, or leaves them all.
pub handle-IsWritten :
    (py : Python) (now : ℕ) (commits : Bool) (e : RunEvent) (sink : Sink) (db : Tables)
    → IsWritten sink.scan_id db (handle py now commits e (sink, db)).1
      × ((handle py now commits e (sink, db)).0.scan_id ≡ sink.scan_id)
unfolding handle
handle-IsWritten py now commits e sink db =
    let row = persisted_event_type e.type e.payload in
    let (staged, same) = dispatch-IsDispatched py now e sink (add_event py sink e row db) in
    (commit-IsWritten commits py sink e row db _ staged, same)
