-- ===== src/Sink/Consistent.antt =====
-- What any sequence of events keeps: unique fingerprints, and runs whose state agrees with their end.
use aicybersec.Common.{
  ℕ, ◌≡◌, ◌≢◌, refl, ap, ◌⊎◌, inl, inr, none, some, List, [], ◌∷◌, ◌++◌, All, All-append, IsUnique,
  IsUnique-append_one,
}
use aicybersec.Persistence.Findings.{FindingRow}
use aicybersec.Sink.{running, ToolRun, Tables, Sink, Python}
use aicybersec.Sink.Write.{handle, SinkCall, handle_all}
use aicybersec.Sink.Runs.{RunsStep}
use aicybersec.Sink.Laws.{finding_keys, IsNewFinding, handle-IsWritten}

-- A run is running and has no end, or is not and has one.
abbrev pub IsRun : ToolRun → Type 0
IsRun run =
    ((run.status ≡ running) × (run.ended_at ≡ none))
    ⊎ ((run.status ≢ running) × ((t : ℕ) × (run.ended_at ≡ some t)))

-- The fingerprints of a scan are unique, and the tool runs' states agree with their ends.
abbrev pub IsConsistent : Tables → Type 0
IsConsistent db = IsUnique (finding_keys db.findings) × All IsRun db.tool_runs

finding_keys-append :
    (rows : List FindingRow) (row : FindingRow)
    → finding_keys (rows ++ row ∷ []) ≡ finding_keys rows ++ (row.scan_id, row.fingerprint) ∷ []
finding_keys-append [] row = refl
finding_keys-append (r ∷ rows) row =
    ap (λ ks. (r.scan_id, r.fingerprint) ∷ ks) (finding_keys-append rows row)

IsNewFinding-IsUnique :
    (old new : List FindingRow)
    → IsNewFinding old new
    → IsUnique (finding_keys old)
    → IsUnique (finding_keys new)
IsNewFinding-IsUnique old new (inl e) u = rw e u
IsNewFinding-IsUnique old new (inr (row, e, f)) u =
    rw (e, finding_keys-append old row) (IsUnique-append_one (finding_keys old) _ u f)

All-replace :
    (P : ToolRun → Type 0) (before after : List ToolRun) (old new : ToolRun)
    → P new
    → All P (before ++ old ∷ after)
    → All P (before ++ new ∷ after)
All-replace P [] after old new p (q, h) = (p, h)
All-replace P (b ∷ before) after old new p (q, h) = (q, All-replace P before after old new p h)

RunsStep-IsRun :
    (scan_id : ℕ) (old new : List ToolRun)
    → RunsStep scan_id old new
    → All IsRun old
    → All IsRun new
RunsStep-IsRun scan_id old new (RunsStep.stays runs) h = h
RunsStep-IsRun scan_id old new (RunsStep.starts runs run (s, r, e)) h =
    All-append IsRun runs (run ∷ []) h (inl (r, e), tt)
RunsStep-IsRun scan_id old new (RunsStep.ends before after o n (s, r, f, t, e) later) h =
    All-replace IsRun before after o n (inr (f, t)) h

-- Any sequence of events keeps the tables consistent.
pub handle_all-IsConsistent :
    (py : Python) (calls : List SinkCall) (sink : Sink) (db : Tables)
    → IsConsistent db
    → IsConsistent (handle_all py calls (sink, db)).1
unfolding handle_all
handle_all-IsConsistent py [] sink db h = h
handle_all-IsConsistent py (c ∷ cs) sink db (u, r) =
    let ((a, v, f, s), same) = handle-IsWritten py c.now c.commits c.event sink db in
    let (next, new) = handle py c.now c.commits c.event (sink, db) in
    handle_all-IsConsistent py cs next new (
      IsNewFinding-IsUnique db.findings new.findings f u,
      RunsStep-IsRun sink.scan_id db.tool_runs new.tool_runs s r,
    )
