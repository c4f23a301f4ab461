-- ===== src/Sink/Proposals.antt =====
-- The parameters that a proposed tool call leaves for its start.
use aicybersec.Common.{
  ℕ, ◌≡◌, refl, ap, ◌∙◌, inl, inr, Bool, true, none, some, List, [], ◌∷◌, ◌++◌, Bool-cases, ==_iff,
  ◌==◌, take,
}
use aicybersec.Common.Text.{Text, codes, text_eq, elem}
use aicybersec.Persistence.Json.{string, object, Dict, get_key}
use aicybersec.Sink.{RunEvent, running, ToolRun, Tables, Sink, Python}
use aicybersec.Sink.Write.{
  persisted_event_type, without_step, params_at, set_params, remember_proposal, tool_of,
  open_tool_run, running_row, dispatch, handle,
}

params_at-without_step : (n : ℕ) (ps : List (ℕ × Dict)) → params_at n (without_step n ps) ≡ none
unfolding params_at without_step
params_at-without_step n [] = refl
params_at-without_step n ((k, d) ∷ ps) = elim (Bool-cases (k == n)) [
  | inl e ↦ rw e (params_at-without_step n ps)
  | inr e ↦ rw (e, e) (params_at-without_step n ps)
]

params_at-set_params :
    (n : ℕ) (d : Dict) (ps : List (ℕ × Dict)) → params_at n (set_params n d ps) ≡ some d
unfolding params_at
params_at-set_params n d ps = let e : (n == n) ≡ true = (==_iff n n).1 refl in rw e refl

-- An event that proposes a tool call with parameters for a step.
abbrev pub IsProposal : RunEvent → ℕ → Dict → Type 0
IsProposal e n params =
    (e.type ≡ codes "decision.proposed")
    × (e.step ≡ some n)
    × ((d : Dict) × (get_key (codes "decision") e.payload ≡ object d)
        × (get_key (codes "kind") d ≡ string (codes "tool_call"))
        × (get_key (codes "params") d ≡ object params))

-- An event that starts a tool at a step.
abbrev pub IsToolStart : RunEvent → ℕ → Text → Type 0
IsToolStart e n tool = (e.type ≡ codes "tool.started") × (e.step ≡ some n) × (tool_of e ≡ some tool)

remember_proposal-IsProposal :
    (e : RunEvent) (n : ℕ) (params : Dict) (sink : Sink)
    → IsProposal e n params
    → remember_proposal e sink ≡ record sink { proposed = set_params n params sink.proposed }
unfolding remember_proposal text_eq
remember_proposal-IsProposal e n params sink (t, s, (d, a, k, p)) = rw (a, k, p, s) refl

handle-IsProposal :
    (py : Python) (now : ℕ) (commits : Bool) (e : RunEvent) (n : ℕ) (params : Dict) (sink : Sink)
    (db : Tables)
    → IsProposal e n params
    → (handle py now commits e (sink, db)).0
      ≡ record sink { proposed = set_params n params sink.proposed }
unfolding handle dispatch text_eq remember_proposal
handle-IsProposal py now commits e n params sink db h =
    rw (h.0) (remember_proposal-IsProposal e n params sink h)

handle-IsToolStart :
    (py : Python) (now : ℕ) (e : RunEvent) (n : ℕ) (tool : Text) (params : Dict) (sink : Sink)
    (db : Tables)
    → IsToolStart e n tool
    → params_at n sink.proposed ≡ some params
    → ((handle py now true e (sink, db)).1.tool_runs
        ≡ db.tool_runs ++ running_row sink now tool params ∷ [])
      × (params_at n (handle py now true e (sink, db)).0.proposed ≡ none)
unfolding handle dispatch open_tool_run persisted_event_type text_eq elem
handle-IsToolStart py now e n tool params sink db (t, s, o) p =
    rw (t, o, s, p) (refl, params_at-without_step n sink.proposed)

-- Of a step's tool call, proposed with parameters and then started in a session that commits, one run
-- is added, with these parameters, the tool's name cut to its column, running, in the scan and by whom
-- the sink says, from the time of the start on, and not ended; also where the proposal itself is not
-- saved. The step has no parameters after that.
pub handle-handle :
    (py : Python) (now later : ℕ) (commits : Bool) (e start : RunEvent) (n : ℕ) (params : Dict)
    (tool : Text) (sink : Sink) (db : Tables)
    → IsProposal e n params
    → IsToolStart start n tool
    → ((run : ToolRun) × ((handle py later true start
            (handle py now commits e (sink, db))).1.tool_runs
          ≡ (handle py now commits e (sink, db)).1.tool_runs ++ run ∷ [])
        × (run.parameters ≡ params)
        × (run.tool ≡ take 50 tool)
        × (run.status ≡ running)
        × (run.scan_id ≡ sink.scan_id)
        × (run.initiated_by ≡ sink.initiated_by)
        × (run.started_at ≡ some later)
        × (run.ended_at ≡ none))
      × (params_at n (handle py later true start (handle py now commits e (sink, db))).0.proposed
          ≡ none)
handle-handle py now later commits e start n params tool sink db h k =
    let (next, mid) = handle py now commits e (sink, db) in
    let q = handle-IsProposal py now commits e n params sink db h in
    let found : params_at n next.proposed ≡ some params =
      ap (λ (x : Sink). params_at n x.proposed) q ∙ params_at-set_params n params sink.proposed in
    let (a, b) = handle-IsToolStart py later start n tool params next mid k found in
    let same = ap (λ (x : Sink). mid.tool_runs ++ running_row x later tool params ∷ []) q in
    ((running_row sink later tool params, a ∙ same, refl, refl, refl, refl, refl, refl, refl), b)
