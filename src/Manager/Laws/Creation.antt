-- ===== src/Manager/Laws/Creation.antt =====
-- `create_scan` of backend/services/scan_service.py and the unique index of active scans.
use aicybersec.Common.{
  ℕ, ◌≡◌, refl, true, ◌&&◌, List, [], ◌∷◌, ok, err, ◌⊎◌, inl, inr, arith, Bool-cases, ◌==◌, ==_iff,
  IsIn,
}
use aicybersec.Scan.{
  Scan, Entry, Status, is_active, queued, initializing, running, cancelling, completed, failed,
  cancelled,
}
use aicybersec.Manager.Service.{scan_already_running, ScanCreate, new_scan, has_active, create_scan}

-- A scan that the unique index counts.
abbrev pub IsActive : Status → Type 0
IsActive s = (s ≡ queued) ⊎ (s ≡ initializing) ⊎ (s ≡ running) ⊎ (s ≡ cancelling)

-- The table has an active scan of the project.
abbrev pub IsTaken : ℕ → List Scan → Type 0
IsTaken project table = (s : Scan) × IsIn s table × (s.project_id ≡ project) × IsActive s.status

-- No project has two active scans.
abbrev pub HasOneActive : List Scan → Type 0
HasOneActive [] = Unit
HasOneActive (s ∷ table) = (¬ (IsActive s.status × IsTaken s.project_id table)) × HasOneActive table

is_active-IsActive : (s : Status) → is_active s ≡ true → IsActive s
is_active-IsActive queued h = inl refl
is_active-IsActive initializing h = inr (inl refl)
is_active-IsActive running h = inr (inr (inl refl))
is_active-IsActive cancelling h = inr (inr (inr refl))
is_active-IsActive completed h = cc
is_active-IsActive failed h = cc
is_active-IsActive cancelled h = cc

IsActive-is_active : (s : Status) → IsActive s → is_active s ≡ true
IsActive-is_active s (inl e) = rw e refl
IsActive-is_active s (inr (inl e)) = rw e refl
IsActive-is_active s (inr (inr (inl e))) = rw e refl
IsActive-is_active s (inr (inr (inr e))) = rw e refl

has_active-IsTaken :
    (project : ℕ) (table : List Scan) → has_active project table ≡ true → IsTaken project table
unfolding has_active
has_active-IsTaken project [] h = cc
has_active-IsTaken project (s ∷ table) h =
    elim (Bool-cases (s.project_id == project && is_active s.status)) [
      | inl e ↦ (
        s,
        inl refl,
        (==_iff s.project_id project).0 (ground arith),
        is_active-IsActive s.status (ground arith),
      )
      | inr e ↦ let (t, m, p, a) = has_active-IsTaken project table (rw e at h) in (t, inr m, p, a)
    ]

IsTaken-has_active :
    (project : ℕ) (table : List Scan) → IsTaken project table → has_active project table ≡ true
unfolding has_active
IsTaken-has_active project [] (t, m, p, a) = absurd m
IsTaken-has_active project (s ∷ table) (t, inl m, p, a) =
    let e : (s.project_id == project) ≡ true = (==_iff s.project_id project).1 (rw (← m) p) in
    let b : is_active s.status ≡ true = IsActive-is_active s.status (rw (← m) a) in rw (e, b) refl
IsTaken-has_active project (s ∷ table) (t, inr m, p, a) =
    let e = IsTaken-has_active project table (t, m, p, a) in ground arith

-- In a table where no project has two active scans: a second active scan of a project is refused. Otherwise the new scan is put before the table: it is
-- queued, of the body's project and with the project's scope as its targets, and still no project has
-- two active scans.
pub create_scan_lem :
    (body : ScanCreate) (scope : List Entry) (table : List Scan)
    → HasOneActive table
    → (IsTaken body.project_id table × (create_scan body scope table ≡ err scan_already_running))
      ⊎ ((¬ IsTaken body.project_id table)
          × ((s : Scan) × (create_scan body scope table ≡ ok (s ∷ table))
              × (s.status ≡ queued)
              × (s.project_id ≡ body.project_id)
              × (s.target_snapshot ≡ scope)
              × HasOneActive (s ∷ table)))
unfolding create_scan
create_scan_lem body scope table h = elim (Bool-cases (has_active body.project_id table)) [
  | inl taken ↦ inl (has_active-IsTaken body.project_id table taken, rw taken refl)
  | inr free ↦
      let n : ¬ IsTaken body.project_id table =
        λ t. let e = IsTaken-has_active body.project_id table t in cc in
      inr (n, (new_scan body scope, rw free refl, refl, refl, refl, ((λ (a, t). n t), h)))
]
