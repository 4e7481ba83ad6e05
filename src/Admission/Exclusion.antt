-- ===== src/Admission/Exclusion.antt =====
-- admission/gate.go with its users: every interleaving of admissions, releases, session writes and
-- session ends keeps the exclusive kinds of work apart.
use dorganizer.Prelude.{
  ℕ, ◌+◌, ◌-◌, ◌≤◌, ◌<◌, Bool, true, false, some, ltb, if◌then◌else◌, ◌≡◌, arith,
}
use dorganizer.Admission.{
  Gate, new_gate, admitted, Query, begin_scan, begin_manual, begin_maintenance, enqueue,
  release_scan, release_manual, release_maintenance,
}

-- The gate, the database's queued or running sessions, and the work that holds a release.
pub record System : Type 0 where
  pub gate : Gate
  pub sessions : ℕ
  pub scanning : ℕ
  pub managing : ℕ
  pub maintaining : ℕ

unfoldable pub start : System
start = record { gate = new_gate; sessions = 0; scanning = 0; managing = 0; maintaining = 0 }

-- The query of the composition root: whether a session is queued or running.
abbrev pub query : System → Query
query s = some (some (ltb 0 s.sessions))

-- The write of an enqueue, which inserts a session row.
abbrev pub insert_session : ℕ → ℕ × Bool
insert_session n = (n + 1, true)

pub data Step : System → System → Type 0 where
  scan_begins :
      (s : System)
      → (begin_scan s.gate).1 ≡ admitted
      → Step s (record s { gate = (begin_scan s.gate).0; scanning = s.scanning + 1 })
  scan_ends :
      (s : System)
      → 0 < s.scanning
      → Step s (record s { gate = release_scan s.gate; scanning = s.scanning - 1 })
  manual_begins :
      (s : System)
      → (begin_manual s.gate (query s)).1 ≡ admitted
      → Step s (record s { gate = (begin_manual s.gate (query s)).0; managing = s.managing + 1 })
  manual_ends :
      (s : System)
      → 0 < s.managing
      → Step s (record s { gate = release_manual s.gate; managing = s.managing - 1 })
  maintenance_begins :
      (s : System)
      → (begin_maintenance s.gate (query s)).1 ≡ admitted
      → Step s (record s {
        gate = (begin_maintenance s.gate (query s)).0;
        maintaining = s.maintaining + 1;
      })
  maintenance_ends :
      (s : System)
      → 0 < s.maintaining
      → Step s (record s { gate = release_maintenance s.gate; maintaining = s.maintaining - 1 })
  session_enqueued :
      (s : System)
      → (enqueue s.gate insert_session s.sessions).1 ≡ admitted
      → Step s (record s { sessions = (enqueue s.gate insert_session s.sessions).0 })
  session_ends : (s : System) → 0 < s.sessions → Step s (record s { sessions = s.sessions - 1 })

pub data Reach : System → Type 0 where
  here : Reach start
  next : {s t : System} → Reach s → Step s t → Reach t

-- The gate's fields count the work that holds them.
record Inv (s : System) : Type 0 where
  scans_held : s.gate.scans ≡ s.scanning
  manual_held : s.managing ≡ (if s.gate.manual then 1 else 0)
  maint_held : s.maintaining ≡ (if s.gate.maint then 1 else 0)
  manual_alone : s.gate.manual ≡ true → (s.scanning ≡ 0) × (s.sessions ≡ 0) × (s.gate.maint ≡ false)
  maint_alone : s.gate.maint ≡ true → (s.scanning ≡ 0) × (s.sessions ≡ 0) × (s.gate.manual ≡ false)

Step-Inv : {s t : System} → Step s t → Inv s → Inv t
unfolding begin_scan begin_manual begin_maintenance enqueue release_scan release_manual
    release_maintenance
Step-Inv (scan_begins s h) i = ground arith
Step-Inv (scan_ends s h) i = ground arith
Step-Inv (manual_begins s h) i = ground arith
Step-Inv (manual_ends s h) i = ground arith
Step-Inv (maintenance_begins s h) i = ground arith
Step-Inv (maintenance_ends s h) i = ground arith
Step-Inv (session_enqueued s h) i = ground arith
Step-Inv (session_ends s h) i = ground arith

Reach-Inv : {s : System} → Reach s → Inv s
unfolding start new_gate
Reach-Inv here = ground arith
Reach-Inv (next r st) = Step-Inv st (Reach-Inv r)

-- In every reachable state at most one file management or maintenance batch is in flight, and
-- while one is, no scan runs, no session is queued or running, and the other kind is not in flight.
pub exclusive :
    (s : System)
    → Reach s
    → (s.managing + s.maintaining ≤ 1)
      × (0 < s.managing + s.maintaining → (s.scanning ≡ 0) × (s.sessions ≡ 0))
exclusive s r = let i = Reach-Inv r in (ground (arith, i), λ h. ground (arith, i))
