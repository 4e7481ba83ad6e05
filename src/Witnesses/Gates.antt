-- ===== src/Witnesses/Gates.antt =====
-- The admission gate at concrete requests.
use dorganizer.Prelude.{
  ℕ, List, [], ◌∷◌, All, inl, ◌+◌, ◌≤◌, ◌<◌, true, false, some, none, ◌≡◌, ◌≢◌, ◌↔◌, refl, ltb, not,
  ◌&&◌,
}
use dorganizer.Admission.{
  Gate, new_gate, manual_in_progress, admitted, busy, begin_scan, begin_manual, begin_maintenance,
  enqueue, release_scan, release_manual, release_maintenance,
}
use dorganizer.Admission.Exclusion.{
  System, start, Reach, here, next, manual_begins, exclusive, insert_session,
}
use dorganizer.Admission.Turns.{
  is_free, is_quiet, admitted_iff, turn_lem, Request, scan_request, manual_request,
  maintenance_request, enqueue_request, serve_all, Took, shut_out,
}

abbrev scanning_gate : Gate
scanning_gate = record { manual = false; maint = false; scans = 1 }

abbrev managed_gate : Gate
managed_gate = record { manual = true; maint = false; scans = 0 }

-- File management in flight.
abbrev managed : System
managed = record start {
  gate = (begin_manual start.gate (some (some false))).0;
  managing = start.managing + 1;
}

managed-Reach : Reach managed
unfolding start begin_manual new_gate
managed-Reach = next here (manual_begins start refl)

exclusive_example :
    (managed.managing + managed.maintaining ≤ 1)
    × (0 < managed.managing + managed.maintaining → (managed.scanning ≡ 0) × (managed.sessions ≡ 0))
exclusive_example = exclusive managed managed-Reach

admitted_iff_example :
    (((begin_scan scanning_gate).1 ≡ admitted) ↔ (is_free scanning_gate ≡ true))
    × (((enqueue scanning_gate insert_session 3).1 ≡ admitted)
        ↔ ((is_free scanning_gate && (insert_session 3).1) ≡ true))
    × (((begin_manual scanning_gate (some none)).1 ≡ admitted) ↔ (
        (is_free scanning_gate && (not (ltb 0 scanning_gate.scans) && is_quiet (some none)))
        ≡ true))
    × (((begin_maintenance scanning_gate (some none)).1 ≡ admitted) ↔ (
        (is_free scanning_gate && (not (ltb 0 scanning_gate.scans) && is_quiet (some none)))
        ≡ true))
admitted_iff_example = admitted_iff scanning_gate (some none) insert_session 3

turn_lem_example :
    ((begin_scan managed_gate).1 ≢ admitted → (begin_scan managed_gate).0 ≡ managed_gate)
    × ((begin_manual managed_gate none).1 ≢ admitted
        → (begin_manual managed_gate none).0 ≡ managed_gate)
    × ((begin_maintenance managed_gate none).1 ≢ admitted
        → (begin_maintenance managed_gate none).0 ≡ managed_gate)
    × ((begin_scan managed_gate).1 ≡ admitted
        → release_scan (begin_scan managed_gate).0 ≡ managed_gate)
    × ((begin_manual managed_gate none).1 ≡ admitted
        → release_manual (begin_manual managed_gate none).0 ≡ managed_gate)
    × ((begin_maintenance managed_gate none).1 ≡ admitted
        → release_maintenance (begin_maintenance managed_gate none).0 ≡ managed_gate)
turn_lem_example = turn_lem managed_gate none

-- A scan, a session and a maintenance batch, while file management is in flight.
abbrev later : List (Request ℕ)
later =
    scan_request
    ∷ enqueue_request insert_session
    ∷ maintenance_request none
    ∷ manual_request (some none)
    ∷ []

managed_gate-Took : Took new_gate (some (some false)) managed_gate manual_in_progress
unfolding new_gate begin_manual
managed_gate-Took = inl (refl, refl)

shut_out_example :
    ((serve_all later managed_gate 3).0 ≡ (managed_gate, 3))
    × All (λ a. a ≡ busy manual_in_progress) (serve_all later managed_gate 3).1
shut_out_example =
    shut_out new_gate (some (some false)) managed_gate manual_in_progress later 3 managed_gate-Took
