-- ===== src/Admission/Turns.antt =====
-- What each request to the gate is answered, and what it leaves behind.
use dorganizer.Prelude.{
  Bool, true, false, ◌&&◌, not, none, some, ltb, List, [], ◌∷◌, All, ◌⊎◌, inl, inr, refl, ◌≡◌, ◌≢◌,
  ◌↔◌, arith,
}
use dorganizer.Admission.{
  Gate, Busy, manual_in_progress, maintenance_in_progress, Answer, admitted, busy, Query,
  begin_scan, begin_manual, begin_maintenance, enqueue, release_scan, release_manual,
  release_maintenance,
}

-- The session query answers that no session is queued or running, or is not installed.
abbrev pub is_quiet : Query → Bool
is_quiet none = true
is_quiet (some none) = false
is_quiet (some (some active)) = not active

abbrev pub is_free : Gate → Bool
is_free g = not g.manual && not g.maint

-- A scan is admitted exactly when neither exclusive kind is in flight, an enqueue exactly when
-- moreover its write succeeds, and the exclusive kinds exactly when neither is in flight, no scan
-- runs and the session query, where one is installed, answers no.
pub admitted_iff {ℓ} :
    {S : Type ℓ} (g : Gate) (tasks : Query) (fn : S → S × Bool) (s : S)
    → (((begin_scan g).1 ≡ admitted) ↔ (is_free g ≡ true))
      × (((enqueue g fn s).1 ≡ admitted) ↔ ((is_free g && (fn s).1) ≡ true))
      × (((begin_manual g tasks).1 ≡ admitted)
          ↔ ((is_free g && (not (ltb 0 g.scans) && is_quiet tasks)) ≡ true))
      × (((begin_maintenance g tasks).1 ≡ admitted)
          ↔ ((is_free g && (not (ltb 0 g.scans) && is_quiet tasks)) ≡ true))
unfolding begin_scan begin_manual begin_maintenance enqueue
admitted_iff g tasks fn s = (
  (λ h. ground arith, λ h. ground arith),
  (λ h. ground arith, λ h. ground arith),
  (λ h. ground arith, λ h. ground arith),
  (λ h. ground arith, λ h. ground arith),
)

-- A request that is not admitted leaves the gate as it was; one that is admitted is undone by its
-- release.
pub turn_lem :
    (g : Gate) (tasks : Query)
    → ((begin_scan g).1 ≢ admitted → (begin_scan g).0 ≡ g)
      × ((begin_manual g tasks).1 ≢ admitted → (begin_manual g tasks).0 ≡ g)
      × ((begin_maintenance g tasks).1 ≢ admitted → (begin_maintenance g tasks).0 ≡ g)
      × ((begin_scan g).1 ≡ admitted → release_scan (begin_scan g).0 ≡ g)
      × ((begin_manual g tasks).1 ≡ admitted → release_manual (begin_manual g tasks).0 ≡ g)
      × ((begin_maintenance g tasks).1 ≡ admitted
          → release_maintenance (begin_maintenance g tasks).0 ≡ g)
unfolding begin_scan begin_manual begin_maintenance release_scan release_manual release_maintenance
turn_lem g tasks = (
  λ h. ground arith,
  λ h. ground arith,
  λ h. ground arith,
  λ h. ground arith,
  λ h. ground arith,
  λ h. ground arith,
)

-- What a client may ask of the gate, but for the releases.
pub data Request {ℓ} (S : Type ℓ) : Type ℓ where
  scan_request : Request S
  manual_request maintenance_request : Query → Request S
  enqueue_request : (S → S × Bool) → Request S

abbrev pub serve {ℓ} : {S : Type ℓ} → Request S → Gate → S → (Gate × S) × Answer
serve scan_request g s = let (g', a) = begin_scan g in ((g', s), a)
serve (manual_request tasks) g s = let (g', a) = begin_manual g tasks in ((g', s), a)
serve (maintenance_request tasks) g s = let (g', a) = begin_maintenance g tasks in ((g', s), a)
serve (enqueue_request fn) g s = let (s', a) = enqueue g fn s in ((g, s'), a)

-- The gate and the store after the requests, one after the other, and what each was answered.
abbrev pub serve_all {ℓ} : {S : Type ℓ} → List (Request S) → Gate → S → (Gate × S) × List Answer
serve_all [] g s = ((g, s), [])
serve_all (r ∷ rs) g s =
    let (now, a) = serve r g s in
    let (end, answers) = serve_all rs now.0 now.1 in (end, a ∷ answers)

-- An exclusive kind was admitted and left the gate so; the reason is the one that names the kind.
abbrev pub Took : Gate → Query → Gate → Busy → Type 0
Took g tasks h reason =
    ((begin_manual g tasks ≡ (h, admitted)) × (reason ≡ manual_in_progress))
    ⊎ ((begin_maintenance g tasks ≡ (h, admitted)) × (reason ≡ maintenance_in_progress))

-- A gate that one exclusive kind holds and the other does not.
abbrev HeldFor : Gate → Busy → Type 0
HeldFor h reason =
    ((h.manual ≡ true) × (reason ≡ manual_in_progress))
    ⊎ ((h.manual ≡ false) × (h.maint ≡ true) × (reason ≡ maintenance_in_progress))

Took-HeldFor :
    (g : Gate) (tasks : Query) (h : Gate) (reason : Busy) → Took g tasks h reason → HeldFor h reason
unfolding begin_manual begin_maintenance
Took-HeldFor g tasks h reason (inl (e, r)) = inl (ground arith, r)
Took-HeldFor g tasks h reason (inr (e, r)) = inr (ground arith, ground arith, r)

module _ {ℓ} {S : Type ℓ} (h : Gate) (reason : Busy) where
  serve-HeldFor : HeldFor h reason → (r : Request S) (s : S) → serve r h s ≡ ((h, s), busy reason)
  unfolding begin_scan begin_manual begin_maintenance enqueue
  serve-HeldFor k scan_request s = ground arith
  serve-HeldFor k (manual_request tasks) s = ground arith
  serve-HeldFor k (maintenance_request tasks) s = ground arith
  serve-HeldFor k (enqueue_request fn) s = ground arith

  serve_all-HeldFor :
      HeldFor h reason
      → (rs : List (Request S)) (s : S)
      → ((serve_all rs h s).0 ≡ (h, s)) × All (λ a. a ≡ busy reason) (serve_all rs h s).1
  serve_all-HeldFor k [] s = (refl, tt)
  serve_all-HeldFor k (r ∷ rs) s =
      let (end, answers) = serve_all-HeldFor k rs s in
      rw (serve-HeldFor k r s) (end, (refl, answers))

-- Once file management or maintenance is admitted, whatever scans, enqueues and requests of either
-- exclusive kind come before its release, in any number and order: each is answered busy with the
-- reason that names the kind in flight, no write of an enqueue is run, and the gate stays as it is.
pub shut_out {ℓ} :
    {S : Type ℓ} (g : Gate) (tasks : Query) (h : Gate) (reason : Busy) (rs : List (Request S))
    (s : S)
    → Took g tasks h reason
    → ((serve_all rs h s).0 ≡ (h, s)) × All (λ a. a ≡ busy reason) (serve_all rs h s).1
shut_out g tasks h reason rs s k = serve_all-HeldFor h reason (Took-HeldFor g tasks h reason k) rs s
