-- ===== src/Workset/Session/Ledger.antt =====
-- What stays true of a session while it runs: its window is the front of the line of the units that
-- are not yet committed, and a recorded stop names a unit of the window.
use dorganizer.Prelude.{
  ℕ, zero, suc, ◌<◌, ◌≤◌, Bool, true, false, ◌&&◌, not, List, [], ◌∷◌, ◌++◌, append_assoc, length,
  Option, none, some, nat_beq, ltb, any_b, any_b-append, ◌≡◌, refl, sym, ◌∙◌, arith, Bool-cases,
  Option-cases, inl, inr,
}
use dorganizer.Prelude.Counting.{count_b}
use dorganizer.Workset.OpenUnit.{TaskError, is_canceled, committable}
use dorganizer.Workset.Report.{entry_at}
use dorganizer.Workset.Session.{
  Entry, SessionStop, canceled_stop, Pool, request_stop, Prepared, ready, refused, Surroundings,
  SessionRun, note_failure, task_stop, note_failures, look, pending_stop, stop_now, deliver_all,
  open_unit, prepare, Filled, filled, cut, cut_by, fill, prepare_stop, awakened, wait, or_canceled,
}

-- An entry with the place in the report.
abbrev pub has_idx : ℕ → Entry → Bool
has_idx i e = nat_beq i e.report_idx

abbrev pub holds : ℕ → List Entry → Bool
holds i es = any_b (has_idx i) es

-- A stop's own unit is in the window.
abbrev pub Known : Option SessionStop → List Entry → Type 0
Known none window = Unit {0}
Known (some st) window =
    ((e : Entry) → st.open_ ≡ some e → holds e.report_idx window ≡ true)
    × (st.reported ≡ true → st.open_ ≡ none)

-- A session that runs: the units that were told to commit, and the line of the others, of which
-- the window holds the first; what was prepared is what was told to commit and the window.
pub record Running {W : Type 0} (all line rest : List Entry) (s : SessionRun W) : Type 0 where
  pub split : all ≡ s.commits ++ line
  pub queue : line ≡ s.open_ ++ rest
  pub kept : s.discards ≡ []
  pub unfinished : s.finishes ≡ []
  pub accounted : s.prepared_units ≡ s.commits ++ s.open_
  pub distinct : (i : ℕ) → count_b (has_idx i) all ≤ 1
  pub known : Known s.pool.stop s.open_

entry_at-holds :
    (n : ℕ) (es : List Entry) (e : Entry) → entry_at n es ≡ some e → holds e.report_idx es ≡ true
unfolding entry_at any_b
entry_at-holds n [] e h = cc
entry_at-holds zero (x ∷ es) e h = let same : x ≡ e = ground arith in rw same (ground arith)
entry_at-holds (suc n) (x ∷ es) e h = ground (arith, entry_at-holds n es e h)

module _ {W : Type 0} (env : Surroundings W) where
  pub request_stop-Known :
      (st : SessionStop) (p : Pool) (window : List Entry)
      → Known (some st) window
      → Known p.stop window
      → Known (request_stop st p).stop window
  unfolding request_stop
  request_stop-Known st p window h k = elim (Option-cases p.stop) [
    | inl e ↦ rw e h
    | inr (x, e) ↦ rw (request_stop, e) (rw e at k)
  ]

  note_failure-Known :
      (at : ℕ) (found : Option Entry) (err : TaskError) (p : Pool) (window : List Entry)
      → entry_at at window ≡ found
      → Known p.stop window
      → Known (note_failure found err p).stop window
  note_failure-Known at none err p window e h = h
  note_failure-Known at (some x) err p window e h = elim (Bool-cases (is_canceled err)) [
    | inl c ↦ rw c h
    | inr c ↦ rw c (
        request_stop-Known (task_stop x err) p window
          (
            λ y q. let same : x ≡ y = ground arith in rw (sym same) (entry_at-holds at window x e),
            λ q. cc,
          )
          h)
  ]

  note_failures-Known :
      (window : List Entry) (fs : List (ℕ × TaskError)) (p : Pool)
      → Known p.stop window
      → Known (note_failures window fs p).stop window
  unfolding note_failures
  note_failures-Known window [] p h = h
  note_failures-Known window ((at, err) ∷ fs) p h =
      note_failures-Known window fs _
        (note_failure-Known at (entry_at at window) err p window refl h)

  Known-append :
      (r : Option SessionStop) (window es : List Entry) → Known r window → Known r (window ++ es)
  Known-append none window es h = tt
  Known-append (some st) window es (h, k) = (λ e q. rw any_b-append (rw (h e q) refl), k)

  module _ (all line : List Entry) where
    pub look-Running :
        (rest : List Entry) (s : SessionRun W)
        → Running all line rest s
        → Running all line rest (look env s)
    unfolding look
    look-Running rest s h = record {
      split = h.split;
      queue = h.queue;
      kept = h.kept;
      unfinished = h.unfinished;
      accounted = h.accounted;
      distinct = h.distinct;
      known = note_failures-Known s.open_ (env.meanwhile s.world).0.failures s.pool h.known;
    }

    -- A stop that ends the session, or a session that goes on.
    abbrev pub Halted : SessionStop → SessionRun W → Type 0
    Halted st s = (rest : List Entry) × Running all line rest s × Known (some st) s.open_

    abbrev pub Going : List Entry → Option SessionStop × SessionRun W → Type 0
    Going rest (some st, s) = Halted st s
    Going rest (none, s) = Running all line rest s

    -- And without a recorded stop.
    abbrev pub Clear : List Entry → Option SessionStop × SessionRun W → Type 0
    Clear rest (some st, s) = Halted st s
    Clear rest (none, s) = Running all line rest s × (s.pool.stop ≡ none)

    canceled-Halted :
        (rest : List Entry) (s : SessionRun W) → Running all line rest s → Halted canceled_stop s
    canceled-Halted rest s h = (rest, h, ((λ y q. cc), λ q. cc))

    pending-Clear :
        (rest : List Entry) (s : SessionRun W) (r : Option SessionStop) (c : Bool)
        → s.pool.stop ≡ r
        → Running all line rest s
        → Clear rest (pending_stop r c, s)
    pending-Clear rest s (some st) c e h = (rest, h, rw e at h.known)
    pending-Clear rest s none true e h = canceled-Halted rest s h
    pending-Clear rest s none false e h = (h, e)

    pub stop_now-Clear :
        (rest : List Entry) (s : SessionRun W)
        → Running all line rest s
        → Clear rest (stop_now env s)
    unfolding stop_now
    stop_now-Clear rest s h =
        let s' = look env s in
        pending-Clear rest s' s'.pool.stop s'.pool.canceled refl (look-Running rest s h)

    or_canceled-Going :
        (rest : List Entry) (r : Option SessionStop × SessionRun W)
        → Clear rest r
        → Going rest (or_canceled env r)
    or_canceled-Going rest (some st, s) h = h
    or_canceled-Going rest (none, s) (h, _) = canceled-Halted rest s h

    pub moved_on :
        (rest : List Entry) (s : SessionRun W) (w : W)
        → Running all line rest s
        → Running all line rest (record s { world = w })
    moved_on rest s w h = record {
      split = h.split;
      queue = h.queue;
      kept = h.kept;
      unfinished = h.unfinished;
      accounted = h.accounted;
      distinct = h.distinct;
      known = h.known;
    }

    deliver_all-Going :
        (n : ℕ) (rest : List Entry) (s : SessionRun W)
        → Running all line rest s
        → Going rest (deliver_all env n s)
    unfolding deliver_all
    deliver_all-Going zero rest s h = h
    deliver_all-Going (suc n) rest s h =
        let s' = look env s in
        let (won, w) = env.sends s'.world in
        let k = moved_on rest s' w (look-Running rest s h) in
        elim (Bool-cases (s'.pool.canceled && not won)) [
          | inl c ↦ rw (deliver_all, c) (or_canceled-Going rest _ (stop_now-Clear rest _ k))
          | inr c ↦ rw (deliver_all, c) (deliver_all-Going n rest _ k)
        ]

    open_unit-Going :
        (e : Entry) (rest : List Entry) (p : Prepared) (s : SessionRun W)
        → Running all line (e ∷ rest) s
        → Going rest (open_unit env e p s)
    open_unit-Going e rest (ready n) s h = deliver_all-Going n rest _ (record {
      split = h.split;
      queue = h.queue ∙ sym (append_assoc s.open_ (e ∷ []) rest);
      kept = h.kept;
      unfinished = h.unfinished;
      accounted = rw h.accounted (append_assoc s.commits s.open_ (e ∷ []));
      distinct = h.distinct;
      known = Known-append s.pool.stop s.open_ (e ∷ []) h.known;
    })
    open_unit-Going e rest (refused err) s h = elim (Bool-cases (is_canceled err)) [
      | inl c ↦ rw c (canceled-Halted (e ∷ rest) s h)
      | inr c ↦
          let none_open : Known (some (prepare_stop env e err)) s.open_ = ((λ y q. cc), λ q. cc) in
          rw c (
            e ∷ rest,
            record {
              split = h.split;
              queue = h.queue;
              kept = h.kept;
              unfinished = h.unfinished;
              accounted = h.accounted;
              distinct = h.distinct;
              known = request_stop-Known _ s.pool s.open_ none_open h.known;
            },
            none_open,
          )
    ]

    prepare-Going :
        (e : Entry) (rest : List Entry) (s : SessionRun W)
        → Running all line (e ∷ rest) s
        → Going rest (prepare env e s)
    unfolding prepare
    prepare-Going e rest s h =
        let (p, w) = env.prepare_unit e.frozen s.pool.canceled s.world in
        open_unit-Going e rest p _ (moved_on (e ∷ rest) s w h)

    -- A window that was filled and is still empty has no unit left to take.
    abbrev pub Full : Filled × SessionRun W → Type 0
    Full (cut st, s) = Halted st s
    Full (filled rest, s) = Running all line rest s × (s.open_ ≡ [] → rest ≡ [])

    cut_by-Full :
        (rest : List Entry) (r : Option SessionStop × SessionRun W) (k : Filled × SessionRun W)
        → Going rest r
        → (Running all line rest r.1 → Full k)
        → Full (cut_by env r.0 r.1 k)
    cut_by-Full rest (none, s) k g f = f g
    cut_by-Full rest (some st, s) k g f = g

    pub fill-Full :
        (window : ℕ) (rest : List Entry) (s : SessionRun W)
        → 0 < window
        → Running all line rest s
        → Full (fill env window rest s)
    unfolding fill
    fill-Full window [] s pos h = (h, λ q. refl)
    fill-Full window (e ∷ es) s pos h = elim (Bool-cases (ltb (length s.open_) window)) [
      | inl c ↦
          rw (fill, c)
            (cut_by-Full es (prepare env e s) _ (prepare-Going e es s h)
              (λ k. fill-Full window es _ pos k))
      | inr c ↦ rw (fill, c) (h, λ q. let z : ltb 0 window ≡ false = rw q at c in ground arith)
    ]

    awakened-Clear :
        (may_commit : Bool) (rest : List Entry) (r : Option SessionStop × SessionRun W)
        → Clear rest r
        → Clear rest (awakened env may_commit r.0, r.1)
    awakened-Clear m rest (some st, s) h = h
    awakened-Clear true rest (none, s) h = h
    awakened-Clear false rest (none, s) (h, _) = canceled-Halted rest s h

    pub wait-Clear :
        (head : Entry) (rest : List Entry) (s : SessionRun W)
        → Running all line rest s
        → Clear rest (wait env head s)
    unfolding wait
    wait-Clear head rest s h =
        let (u, w) = env.wake head.frozen s.world in
        awakened-Clear (committable u) rest _ (stop_now-Clear rest _ (moved_on rest s w h))
