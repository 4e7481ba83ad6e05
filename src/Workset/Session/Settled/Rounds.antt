-- ===== src/Workset/Session/Settled/Rounds.antt =====
-- A session settles, whatever its surroundings do.
use dorganizer.Prelude.{
  ℕ, suc, ◌<◌, ◌≤◌, Bool, true, false, List, [], ◌∷◌, ◌++◌, append_assoc, Option, none, some, ◌≡◌,
  refl, sym, ◌∙◌, arith, Bool-cases, inl, inr,
}
use dorganizer.Prelude.Counting.{count_b}
use dorganizer.Workset.OpenUnit.{TaskError}
use dorganizer.Workset.Report.{ExecutionUnit, ComponentStatus}
use dorganizer.Workset.Session.{
  Entry, SessionStop, session_succeeded, Surroundings, SessionRun, look, stop_now, Filled, filled,
  cut, fill, wait,
}
use dorganizer.Workset.Session.Loop.{
  record_unit, finish_execution, shutdown, stop_session, settle_stop, settle_head, is_failed,
  is_canceled_status, commit_head, admit, await_head, take_head, after_fill, rounds, entries_from,
  new_session, execute_units, reported_stop, code_at, status_at, frozen_of, settle_by,
  settle_commit, go_on,
}
use dorganizer.Workset.Session.Ledger.{
  has_idx, Running, request_stop-Known, look-Running, Halted, Clear, Full, stop_now-Clear,
  fill-Full, wait-Clear, moved_on,
}
use dorganizer.Workset.Session.Settled.{
  Settled, stop_session-Settled, stop_after_head-Settled, shutdown-Running, finish-Settled,
}
use dorganizer.Workset.Session.Discards.{Same, record_unit-Same}

nothing_first : (xs ys : List Entry) → [] ≡ xs ++ ys → xs ≡ []
nothing_first [] ys h = refl
nothing_first (x ∷ xs) ys h = cc

module _ {W : Type 0} (env : Surroundings W) (all : List Entry) where
  recorded-Running :
      (line rest : List Entry) (s t : SessionRun W)
      → Same s t
      → Running all line rest s
      → Running all line rest t
  recorded-Running line rest s t m h = record {
    split = rw m.commits h.split;
    queue = rw m.open_ h.queue;
    kept = m.discards ∙ h.kept;
    unfinished = m.finishes ∙ h.unfinished;
    accounted = rw (m.prepared_units, m.commits, m.open_) h.accounted;
    distinct = h.distinct;
    known = rw (m.stop, m.open_) h.known;
  }

  stop-Settled :
      (line : List Entry) (st : SessionStop) (s : SessionRun W)
      → Halted env all line st s
      → Settled all (stop_session env st s)
  stop-Settled line st s (rest, h, k) = stop_session-Settled env all line rest st s h k

  stop_now-open : (s : SessionRun W) → (stop_now env s).1.open_ ≡ s.open_
  unfolding stop_now look
  stop_now-open s = refl

  wait-open : (head : Entry) (s : SessionRun W) → (wait env head s).1.open_ ≡ s.open_
  unfolding wait stop_now look
  wait-open head s = refl

  module _ (line rest : List Entry) (next : SessionRun W → SessionRun W)
      (goes_on : (s : SessionRun W) → Running all line rest s → Settled all (next s)) where
    settle_by-Settled :
        (status : ComponentStatus) (r : Option SessionStop × SessionRun W)
        → Clear env all line rest r
        → Settled all (settle_by env status next r)
    settle_by-Settled status (some st, s) h = stop-Settled line st s h
    settle_by-Settled status (none, s) (h, _) = elim (Bool-cases (is_canceled_status status)) [
      | inl c ↦ rw c (stop_after_head-Settled env all line rest _ _ s (λ q. cc) h)
      | inr c ↦ rw c (goes_on s h)
    ]

    settle_stop-Settled :
        (status : ComponentStatus) (s : SessionRun W)
        → Running all line rest s
        → Settled all (settle_stop env status next s)
    unfolding settle_stop
    settle_stop-Settled status s h =
        settle_by-Settled status (stop_now env s) (stop_now-Clear env all line rest s h)

    settle_commit-Settled :
        (err : Option TaskError) (status : ComponentStatus) (s : SessionRun W)
        → Running all line rest s
        → Settled all (settle_commit env err status next s)
    settle_commit-Settled none status s h = settle_stop-Settled status s h
    settle_commit-Settled (some err) status s h =
        stop_after_head-Settled env all line rest _ _ s (λ q. cc) h

    settle_head-Settled :
        (head : Entry) (err : Option TaskError) (s : SessionRun W)
        → Running all line rest s
        → Settled all (settle_head env head err next s)
    unfolding settle_head
    settle_head-Settled head err s h =
        let status = status_at head.report_idx s.report in
        elim (Bool-cases (is_failed status)) [
          | inr c ↦ rw c (settle_commit-Settled err status s h)
          | inl c ↦
              let stop = reported_stop head (code_at head.report_idx s.report) in
              rw c (
                settle_stop-Settled status _ (record {
                  split = h.split;
                  queue = h.queue;
                  kept = h.kept;
                  unfinished = h.unfinished;
                  accounted = h.accounted;
                  distinct = h.distinct;
                  known =
                      request_stop-Known env stop s.pool s.open_ ((λ y q. cc), λ q. refl) h.known;
                }))
        ]

    -- The head commits: its unit leaves the line.
    commit_head-Settled :
        (head : Entry) (others : List Entry) (following : Option ExecutionUnit) (s : SessionRun W)
        → s.open_ ≡ head ∷ others
        → s.pool.stop ≡ none
        → line ≡ others ++ rest
        → Running all (head ∷ line) rest s
        → Settled all (commit_head env head others following next s)
    unfolding commit_head
    commit_head-Settled head others following s o n q h =
        let ((res, err), w) = env.commit head.frozen s.pool.canceled s.world in
        let s1 = record s { open_ = others; commits = s.commits ++ head ∷ []; world = w } in
        let popped : Running all line rest s1 = record {
          split = h.split ∙ sym (append_assoc s.commits (head ∷ []) line);
          queue = q;
          kept = h.kept;
          unfinished = h.unfinished;
          accounted = h.accounted ∙ rw o (sym (append_assoc s.commits (head ∷ []) others));
          distinct = h.distinct;
          known = rw n tt;
        } in
        let s2 = record_unit env head.report_idx res following (look env s1) in
        let run =
          recorded-Running line rest (look env s1) s2.1
            (record_unit-Same env head.report_idx res following (look env s1))
            (look-Running env all line rest s1 popped) in
        elim (Bool-cases s2.0) [
          | inl c ↦ rw c (settle_head-Settled head err s2.1 run)
          | inr c ↦ rw c (stop_after_head-Settled env all line rest _ _ s2.1 (λ q. cc) run)
        ]

    -- From a full window on: the head is the first of the line.
    admit-Settled :
        (head : Entry) (others : List Entry) (following : Option ExecutionUnit)
        (r : Option SessionStop × SessionRun W)
        → r.1.open_ ≡ head ∷ others
        → line ≡ others ++ rest
        → Clear env all (head ∷ line) rest r
        → Settled all (admit env head others following next r)
    admit-Settled head others following (some st, s) o q h = stop-Settled (head ∷ line) st s h
    admit-Settled head others following (none, s) o q (h, n) =
        commit_head-Settled head others following s o n q h

    await_head-Settled :
        (head : Entry) (others : List Entry) (following : Option ExecutionUnit)
        (r : Option SessionStop × SessionRun W)
        → r.1.open_ ≡ head ∷ others
        → line ≡ others ++ rest
        → Clear env all (head ∷ line) rest r
        → Settled all (await_head env head others following next r)
    await_head-Settled head others following (some st, s) o q h = stop-Settled (head ∷ line) st s h
    await_head-Settled head others following (none, s) o q (h, _) =
        admit-Settled head others following (stop_now env s) (stop_now-open s ∙ o) q
          (stop_now-Clear env all (head ∷ line) rest s h)

  -- The window has a head as long as the line has a unit.
  take_head-Settled :
      (u : Entry) (us rest window : List Entry) (following : Option ExecutionUnit)
      (next : SessionRun W → SessionRun W)
      → ((s : SessionRun W) → Running all us rest s → Settled all (next s))
      → (s : SessionRun W) → s.open_ ≡ window
      → (s.open_ ≡ [] → rest ≡ [])
      → Running all (u ∷ us) rest s
      → Settled all (take_head env window following next s)
  take_head-Settled u us rest [] following next goes_on s o e h =
      let nothing : u ∷ us ≡ [] = h.queue ∙ rw (o, e o) refl in cc
  take_head-Settled u us rest (head ∷ others) following next goes_on s o e h =
      let front : u ∷ us ≡ head ∷ (others ++ rest) = h.queue ∙ rw o refl in
      let same : u ≡ head = ground arith in
      let tail : us ≡ others ++ rest = ground arith in
      await_head-Settled us rest next goes_on head others following (wait env head s)
        (wait-open head s ∙ o) tail (rw (sym same) (wait-Clear env all (u ∷ us) u rest s h))

  after_fill-Settled :
      (u : Entry) (us : List Entry) (following : Option ExecutionUnit)
      (next : List Entry → SessionRun W → SessionRun W)
      → ((rest : List Entry) (s : SessionRun W) → Running all us rest s → Settled all (next rest s))
      → (r : Filled × SessionRun W) → Full env all (u ∷ us) r
      → Settled all (after_fill env following next r)
  after_fill-Settled u us following next goes_on (cut st, s) h = stop-Settled (u ∷ us) st s h
  after_fill-Settled u us following next goes_on (filled rest, s) (h, e) =
      take_head-Settled u us rest s.open_ following (next rest) (goes_on rest) s refl e h

  go_on-Settled :
      (line rest : List Entry) (r : Option SessionStop × SessionRun W) (go : SessionRun W)
      → Clear env all line rest r
      → (Running all line rest r.1 → Settled all go)
      → Settled all (go_on env r.0 r.1 go)
  go_on-Settled line rest (some st, s) go h k = stop-Settled line st s h
  go_on-Settled line rest (none, s) go (h, _) k = k h

  rounds-Settled :
      (window : ℕ) (first : Bool) (line rest : List Entry) (s : SessionRun W)
      → 0 < window
      → Running all line rest s
      → Settled all (rounds env window first line rest s)
  unfolding rounds
  rounds-Settled window first [] rest s pos h =
      let t = shutdown env s in
      let run = shutdown-Running env all [] rest s h in
      finish-Settled env all [] rest session_succeeded [] t t run refl refl refl
        (λ i. rw (run.kept, nothing_first t.open_ rest run.queue) refl) (λ q. refl)
  rounds-Settled window first (u ∷ us) rest s pos h =
      let r = stop_now env s in
      let on : List Entry → SessionRun W → SessionRun W = λ left. rounds env window false us left in
      let continued : (left : List Entry) (t : SessionRun W)
          → Running all us left t
          → Settled all (on left t) =
        λ left t k. rounds-Settled window false us left t pos k in
      go_on-Settled (u ∷ us) rest r _ (stop_now-Clear env all (u ∷ us) rest s h) (λ k.
        elim (Bool-cases first) [
          | inl c ↦
              let t = record r.1 { world = env.position u.frozen r.1.world } in
              rw c (
                after_fill-Settled u us (frozen_of us) on continued (fill env window rest t) (
                  fill-Full env all (u ∷ us) window rest t pos
                    (moved_on env all (u ∷ us) rest r.1 _ k)))
          | inr c ↦ rw c (
              after_fill-Settled u us (frozen_of us) on continued (fill env window rest r.1)
                (fill-Full env all (u ∷ us) window rest r.1 pos k))
        ])

-- No two entries have one place in the report.
early_idx :
    (i n : ℕ) (us : List ExecutionUnit) → i < n → count_b (has_idx i) (entries_from n us) ≡ 0
unfolding entries_from count_b
early_idx i n [] h = refl
early_idx i n (u ∷ us) h = ground (arith, early_idx i (suc n) us (omega arith))

entries_from-distinct :
    (n : ℕ) (us : List ExecutionUnit) (i : ℕ) → count_b (has_idx i) (entries_from n us) ≤ 1
unfolding entries_from count_b
entries_from-distinct n [] i = omega arith
entries_from-distinct n (u ∷ us) i =
    ground (arith, entries_from-distinct (suc n) us i, early_idx i (suc n) us)

-- Whatever the tasks, the workers, the user and the repository do, and however they take turns, a
-- session with a window of at least one unit ends with exactly one terminal write. The units that
-- the task prepared are a prefix of the worklist; the units that were told to commit are a prefix
-- of those, in the order of the worklist; each of the other prepared units was told to discard
-- exactly once, and no other unit was; and the session ends as succeeded only when every unit was
-- told to commit.
pub execute_units-Settled :
    {W : Type 0} (env : Surroundings W) (window : ℕ) (units : List ExecutionUnit) (w : W)
    → 0 < window
    → Settled (entries_from 0 units) (execute_units env window units w)
unfolding execute_units new_session entries_from finish_execution
execute_units-Settled env window [] w pos = record {
  behind = [];
  untouched = [];
  status = session_succeeded;
  worklist = refl;
  prepared = refl;
  discarded = λ i. refl;
  finished = refl;
  complete = λ q. refl;
}
execute_units-Settled env window (u ∷ us) w pos =
    let all = entries_from 0 (u ∷ us) in
    rounds-Settled env all window true all all (new_session (u ∷ us) w) pos (record {
      split = refl;
      queue = refl;
      kept = refl;
      unfinished = refl;
      accounted = refl;
      distinct = entries_from-distinct 0 (u ∷ us);
      known = tt;
    })
