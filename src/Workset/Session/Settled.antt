-- ===== src/Workset/Session/Settled.antt =====
-- What a session has told its units to do when it ends.
pub mod Rounds
use dorganizer.Prelude.{
  ℕ, zero, suc, ◌+◌, ◌≤◌, ◌<◌, Bool, true, false, ◌&&◌, ◌||◌, not, List, [], ◌∷◌, ◌++◌,
  append_assoc, append-nil, length, Option, none, some, Bytes, is_nil, is_some, if◌then◌else◌,
  nat_beq, ltb, any_b, any_b-append, ◌≡◌, ◌≢◌, refl, sym, ◌∙◌, arith, Bool-cases, Option-cases, inl,
  inr,
}
use dorganizer.Prelude.Counting.{count_b, count_b-append, any_b-count_b}
use dorganizer.Workset.OpenUnit.{TaskError}
use dorganizer.Workset.Report.{
  ExecutionUnit, ExecutionComponentView, entry_at, update_at, apply_prepare_failure, UnitResult,
}
use dorganizer.Workset.Session.{
  Entry, SessionStop, canceled_stop, Pool, SessionStatus, session_succeeded, session_canceled,
  session_failed, Surroundings, SessionRun, look,
}
use dorganizer.Workset.Session.Loop.{
  is_entry, persist_entry, sync_unit_inventory, record_unit, discard_entry, discard_open,
  discard_failed, fail_preparation, report_failed_unit, finish_execution, shutdown, decided,
  end_stopped, stop_session, stop_after_head,
}
use dorganizer.Workset.Session.Ledger.{has_idx, holds, Known, Running, look-Running}
use dorganizer.Workset.Session.Discards.{
  count_idx, Same, Dropped, Reported, passed, told_first, discard_open-Dropped,
  report_failed_unit-Reported, all_told,
}

-- A session that has ended: the prepared units are the first ones of the worklist, of them the first
-- ones were told to commit, and each of the others was discarded once.
pub record Settled {W : Type 0} (all : List Entry) (s : SessionRun W) : Type 0 where
  pub behind : List Entry
  pub untouched : List Entry
  pub status : SessionStatus
  pub worklist : all ≡ s.prepared_units ++ untouched
  pub prepared : s.prepared_units ≡ s.commits ++ behind
  pub discarded : (i : ℕ) → count_idx i s.discards ≡ count_idx i behind
  pub finished : s.finishes ≡ status ∷ []
  pub complete : status ≡ session_succeeded → s.commits ≡ all

module _ {W : Type 0} (env : Surroundings W) where
  pub shutdown-Running :
      (all line rest : List Entry) (s : SessionRun W)
      → Running all line rest s
      → Running all line rest (shutdown env s)
  unfolding shutdown
  shutdown-Running all line rest s h =
      let k = look-Running env all line rest s h in
      record {
        split = k.split;
        queue = k.queue;
        kept = k.kept;
        unfinished = k.unfinished;
        accounted = k.accounted;
        distinct = k.distinct;
        known = k.known;
      }

  -- The last write, after the window is discarded.
  pub finish-Settled :
      (all line rest : List Entry) (status : SessionStatus) (code : Bytes) (s t : SessionRun W)
      → Running all line rest s
      → t.commits ≡ s.commits
      → t.finishes ≡ s.finishes
      → t.prepared_units ≡ s.prepared_units
      → ((i : ℕ) → count_idx i t.discards ≡ count_idx i s.open_)
      → (status ≡ session_succeeded → line ≡ [])
      → Settled all (finish_execution env status code t)
  unfolding finish_execution
  finish-Settled all line rest status code s t h c f u d ok = record {
    behind = s.open_;
    untouched = rest;
    status = status;
    worklist = h.split ∙ rw (u, h.accounted, h.queue) (sym (append_assoc s.commits s.open_ rest));
    prepared = rw (u, c) h.accounted;
    discarded = d;
    finished = rw (f, h.unfinished) refl;
    complete = λ q. c ∙ sym (h.split ∙ rw (ok q) (append-nil s.commits));
  }

  discard_all :
      (all line rest : List Entry) (s : SessionRun W) (i : ℕ)
      → Running all line rest s
      → count_idx i (discard_open env none s.open_ s).discards ≡ count_idx i s.open_
  unfolding count_b
  discard_all all line rest s i h =
      (discard_open-Dropped env none s.open_ s).told i ∙ rw h.kept (ground arith)

  pub stop_after_head-Settled :
      (all line rest : List Entry) (status : SessionStatus) (code : Bytes) (s : SessionRun W)
      → (status ≡ session_succeeded → line ≡ [])
      → Running all line rest s
      → Settled all (stop_after_head env status code s)
  unfolding stop_after_head
  stop_after_head-Settled all line rest status code s ok h =
      let s' = shutdown env s in
      let k = shutdown-Running all line rest s h in
      let d = discard_open-Dropped env none s'.open_ s' in
      finish-Settled all line rest status code s' _ k d.commits d.finishes d.prepared_units
        (λ i. discard_all all line rest s' i k) ok

  -- The window is a part of the worklist.
  window_distinct :
      (all line rest : List Entry) (s : SessionRun W) (i : ℕ)
      → Running all line rest s
      → count_idx i s.open_ ≤ 1
  window_distinct all line rest s i h =
      let whole : all ≡ s.commits ++ (s.open_ ++ rest) = h.split ∙ rw h.queue refl in
      let few : count_idx i (s.commits ++ (s.open_ ++ rest)) ≤ 1 = rw whole at h.distinct i in
      ground (
        arith,
        count_b-append (has_idx i) s.commits (s.open_ ++ rest),
        count_b-append (has_idx i) s.open_ rest,
      )

  end_stopped-Settled :
      (all line rest : List Entry) (stop : SessionStop) (err : Option TaskError) (s : SessionRun W)
      → Running all line rest s
      → Known (some stop) s.open_
      → Settled all (end_stopped env stop err s)
  unfolding count_b
  end_stopped-Settled all line rest stop none s h k =
      let d = discard_open-Dropped env none s.open_ s in
      finish-Settled all line rest session_canceled _ s _ h d.commits d.finishes d.prepared_units
        (λ i. discard_all all line rest s i h) (λ q. cc)
  end_stopped-Settled all line rest stop (some err) s h (own, alone) =
      let t = report_failed_unit env stop err s in
      let r = report_failed_unit-Reported env stop err s alone in
      let d = discard_open-Dropped env stop.open_ s.open_ t in
      let each : (i : ℕ)
          → count_idx i (discard_open env stop.open_ s.open_ t).discards ≡ count_idx i s.open_ =
        λ i.
          d.told i
          ∙ rw (r.told i, h.kept)
              (ground (
                arith,
                all_told env stop.open_ i s.open_ own (window_distinct all line rest s i h),
              )) in
      finish-Settled all line rest session_failed _ s _ h (d.commits ∙ r.commits)
        (d.finishes ∙ r.finishes) (d.prepared_units ∙ r.prepared_units) each (λ q. cc)

  decided-Known :
      (recorded : Option SessionStop) (observed : SessionStop) (window : List Entry)
      → Known recorded window
      → Known (some observed) window
      → Known (some (decided env recorded observed)) window
  decided-Known none observed window h k = k
  decided-Known (some r) observed window h k = h

  shutdown-open : (s : SessionRun W) → (shutdown env s).open_ ≡ s.open_
  unfolding shutdown look
  shutdown-open s = refl

  pub stop_session-Settled :
      (all line rest : List Entry) (observed : SessionStop) (s : SessionRun W)
      → Running all line rest s
      → Known (some observed) s.open_
      → Settled all (stop_session env observed s)
  unfolding stop_session
  stop_session-Settled all line rest observed s h k =
      let s' = shutdown env s in
      let run = shutdown-Running all line rest s h in
      let same : Known (some observed) s'.open_ = rw (shutdown-open s) k in
      end_stopped-Settled all line rest (decided env s'.pool.stop observed) _ s' run
        (decided-Known s'.pool.stop observed s'.open_ run.known same)
