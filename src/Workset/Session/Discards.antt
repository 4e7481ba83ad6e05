-- ===== src/Workset/Session/Discards.antt =====
-- What a session tells its units to discard: those of the window, and the one that a stop reports.
use dorganizer.Prelude.{
  ℕ, ◌+◌, ◌≤◌, true, ◌&&◌, not, List, [], ◌∷◌, ◌++◌, Option, none, some, is_nil, if◌then◌else◌, ◌≡◌,
  refl, ◌∙◌, arith, Bool-cases, Option-cases, inl, inr,
}
use dorganizer.Prelude.Counting.{count_b, count_b-append, any_b-count_b}
use dorganizer.Workset.OpenUnit.{TaskError}
use dorganizer.Workset.Report.{
  ExecutionUnit, ExecutionComponentView, entry_at, update_at, apply_prepare_failure, UnitResult,
}
use dorganizer.Workset.Session.{Entry, SessionStop, Surroundings, SessionRun}
use dorganizer.Workset.Session.Loop.{
  is_entry, persist_entry, sync_unit_inventory, record_unit, discard_entry, discard_open,
  report_failed_unit,
}
use dorganizer.Workset.Session.Ledger.{has_idx, holds}

-- How many of the entries have the place in the report.
abbrev pub count_idx : ℕ → List Entry → ℕ
count_idx i es = count_b (has_idx i) es

-- What two sessions have in common when they differ in the report and the world.
pub record Same {W : Type 0} (s t : SessionRun W) : Type 0 where
  pub open_ : t.open_ ≡ s.open_
  pub prepared_units : t.prepared_units ≡ s.prepared_units
  pub commits : t.commits ≡ s.commits
  pub discards : t.discards ≡ s.discards
  pub finishes : t.finishes ≡ s.finishes
  pub stop : t.pool.stop ≡ s.pool.stop

module _ {W : Type 0} (env : Surroundings W) where
  rewritten :
      (s t : SessionRun W) (report : List ExecutionComponentView) (w : W)
      → Same s t
      → Same s (record t { report = report; world = w })
  rewritten s t report w h = record {
    open_ = h.open_;
    prepared_units = h.prepared_units;
    commits = h.commits;
    discards = h.discards;
    finishes = h.finishes;
    stop = h.stop;
  }

  pub unchanged : (s : SessionRun W) → Same s s
  unchanged s = record {
    open_ = refl;
    prepared_units = refl;
    commits = refl;
    discards = refl;
    finishes = refl;
    stop = refl;
  }

  persist_entry-Same :
      (i : ℕ) (next : Option ExecutionUnit) (s t : SessionRun W)
      → Same s t
      → Same s (persist_entry env i next t).1
  unfolding persist_entry
  persist_entry-Same i next s t h = elim (Option-cases (entry_at i t.report)) [
    | inl e ↦ rw (persist_entry, e) h
    | inr (v, e) ↦ rw (persist_entry, e) (rewritten s t _ _ h)
  ]

  sync-Same :
      (i : ℕ) (res : UnitResult) (s t : SessionRun W)
      → Same s t
      → Same s (sync_unit_inventory env i res t)
  unfolding sync_unit_inventory
  sync-Same i res s t h = elim (Bool-cases (is_nil res.inventory_error)) [
    | inl e ↦ rw (sync_unit_inventory, e) (rewritten s t _ _ h)
    | inr e ↦ rw (sync_unit_inventory, e) (rewritten s t _ _ h)
  ]

  pub record_unit-Same :
      (i : ℕ) (res : UnitResult) (next : Option ExecutionUnit) (s : SessionRun W)
      → Same s (record_unit env i res next s).1
  unfolding record_unit
  record_unit-Same i res next s =
      persist_entry-Same i next s _ (sync-Same i res s _ (rewritten s s _ s.world (unchanged s)))

  -- Whom a discard of the window passes over.
  abbrev pub passed : Option Entry → ℕ → List Entry → ℕ
  passed except i es = count_b (λ x. not (is_entry except x) && has_idx i x) es

  -- What a discard of the window leaves, and what it adds.
  pub record Dropped (except : Option Entry) (es : List Entry) (s t : SessionRun W) : Type 0 where
    pub prepared_units : t.prepared_units ≡ s.prepared_units
    pub commits : t.commits ≡ s.commits
    pub finishes : t.finishes ≡ s.finishes
    pub told : (i : ℕ) → count_idx i t.discards ≡ count_idx i s.discards + passed except i es

  discard_entry-Same :
      (e : Entry) (s : SessionRun W)
      → Same (record s { discards = s.discards ++ e ∷ [] }) (discard_entry env e s)
  discard_entry-Same e s =
      let t = record s { discards = s.discards ++ e ∷ [] } in
      persist_entry-Same e.report_idx none t _ (rewritten t t _ _ (unchanged t))

  pub discard_open-Dropped :
      (except : Option Entry) (es : List Entry) (s : SessionRun W)
      → Dropped except es s (discard_open env except es s)
  unfolding discard_open count_b
  discard_open-Dropped except [] s = record {
    prepared_units = refl;
    commits = refl;
    finishes = refl;
    told = λ i. ground arith;
  }
  discard_open-Dropped except (e ∷ es) s = elim (Bool-cases (is_entry except e)) [
    | inl c ↦
        let r = discard_open-Dropped except es s in
        rw (discard_open, c)
          (record {
            prepared_units = r.prepared_units;
            commits = r.commits;
            finishes = r.finishes;
            told = λ i. r.told i ∙ rw c refl;
          })
    | inr c ↦
        let m = discard_entry-Same e s in
        let r = discard_open-Dropped except es (discard_entry env e s) in
        rw (discard_open, c)
          (record {
            prepared_units = r.prepared_units ∙ m.prepared_units;
            commits = r.commits ∙ m.commits;
            finishes = r.finishes ∙ m.finishes;
            told = λ i. r.told i ∙ rw (m.discards, count_b-append) (rw c (ground arith));
          })
  ]

  -- Nobody is passed over, or one unit of the window.
  pub passed-one :
      (e : Entry) (i : ℕ) (es : List Entry)
      → passed (some e) i es ≡ (if has_idx i e then 0 else count_idx i es)
  unfolding count_b
  passed-one e i [] = ground arith
  passed-one e i (x ∷ es) = ground (arith, passed-one e i es)

  pub only_one :
      (e : Entry) (i : ℕ) (es : List Entry)
      → holds e.report_idx es ≡ true
      → count_idx i es ≤ 1
      → has_idx i e ≡ true
      → count_idx i es ≡ 1
  only_one e i es h l q =
      let same : i ≡ e.report_idx = ground arith in
      let some_ : holds i es ≡ true = rw same h in ground (arith, any_b-count_b (has_idx i) es)

  -- The unit that a stop reports, if it reports one.
  abbrev pub told_first : Option Entry → ℕ → ℕ
  told_first none i = 0
  told_first (some e) i = if has_idx i e then 1 else 0

  pub record Reported (first : Option Entry) (s t : SessionRun W) : Type 0 where
    pub prepared_units : t.prepared_units ≡ s.prepared_units
    pub commits : t.commits ≡ s.commits
    pub finishes : t.finishes ≡ s.finishes
    pub told : (i : ℕ) → count_idx i t.discards ≡ count_idx i s.discards + told_first first i

  unreported :
      (first : Option Entry) (s t : SessionRun W) → first ≡ none → Same s t → Reported first s t
  unreported first s t e m = record {
    prepared_units = m.prepared_units;
    commits = m.commits;
    finishes = m.finishes;
    told = λ i. rw (m.discards, e) (ground arith);
  }

  pub report_failed_unit-Reported :
      (stop : SessionStop) (err : TaskError) (s : SessionRun W)
      → (stop.reported ≡ true → stop.open_ ≡ none)
      → Reported stop.open_ s (report_failed_unit env stop err s)
  unfolding report_failed_unit count_b
  report_failed_unit-Reported stop err s h = elim (Bool-cases stop.reported) [
    | inl r ↦ rw (report_failed_unit, r) (unreported stop.open_ s s (h r) (unchanged s))
    | inr r ↦ elim (Option-cases stop.open_) [
      | inl e ↦
          rw (report_failed_unit, r, e)
            (unreported none s _ refl (
              persist_entry-Same stop.report_idx none s _ (
                rewritten s s (update_at stop.report_idx (apply_prepare_failure err) s.report)
                  s.world (unchanged s))))
      | inr (x, e) ↦
          let (res, w) = env.discard x.frozen stop.err s.world in
          let t = record s { discards = s.discards ++ x ∷ []; world = w } in
          let m = record_unit-Same stop.report_idx res none t in
          rw (report_failed_unit, r, e)
            (record {
              prepared_units = m.prepared_units;
              commits = m.commits;
              finishes = m.finishes;
              told = λ i. rw (m.discards, count_b-append) (ground arith);
            })
    ]
  ]

  pub all_told :
      (except : Option Entry) (i : ℕ) (es : List Entry)
      → ((e : Entry) → except ≡ some e → holds e.report_idx es ≡ true)
      → count_idx i es ≤ 1
      → told_first except i + passed except i es ≡ count_idx i es
  all_told none i es h l = ground arith
  all_told (some e) i es h l = ground (arith, passed-one e i es, only_one e i es (h e refl) l)
