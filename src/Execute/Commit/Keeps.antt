-- ===== src/Execute/Commit/Keeps.antt =====
-- What a commit does to the media on disk, given what the file system documents.
use dorganizer.Prelude.{
  Bool, true, false, [], ◌∷◌, Option, none, some, Bytes, bytes_beq, bytes_beq_iff, ◌≡◌, refl, ◌∙◌,
  arith, Bool-cases, Option-cases, ◌⊎◌, inl, inr,
}
use dorganizer.Prelude.Member.{elem}
use dorganizer.Execute.Toolkit.{FileError, Toolkit, DiskLaws}
use dorganizer.Execute.Plan.{posix_form, PlannedEncode}
use dorganizer.Execute.Delete.{soft_remove}
use dorganizer.Execute.Commit.{
  Landing, landing, replaced_aside_path, restored, cleaned, land_soft, land_hard,
  after_protect_soft, after_protect_hard, commit_output,
}
use dorganizer.Execute.Moves.{
  apart_by, Moved, Moved-from, rename-Moved, SoftMoved, soft_remove-SoftMoved,
}

module _ {W : Type 0} (tk : Toolkit W) (disk : W → Bytes → Option Bytes)
    (laws : DiskLaws tk disk) where
  -- The old file stands at a path that the landing reports.
  abbrev pub Kept : Landing → W → Bytes → Type 0
  Kept l v old = (d : Bytes) × (elem (posix_form d) l.recovery ≡ true) × (disk v d ≡ some old)

  -- What a commit promises of the output and of the file that it replaces.
  pub record Keeps (target : Bytes) (is_soft : Bool) (old new : Bytes) (l : Landing) (v : W)
      : Type 0 where
    pub in_place : l.landed ≡ true → disk v target ≡ some new
    pub still_there : l.landed ≡ false → (disk v target ≡ some old) ⊎ Kept l v old
    pub recoverable : l.landed ≡ true → (is_soft ≡ true) ⊎ (l.failed ≡ true) → Kept l v old

  -- The files while the old one is out of the way.
  record Aside (enc : PlannedEncode) (copy old new : Bytes) (v : W) : Type 0 where
    copied : disk v copy ≡ some old
    staged : disk v enc.temp ≡ some new
    copy_target : bytes_beq copy enc.target ≡ false
    target_copy : bytes_beq enc.target copy ≡ false
    copy_temp : bytes_beq copy enc.temp ≡ false
    temp_target : bytes_beq enc.temp enc.target ≡ false

  beq_refl : (p : Bytes) → bytes_beq p p ≡ true
  beq_refl p = (bytes_beq_iff p p).1 refl

  beq_sym : (a b : Bytes) → bytes_beq a b ≡ false → bytes_beq b a ≡ false
  beq_sym a b h = ground (arith, bytes_beq_iff a b, bytes_beq_iff b a)

  -- Right after the old file has been moved to a free path.
  out_of_the_way :
      (enc : PlannedEncode) (copy old new : Bytes) (w v : W)
      → disk w enc.target ≡ some old
      → disk w enc.temp ≡ some new
      → bytes_beq enc.temp enc.target ≡ false
      → disk w copy ≡ none
      → Moved tk disk laws enc.target copy w none v
      → Aside enc copy old new v
  out_of_the_way enc copy old new w v at_target at_temp ne free h =
      let tc = apart_by tk disk laws w enc.target copy old at_target free in
      let pc = apart_by tk disk laws w enc.temp copy new at_temp free in
      record {
        copied = h copy ∙ rw (beq_refl copy) at_target;
        staged = h enc.temp ∙ rw (pc, ne) at_temp;
        copy_target = beq_sym enc.target copy tc;
        target_copy = tc;
        copy_temp = beq_sym enc.temp copy pc;
        temp_target = ne;
      }

  module _ (enc : PlannedEncode) (old new : Bytes) (is_soft : Bool) where
    abbrev Holds : Landing × W → Type 0
    Holds (l, v) = Keeps enc.target is_soft old new l v

    reported : (copy : Bytes) → elem (posix_form copy) (posix_form copy ∷ []) ≡ true
    unfolding elem
    reported copy = ground (arith, bytes_beq_iff (posix_form copy) (posix_form copy))

    restored-Keeps :
        (copy : Bytes) (v : W)
        → disk v copy ≡ some old
        → bytes_beq copy enc.target ≡ false
        → Holds (restored tk copy (tk.rename copy enc.target v))
    restored-Keeps copy v h ne = elim (Option-cases (tk.rename copy enc.target v).0) [
      | inl e ↦
          rw (e, restored)
            (record {
              in_place = λ q. cc;
              still_there = λ _.
                  inl (
                    laws.rename_done copy enc.target v ne e enc.target
                    ∙ rw (beq_refl enc.target) h);
              recoverable = λ q _. cc;
            })
      | inr (x, e) ↦
          rw (e, restored)
            (record {
              in_place = λ q. cc;
              still_there =
                  λ _. inr (copy, reported copy, laws.rename_failed copy enc.target v x e copy ∙ h);
              recoverable = λ q _. cc;
            })
    ]

    -- The new output after its rename, and the copy with it.
    landed_at :
        (copy : Bytes) (v : W)
        → Aside enc copy old new v
        → (tk.rename enc.temp enc.target v).0 ≡ none
        → (disk (tk.rename enc.temp enc.target v).1 enc.target ≡ some new)
          × (disk (tk.rename enc.temp enc.target v).1 copy ≡ some old)
    landed_at copy v a e = (
      laws.rename_done enc.temp enc.target v a.temp_target e enc.target
          ∙ rw (beq_refl enc.target) a.staged,
      laws.rename_done enc.temp enc.target v a.temp_target e copy
          ∙ rw (a.copy_target, a.copy_temp) a.copied,
    )

    land_soft-Keeps :
        (copy : Bytes) (v : W)
        → Aside enc copy old new v
        → Holds (land_soft tk enc copy (tk.rename enc.temp enc.target v))
    land_soft-Keeps copy v a = elim (Option-cases (tk.rename enc.temp enc.target v).0) [
      | inl e ↦
          let (here, there) = landed_at copy v a e in
          rw (e, land_soft)
            (record {
              in_place = λ _. here;
              still_there = λ q. cc;
              recoverable = λ _ _. (copy, reported copy, there);
            })
      | inr (x, e) ↦
          rw (e, land_soft)
            (restored-Keeps copy (tk.rename enc.temp enc.target v).1
              (laws.rename_failed enc.temp enc.target v x e copy ∙ a.copied) a.copy_target)
    ]

    cleaned-Keeps :
        (aside : Bytes) (v : W)
        → is_soft ≡ false
        → disk v enc.target ≡ some new
        → disk v aside ≡ some old
        → bytes_beq enc.target aside ≡ false
        → Holds (cleaned tk aside (tk.remove aside v))
    cleaned-Keeps aside v hard here there ne = elim (Option-cases (tk.remove aside v).0) [
      | inl e ↦
          rw (e, cleaned)
            (record {
              in_place = λ _. laws.remove_done aside v e enc.target ∙ rw ne here;
              still_there = λ q. cc;
              recoverable = λ _ s. elim s [ inl q ↦ cc | inr q ↦ cc ];
            })
      | inr (x, e) ↦
          rw (e, cleaned)
            (record {
              in_place = λ _. laws.remove_failed aside v x e enc.target ∙ here;
              still_there = λ q. cc;
              recoverable =
                  λ _ _. (aside, reported aside, laws.remove_failed aside v x e aside ∙ there);
            })
    ]

    land_hard-Keeps :
        (aside : Bytes) (v : W)
        → is_soft ≡ false
        → Aside enc aside old new v
        → Holds (land_hard tk enc aside (tk.rename enc.temp enc.target v))
    land_hard-Keeps aside v hard a = elim (Option-cases (tk.rename enc.temp enc.target v).0) [
      | inl e ↦
          let (here, there) = landed_at aside v a e in
          rw (e, land_hard)
            (cleaned-Keeps aside (tk.rename enc.temp enc.target v).1 hard here there a.target_copy)
      | inr (x, e) ↦
          rw (e, land_hard)
            (restored-Keeps aside (tk.rename enc.temp enc.target v).1
              (laws.rename_failed enc.temp enc.target v x e aside ∙ a.copied) a.copy_target)
    ]

    untouched : (v : W) → disk v enc.target ≡ some old → Holds (landing [] false true, v)
    untouched v h = record { in_place = λ q. cc; still_there = λ _. inl h; recoverable = λ q _. cc }

    module _ (w : W) (at_target : disk w enc.target ≡ some old)
        (at_temp : disk w enc.temp ≡ some new) (ne : bytes_beq enc.temp enc.target ≡ false) where
      soft-Keeps :
          (r : Option Bytes × W)
          → SoftMoved tk disk laws enc.target w r
          → Holds (after_protect_soft tk enc r)
      soft-Keeps (none, v) same = untouched v (same enc.target ∙ at_target)
      soft-Keeps (some copy, v) (free, h) =
          land_soft-Keeps copy v (out_of_the_way enc copy old new w v at_target at_temp ne free h)

      hard-Keeps :
          (aside : Bytes) (r : Option FileError × W)
          → is_soft ≡ false
          → disk w aside ≡ none
          → Moved tk disk laws enc.target aside w r.0 r.1
          → Holds (after_protect_hard tk enc aside r)
      hard-Keeps aside (none, v) hard free h =
          land_hard-Keeps aside v hard
            (out_of_the_way enc aside old new w v at_target at_temp ne free h)
      hard-Keeps aside (some e, v) hard free h = untouched v (h enc.target ∙ at_target)

  hard_start :
      (w : W) (enc : PlannedEncode) (old : Bytes)
      → disk w enc.target ≡ some old
      → disk w (replaced_aside_path enc.target (tk.uuid8 w).0) ≡ none
      → let aside = replaced_aside_path enc.target (tk.uuid8 w).0 in
        let r = tk.rename enc.target aside (tk.uuid8 w).1 in
        Moved tk disk laws enc.target aside w r.0 r.1
  hard_start w enc old at_target free =
      let (uuid, v) = tk.uuid8 w in
      let aside = replaced_aside_path enc.target uuid in
      let r = tk.rename enc.target aside v in
      Moved-from tk disk laws enc.target aside v w r.0 r.1 (laws.uuid_reads w) (
        rename-Moved tk disk laws enc.target aside v
          (apart_by tk disk laws w enc.target aside old at_target free))

  -- An in-place replacement whose staging name for the old file is free, on every failure of the
  -- tools: a landed output stands at the target; without one the old file is still at the target or
  -- at a reported recovery path; and a soft replacement, or one with an error, that landed reports
  -- where the old file is.
  pub commit_output-Keeps :
      (root : Bytes) (enc : PlannedEncode) (is_soft : Bool) (w : W) (old new : Bytes)
      → enc.replace ≡ true
      → disk w enc.target ≡ some old
      → disk w enc.temp ≡ some new
      → bytes_beq enc.temp enc.target ≡ false
      → disk w (replaced_aside_path enc.target (tk.uuid8 w).0) ≡ none
      → Keeps enc.target is_soft old new
          (commit_output tk root enc is_soft w).0
          (commit_output tk root enc is_soft w).1
  unfolding commit_output
  commit_output-Keeps root enc is_soft w old new again at_target at_temp ne free =
      elim (Bool-cases is_soft) [
        | inl e ↦
            rw (again, e)
              (soft-Keeps enc old new true w at_target at_temp ne (soft_remove tk root enc.target w)
                (soft_remove-SoftMoved tk disk laws root enc.target w old at_target))
        | inr e ↦
            rw (again, e)
              (hard-Keeps enc old new false w at_target at_temp ne
                (replaced_aside_path enc.target (tk.uuid8 w).0) _ refl free
                (hard_start w enc old at_target free))
      ]
