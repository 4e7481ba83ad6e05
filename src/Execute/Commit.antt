-- ===== src/Execute/Commit.antt =====
-- component_commit.go: one validated output moves onto its target.
pub mod Keeps
use dorganizer.Prelude.{
  Bool, true, false, not, List, [], ◌∷◌, ◌++◌, Option, none, some, Bytes, codes, if◌then◌else◌,
}
use dorganizer.GoPath
use dorganizer.Execute.Toolkit.{FileError, Toolkit}
use dorganizer.Execute.Plan.{posix_form, PlannedEncode}
use dorganizer.Execute.Delete.{soft_remove}

-- The recovery paths, whether the new output landed, and whether there is an error.
pub record Landing : Type 0 where
  pub recovery : List Bytes
  pub landed : Bool
  pub failed : Bool

abbrev pub landing : List Bytes → Bool → Bool → Landing
landing recovery landed failed = record { recovery = recovery; landed = landed; failed = failed }

-- `<dir>/<base><infix><uuid>`, for both staging names.
abbrev staged_name : Bytes → Bytes → Bytes → Bytes
staged_name target infix_ uuid =
    GoPath.join (GoPath.dir target ∷ (GoPath.base target ++ (infix_ ++ uuid)) ∷ [])

unfoldable pub temp_output_path : Bytes → Bytes → Bytes
temp_output_path target uuid = staged_name target (codes ".tmp.") uuid

unfoldable pub replaced_aside_path : Bytes → Bytes → Bytes
replaced_aside_path target uuid = staged_name target (codes ".tmp-old.") uuid

module _ {W : Type 0} (tk : Toolkit W) where
  abbrev pub fresh_landing : Option FileError × W → Landing × W
  fresh_landing (none, w) = (landing [] true false, w)
  fresh_landing (some e, w) = (landing [] false true, w)

  -- After the new output could not be renamed: the old file goes back, or its copy is reported.
  abbrev pub restored : Bytes → Option FileError × W → Landing × W
  restored copy (none, w) = (landing [] false true, w)
  restored copy (some e, w) = (landing (posix_form copy ∷ []) false true, w)

  abbrev pub cleaned : Bytes → Option FileError × W → Landing × W
  cleaned aside (none, w) = (landing [] true false, w)
  cleaned aside (some e, w) = (landing (posix_form aside ∷ []) true true, w)

  -- The old file is kept at `copy`: the new output lands, or the old file is restored.
  abbrev pub land_soft : PlannedEncode → Bytes → Option FileError × W → Landing × W
  land_soft enc copy (none, w) = (landing (posix_form copy ∷ []) true false, w)
  land_soft enc copy (some e, w) = restored copy (tk.rename copy enc.target w)

  abbrev pub land_hard : PlannedEncode → Bytes → Option FileError × W → Landing × W
  land_hard enc aside (none, w) = cleaned aside (tk.remove aside w)
  land_hard enc aside (some e, w) = restored aside (tk.rename aside enc.target w)

  abbrev pub after_protect_soft : PlannedEncode → Option Bytes × W → Landing × W
  after_protect_soft enc (none, w) = (landing [] false true, w)
  after_protect_soft enc (some copy, w) = land_soft enc copy (tk.rename enc.temp enc.target w)

  abbrev pub after_protect_hard : PlannedEncode → Bytes → Option FileError × W → Landing × W
  after_protect_hard enc aside (some e, w) = (landing [] false true, w)
  after_protect_hard enc aside (none, w) = land_hard enc aside (tk.rename enc.temp enc.target w)

  unfoldable pub commit_output : Bytes → PlannedEncode → Bool → W → Landing × W
  commit_output abs_root enc is_soft w =
      let (uuid, w') = tk.uuid8 w in
      let aside = replaced_aside_path enc.target uuid in
      if not enc.replace
      then fresh_landing (tk.rename enc.temp enc.target w)
      else if is_soft
      then after_protect_soft enc (soft_remove tk abs_root enc.target w)
      else after_protect_hard enc aside (tk.rename enc.target aside w')
