-- ===== src/Execute/Toolkit.antt =====
-- What a component run does to the world: the toolkit of component_run.go, the encoder port of
-- encoder.go, and the calls of package os. The world is a parameter: each call answers and leaves
-- another world.
use dorganizer.Prelude.{
  ℕ, List, Bool, false, Option, none, some, Bytes, bytes_beq, ◌≡◌, if◌then◌else◌,
}
use dorganizer.Prelude.Int.{ℤ}
use dorganizer.Reconcile.Types.{AudioOutputSpec}

-- What the code asks of an error of the file system: `errors.Is(err, fs.ErrNotExist)`,
-- `isPermissionDenied` and `isLockedOrBusy`, which read Go's error values and their texts.
pub record FileError : Type 0 where
  pub not_exist : Bool
  pub permission : Bool
  pub locked : Bool

-- `fs.FileInfo`, its modification time in nanoseconds of the Unix epoch.
pub record FileInfo : Type 0 where
  pub is_dir : Bool
  pub is_regular : Bool
  pub is_symlink : Bool
  pub size : ℤ
  pub mtime : ℤ

-- `os.Lstat`
pub data Lstat : Type 0 where
  missing unreadable : Lstat
  found : FileInfo → Lstat

pub record Toolkit (W : Type 0) : Type 0 where
  pub encode : Bytes → Bytes → AudioOutputSpec → W → Bool × W  -- true where it succeeds
  pub rename : Bytes → Bytes → W → Option FileError × W
  pub remove : Bytes → W → Option FileError × W
  pub probe : Bytes → W → Option Bytes × W  -- the codec of the first audio stream
  pub canceled : W → Bool × W  -- `ctx.Err() != nil`
  pub mkdir_all : Bytes → W → Bool × W
  pub uuid8 : W → Bytes × W  -- the first eight characters of a new UUID
  pub lstat : Bytes → W → Lstat
  pub check_tools : W → Bool
  pub rel : Bytes → Bytes → Option Bytes  -- `filepath.Rel`
  pub eval_symlinks : Bytes → W → Option Bytes
  pub to_lower : Bytes → Bytes
  pub rune_lens : Bytes → List ℕ  -- the byte lengths of the runes that a `range` loop yields

-- The content of the regular files of a world, as far as the run's promises speak of it. A call
-- that fails leaves every content in place, and one that succeeds moves or drops one file.
pub record DiskLaws {W : Type 0} (tk : Toolkit W) (disk : W → Bytes → Option Bytes) : Type 0 where
  pub rename_done :
      (a b : Bytes) (w : W)
      → bytes_beq a b ≡ false
      → (tk.rename a b w).0 ≡ none
      → (p : Bytes)
      → disk (tk.rename a b w).1 p
        ≡ (if bytes_beq p b then disk w a else if bytes_beq p a then none else disk w p)
  pub rename_failed :
      (a b : Bytes) (w : W) (e : FileError)
      → (tk.rename a b w).0 ≡ some e
      → (p : Bytes) → disk (tk.rename a b w).1 p ≡ disk w p
  pub remove_done :
      (a : Bytes) (w : W)
      → (tk.remove a w).0 ≡ none
      → (p : Bytes) → disk (tk.remove a w).1 p ≡ (if bytes_beq p a then none else disk w p)
  pub remove_failed :
      (a : Bytes) (w : W) (e : FileError)
      → (tk.remove a w).0 ≡ some e
      → (p : Bytes) → disk (tk.remove a w).1 p ≡ disk w p
  pub encode_local :
      (a b : Bytes) (spec : AudioOutputSpec) (w : W) (p : Bytes)
      → bytes_beq p b ≡ false
      → disk (tk.encode a b spec w).1 p ≡ disk w p
  pub probe_reads : (a : Bytes) (w : W) (p : Bytes) → disk (tk.probe a w).1 p ≡ disk w p
  pub canceled_reads : (w : W) (p : Bytes) → disk (tk.canceled w).1 p ≡ disk w p
  pub mkdir_keeps : (a : Bytes) (w : W) (p : Bytes) → disk (tk.mkdir_all a w).1 p ≡ disk w p
  pub uuid_reads : (w : W) (p : Bytes) → disk (tk.uuid8 w).1 p ≡ disk w p
  pub lstat_missing : (a : Bytes) (w : W) → tk.lstat a w ≡ missing → disk w a ≡ none
