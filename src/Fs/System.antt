-- ===== src/Fs/System.antt =====
-- What smtp-queue-fs/src/lib.rs calls: openat's folders, walkdir, serde_json, uuid and paths.
use kannader.Prelude.{Bool, Option, List, Bytes, if◌then◌else◌}
use kannader.Queue.Types.{ScheduleInfo, MailMetadata, Result, ok, err}

-- `World` is all that the calls change; a call gives the new world first.
pub record FileSystem (World U : Type 0) : Type 1 where
  pub Dir : Type 0
  pub File : Type 0
  pub PathBuf : Type 0
  pub IoError : Type 0
  pub JsonError : Type 0
  pub WalkError : Type 0
  pub is_not_found : IoError → Bool
  -- Paths; a name is a path of one component.
  pub from : Bytes → PathBuf
  pub join : PathBuf → PathBuf → PathBuf
  pub strip_prefix : PathBuf → Bytes → Option PathBuf
  pub parent : PathBuf → Option PathBuf
  pub file_name : PathBuf → Option Bytes
  -- `Dir::open`, `std::fs::create_dir` and the methods of `Dir`.
  pub open_dir : World → PathBuf → World × Result Dir IoError
  pub create_main_dir : World → PathBuf → World × Result (Unit {0}) IoError
  pub sub_dir : World → Dir → PathBuf → World × Result Dir IoError
  pub create_dir : World → Dir → Bytes → World × Result (Unit {0}) IoError
  pub open_file : World → Dir → PathBuf → World × Result File IoError
  pub new_file : World → Dir → Bytes → World × Result File IoError
  pub read_link : World → Dir → Bytes → World × Result PathBuf IoError
  pub symlink : World → Dir → Bytes → PathBuf → World × Result (Unit {0}) IoError
  pub remove_file : World → Dir → Bytes → World × Result (Unit {0}) IoError
  pub remove_dir : World → Dir → PathBuf → World × Result (Unit {0}) IoError
  pub rename : World → Dir → Bytes → Dir → Bytes → World × Result (Unit {0}) IoError
  pub local_rename : World → Dir → Bytes → Bytes → World × Result (Unit {0}) IoError
  pub list_dir : World → Dir → World × Result (List (Result Bytes IoError)) IoError
  -- `AsyncWrite` of the file with the contents.
  pub flush : World → File → World × Result (Unit {0}) IoError
  -- serde_json
  pub read_metadata : World → File → World × Result (MailMetadata U) JsonError
  pub read_schedule : World → File → World × Result ScheduleInfo JsonError
  pub write_metadata : World → File → MailMetadata U → World × Result (Unit {0}) JsonError
  pub write_schedule : World → File → ScheduleInfo → World × Result (Unit {0}) JsonError
  -- `Uuid::new_v4`, written out
  pub new_uuid : World → World × Bytes
  -- `WalkDir::new(path)`: for each entry, whether it is a link, and its path below the root, if
  -- that is UTF-8.
  pub walk : World → PathBuf → World × List (Result (Bool × Option Bytes) WalkError)

-- The three ways on from a call of the system: `Ok`, an error of kind `NotFound`, another error.
unfoldable pub on_io {ℓ} :
    {W A E : Type 0} {X : Type ℓ}
    → (E → Bool)
    → W × Result A E
    → (W → A → X)
    → (W → X)
    → (W → E → X)
    → X
on_io is_not_found (w, ok a) found gone bad = found w a
on_io is_not_found (w, err e) found gone bad = if is_not_found e then gone w else bad w e

-- `r.map_err(f)?`
infix 30 ◌or_fail◌and◌
unfoldable pub ◌or_fail◌and◌ :
    {W A E E' B : Type 0} → W × Result A E → (E → E') → (W → A → W × Result B E') → W × Result B E'
(w, ok a) or_fail f and g = g w a
(w, err e) or_fail f and g = (w, err (f e))
