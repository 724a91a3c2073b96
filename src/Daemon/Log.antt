-- ===== src/Daemon/Log.antt =====
-- internal/daemon/log.go: `RotateLogIfNeeded`, on the log and its numbered backups. A file is the list of
-- its bytes, and `none` where it does not exist. The function runs under a file lock, so nothing but the
-- writers of the log changes the files meanwhile.
pub mod Laws
use agy_go.Prelude.{
  ℕ, zero, suc, ◌+◌, ◌*◌, Bool, true, false, not, ◌&&◌, ◌||◌, List, [], ◌++◌, Option, none, some,
  if◌then◌else◌, ltb, ◌==◌, length,
}
use agy_go.Prelude.Int.{ℤ, pos, ltb_ℤ}

abbrev pub File : Type 0
File = Option (List ℕ)

abbrev pub exists : File → Bool
exists none = false
exists (some c) = true

abbrev pub size : File → ℤ
size none = pos 0
size (some c) = pos (length c)

-- The active log, and the backup with each number.
pub record LogFiles : Type 0 where
  pub active : File
  pub backup : ℕ → File

-- Where the file system fails; `restat` is the second `Stat`, under the lock. A failing `Stat` or
-- `Rename` of the backup with the number leaves it where it is, and is passed over.
pub record LogFaults : Type 0 where
  pub unsafe : Bool
  pub stat : Bool
  pub lock : Bool
  pub restat : Bool
  pub rename : ℕ → Bool
  pub copy : Bool
  -- What a copy that fails leaves of the first backup.
  pub partial : File
  pub reopen : Bool
  pub truncate : Bool

-- What the writers of the log append while it is rotated: between the second `Stat` and the end of the
-- copy, and between that and the truncation.
pub record LogWrites : Type 0 where
  pub before_copied : List ℕ
  pub before_truncated : List ℕ

abbrev pub append : File → List ℕ → File
append none written = none
append (some c) written = some (c ++ written)

abbrev pub set_file : ℕ → File → (ℕ → File) → ℕ → File
set_file n c f j = if j == n then c else f j

-- One round of the loop: `os.Rename(src, dst)` if the source exists, its error ignored.
unfoldable pub move_up : (ℕ → Bool) → ℕ → (ℕ → File) → ℕ → File
move_up fails i f =
    if exists (f i) && not (fails i) then set_file i none (set_file (i + 1) (f i) f) else f

-- The loop from `n` down to 1.
unfoldable pub shift_backups : (ℕ → Bool) → ℕ → (ℕ → File) → ℕ → File
unfolding move_up
shift_backups fails zero f = f
shift_backups fails (suc n) f = shift_backups fails n (move_up fails (suc n) f)

abbrev predecessor : ℕ → ℕ
predecessor zero = zero
predecessor (suc n) = n

pub data Rotation : Type 0 where
  failed kept rotated : Rotation

-- From the copy on. What is appended after the copy is truncated with the rest.
copy_and_truncate : LogFaults → LogWrites → ℕ → LogFiles → Rotation × LogFiles
copy_and_truncate faults writes count files =
    let grown = append files.active writes.before_copied in
    if not (count == 0) && faults.copy
    then (failed, record { active = grown; backup = set_file 1 faults.partial files.backup })
    else (let backups = if count == 0 then files.backup else set_file 1 grown files.backup in
        if faults.reopen || faults.truncate
        then (failed, record { active = append grown writes.before_truncated; backup = backups })
        else (rotated, record { active = some []; backup = backups }))

under_lock : LogFaults → LogWrites → ℤ → ℕ → Bool → LogFiles → Rotation × LogFiles
unfolding shift_backups copy_and_truncate
under_lock faults writes max_bytes count force files =
    if faults.restat
    then (failed, files)
    else (if not (exists files.active)
        then (kept, files)
        else (if not force && ltb_ℤ (size files.active) max_bytes
            then (kept, files)
            else copy_and_truncate faults writes count (record files {
              backup = shift_backups faults.rename (predecessor count) files.backup;
            })))

-- `max_bytes` and `count` after the defaults have been put in; `later` is what the log holds when the
-- lock has been taken.
unfoldable pub rotate_log_if_needed :
    LogFaults → LogWrites → ℤ → ℕ → Bool → LogFiles → File → Rotation × LogFiles
unfolding under_lock
rotate_log_if_needed faults writes max_bytes count force files later =
    if faults.unsafe || faults.stat
    then (failed, files)
    else (if not (exists files.active) || (not force && ltb_ℤ (size files.active) max_bytes)
        then (kept, files)
        else (if faults.lock
            then (failed, files)
            else under_lock faults writes max_bytes count force (record files { active = later })))
