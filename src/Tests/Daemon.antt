-- ===== src/Tests/Daemon.antt =====
-- A rotation of internal/daemon/log.go over three backups.
use agy_go.Prelude.{ℕ, ◌==◌, false, [], ◌∷◌, none, some, refl}
use agy_go.Prelude.Int.{pos}
use agy_go.Daemon.Log.{File, LogFiles, LogFaults, LogWrites, rotate_log_if_needed}
use agy_go.Daemon.Log.Laws.{IsRotated, rotate_log_if_needed-IsRotated}

-- The second backup cannot be renamed.
abbrev one_log_fault : LogFaults
one_log_fault = record {
  unsafe = false;
  stat = false;
  lock = false;
  restat = false;
  rename = λ n. n == 2;
  copy = false;
  partial = none;
  reopen = false;
  truncate = false;
}

abbrev full_log : File
full_log = some (1 ∷ 2 ∷ 3 ∷ [])

abbrev old_backups : ℕ → File
old_backups n = some (n ∷ [])

abbrev some_logs : LogFiles
some_logs = record { active = full_log; backup = old_backups }

abbrev late_writes : LogWrites
late_writes = record { before_copied = 4 ∷ []; before_truncated = 5 ∷ [] }

abbrev copied_log : File
copied_log = some (1 ∷ 2 ∷ 3 ∷ 4 ∷ [])

rotate_log_if_needed-IsRotated_example :
    IsRotated one_log_fault.rename 2 copied_log old_backups
      (rotate_log_if_needed one_log_fault late_writes (pos 2) 3 false some_logs full_log).1
unfolding rotate_log_if_needed
rotate_log_if_needed-IsRotated_example =
    rotate_log_if_needed-IsRotated one_log_fault late_writes (pos 2) 2 false some_logs full_log refl
