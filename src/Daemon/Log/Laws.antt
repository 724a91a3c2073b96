-- ===== src/Daemon/Log/Laws.antt =====
-- Which backup holds what after a rotation.
use agy_go.Prelude.{
  ◌≡◌, refl, sym, ◌∙◌, subst, ==_iff, ℕ, zero, suc, ◌+◌, ◌<◌, Bool, false, not, ◌&&◌, ◌||◌, [],
  none, some, if◌then◌else◌, ◌==◌, arith, Bool-cases, inl, inr,
}
use native.Mathlib.Numerals.{add-one}
use agy_go.Prelude.Int.{ℤ, ltb_ℤ}
use agy_go.Daemon.Log.{
  File, exists, size, append, LogFiles, LogFaults, LogWrites, move_up, shift_backups, rotated,
  copy_and_truncate, under_lock, rotate_log_if_needed,
}

-- The backup with the number exists and can be renamed.
abbrev pub moves : (ℕ → Bool) → (ℕ → File) → ℕ → Bool
moves fails f i = exists (f i) && not (fails i)

move_up_source :
    (fails : ℕ → Bool) (i : ℕ) (f : ℕ → File)
    → move_up fails i f i ≡ (if moves fails f i then none else f i)
unfolding move_up
move_up_source fails i f = elim (Bool-cases (moves fails f i)) [
  | inl e ↦ rw e (ground arith)
  | inr e ↦ rw e refl
]

move_up_target :
    (fails : ℕ → Bool) (i : ℕ) (f : ℕ → File)
    → move_up fails i f (i + 1) ≡ (if moves fails f i then f i else f (i + 1))
unfolding move_up
move_up_target fails i f = elim (Bool-cases (moves fails f i)) [
  | inl e ↦ rw e (ground arith)
  | inr e ↦ rw e refl
]

move_up_other :
    (fails : ℕ → Bool) (i j : ℕ) (f : ℕ → File)
    → (j == i) ≡ false
    → (j == (i + 1)) ≡ false
    → move_up fails i f j ≡ f j
unfolding move_up
move_up_other fails i j f d e = elim (Bool-cases (moves fails f i)) [
  | inl h ↦ rw (h, d, e) refl
  | inr h ↦ rw h refl
]

-- What is in the place of a backup that has had its turn and nothing has come to.
abbrev pub left_behind : (ℕ → Bool) → (ℕ → File) → ℕ → File
left_behind fails f i = if moves fails f i then none else f i

-- The backups after the loop over 1 to n.
pub record IsShifted (fails : ℕ → Bool) (n : ℕ) (f g : ℕ → File) : Type 0 where
  pub first : 0 < n → g 1 ≡ left_behind fails f 1
  pub moved :
      (j : ℕ)
      → 0 < j
      → j < n
      → g (j + 1) ≡ (if moves fails f j then f j else left_behind fails f (j + 1))
  pub oldest : 0 < n → g (n + 1) ≡ (if moves fails f n then f n else f (n + 1))
  pub above : (j : ℕ) → n + 1 < j → g j ≡ f j
  pub zeroth : g 0 ≡ f 0

-- The later rounds find a backup of a smaller number as it was.
left_behind-same :
    (fails : ℕ → Bool) (f g : ℕ → File) (i : ℕ)
    → g i ≡ f i
    → left_behind fails g i ≡ left_behind fails f i
left_behind-same fails f g i e = rw e refl

first_moved :
    (fails : ℕ → Bool) (n : ℕ) (f g : ℕ → File)
    → IsShifted fails n (move_up fails (suc n) f) g
    → g ≡ shift_backups fails n (move_up fails (suc n) f)
    → g 1 ≡ left_behind fails f 1
unfolding shift_backups
first_moved fails zero f g w e = rw e (move_up_source fails 1 f)
first_moved fails (suc n) f g w e =
    w.first (omega arith)
    ∙ left_behind-same fails f (move_up fails (suc (suc n)) f) 1
        (move_up_other fails (suc (suc n)) 1 f (ground arith) (ground arith))

moved_step :
    (fails : ℕ → Bool) (n j : ℕ) (f g : ℕ → File)
    → IsShifted fails n (move_up fails (suc n) f) g
    → 0 < j
    → j < suc n
    → g (j + 1) ≡ (if moves fails f j then f j else left_behind fails f (j + 1))
moved_step fails n j f g w p k = elim (Bool-cases (j == n)) [
  | inr d ↦
      w.moved j p (ground (arith, d))
      ∙ rw
          (
            move_up_other fails (suc n) j f (ground arith) (ground arith),
            move_up_other fails (suc n) (j + 1) f (ground (arith, d)) (ground arith),
          )
          refl
  | inl d ↦ at_end ((==_iff j n).0 d)
]
  where
    at_end : j ≡ n → g (j + 1) ≡ (if moves fails f j then f j else left_behind fails f (j + 1))
    at_end e =
        let same : move_up fails (suc n) f n ≡ f n =
          move_up_other fails (suc n) n f (ground arith) (ground arith) in
        let source : move_up fails (suc n) f (n + 1) ≡ left_behind fails f (n + 1) =
          rw (add-one n) (move_up_source fails (suc n) f) in
        let top : g (n + 1) ≡ (if moves fails f n then f n else left_behind fails f (n + 1)) =
          w.oldest (omega (arith, e)) ∙ rw (same, source) refl in
        subst (λ i. g (i + 1) ≡ (if moves fails f i then f i else left_behind fails f (i + 1)))
          (sym e) top

shift_backups-IsShifted :
    (fails : ℕ → Bool) (n : ℕ) (f : ℕ → File) → IsShifted fails n f (shift_backups fails n f)
unfolding shift_backups
shift_backups-IsShifted fails zero f = record {
  first = λ h. absurd (omega arith);
  moved = λ j h k. absurd (omega arith);
  oldest = λ h. absurd (omega arith);
  above = λ j h. refl;
  zeroth = refl;
}
shift_backups-IsShifted fails (suc n) f =
    let w = shift_backups-IsShifted fails n (move_up fails (suc n) f) in
    record {
      first = λ h. first_moved fails n f _ w refl;
      moved = λ j p k. moved_step fails n j f _ w p k;
      oldest = λ h. w.above (suc n + 1) (omega arith) ∙ move_up_target fails (suc n) f;
      above = λ j h.
          w.above j (omega arith) ∙ move_up_other fails (suc n) j f (ground arith) (ground arith);
      zeroth = w.zeroth ∙ move_up_other fails (suc n) 0 f (ground arith) (ground arith);
    }

-- What a rotation to `n + 1` backups leaves, of the log as it was at the end of the copy. A backup
-- that can be moved is found with the next number. One that cannot stays, unless the one before it
-- is moved onto it; the log itself always comes to the first place.
pub record IsRotated (fails : ℕ → Bool) (n : ℕ) (log : File) (before : ℕ → File) (files : LogFiles)
    : Type 0 where
  pub emptied : files.active ≡ some []
  pub newest : files.backup 1 ≡ log
  pub moved :
      (j : ℕ)
      → 0 < j
      → j < n
      → files.backup (j + 1)
        ≡ (if moves fails before j then before j else left_behind fails before (j + 1))
  pub oldest :
      0 < n → files.backup (n + 1) ≡ (if moves fails before n then before n else before (n + 1))
  pub above : (j : ℕ) → n + 1 < j → files.backup j ≡ before j

copy_and_truncate-IsRotated :
    (faults : LogFaults) (writes : LogWrites) (n : ℕ) (files : LogFiles) (before : ℕ → File)
    → IsShifted faults.rename n before files.backup
    → (copy_and_truncate faults writes (suc n) files).0 ≡ rotated
    → IsRotated faults.rename n
        (append files.active writes.before_copied)
        before
        (copy_and_truncate faults writes (suc n) files).1
unfolding copy_and_truncate
copy_and_truncate-IsRotated faults writes n files before w h = elim (Bool-cases faults.copy) [
  | inl e ↦ absurd (ground (arith, rw e at h))
  | inr e ↦ elim (Bool-cases (faults.reopen || faults.truncate)) [
    | inl d ↦ absurd (ground (arith, rw (e, d) at h))
    | inr d ↦
        rw (not_none, e, d)
          (record {
            emptied = refl;
            newest = refl;
            moved = λ j p k. rw (not_one (j + 1) (omega arith)) (w.moved j p k);
            oldest = λ p. rw (not_one (n + 1) (omega arith)) (w.oldest p);
            above = λ j k. rw (not_one j (omega arith)) (w.above j k);
          })
  ]
]
  where
    not_none : (suc n == 0) ≡ false
    not_none = ground arith

    not_one : (j : ℕ) → 1 < j → (j == 1) ≡ false
    not_one j p = ground arith

-- A rotation that is reported empties the log, and keeps its content at the end of the copy as the first
-- backup. Every other backup that exists and can be renamed moves up by one, the last one over the
-- oldest, also where other renamings fail. Where no backup comes to a place, it is empty if its own
-- backup has moved, and keeps it if that could not be moved. The files beyond the last stay. All of
-- this where at least one backup is kept.
pub rotate_log_if_needed-IsRotated :
    (faults : LogFaults) (writes : LogWrites) (max_bytes : ℤ) (n : ℕ) (force : Bool)
    (files : LogFiles) (later : File)
    → (rotate_log_if_needed faults writes max_bytes (suc n) force files later).0 ≡ rotated
    → IsRotated faults.rename n
        (append later writes.before_copied)
        files.backup
        (rotate_log_if_needed faults writes max_bytes (suc n) force files later).1
unfolding rotate_log_if_needed under_lock
rotate_log_if_needed-IsRotated faults writes max_bytes n force files later h =
    elim (Bool-cases (faults.unsafe || faults.stat)) [
      | inl a ↦ absurd (cc (rw a at h))
      | inr a ↦
          elim (Bool-cases
            (not (exists files.active) || (not force && ltb_ℤ (size files.active) max_bytes))) [
              | inl b ↦ absurd (cc (rw (a, b) at h))
              | inr b ↦ elim (Bool-cases faults.lock) [
                | inl c ↦ absurd (cc (rw (a, b, c) at h))
                | inr c ↦ rw (a, b, c) (locked (rw (a, b, c) at h))
              ]
            ]
    ]
  where
    shifted : LogFiles
    shifted = record { active = later; backup = shift_backups faults.rename n files.backup }

    locked :
        (under_lock faults writes max_bytes (suc n) force (record files { active = later })).0
          ≡ rotated
        → IsRotated faults.rename n
            (append later writes.before_copied)
            files.backup
            (under_lock faults writes max_bytes (suc n) force (record files { active = later })).1
    locked k = elim (Bool-cases faults.restat) [
      | inl d ↦ absurd (cc (rw d at k))
      | inr d ↦ elim (Bool-cases (exists later)) [
        | inl e ↦ elim (Bool-cases (not force && ltb_ℤ (size later) max_bytes)) [
          | inl g ↦ absurd (cc (rw (d, e, g) at k))
          | inr g ↦
              rw (d, e, g)
                (copy_and_truncate-IsRotated faults writes n shifted files.backup
                  (shift_backups-IsShifted faults.rename n files.backup) (rw (d, e, g) at k))
        ]
        | inr e ↦ absurd (cc (rw (d, e) at k))
      ]
    ]
