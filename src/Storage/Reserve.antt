-- ===== src/Storage/Reserve.antt =====
-- internal/storage/db.go: the transaction that reserves the next accounts in rotation. The database
-- holds the pool; a transaction that fails leaves it as it was and returns the error.
use agy_go.Prelude.{
  Bool, false, String, List, [], ◌∷◌, Option, none, some, str_eq, if◌then◌else◌, map, head?,
}
use agy_go.Storage.{Account, Pool}

-- Where SQLite fails: reading the pool, writing the cursor, or beginning and committing.
pub record Faults : Type 0 where
  pub load : Bool
  pub write : Bool
  pub commit : Bool

abbrev pub no_faults : Faults
no_faults = record { load = false; write = false; commit = false }

module _ {F : Type 0} where
  -- The end of `Update`: a failed commit rolls back.
  finish : Faults → Pool F → Pool F → List (Account F) → Option (List (Account F)) × Pool F
  finish faults pool changed candidates =
      if faults.commit then (none, pool) else (some candidates, changed)

  -- The cursor moves to the first candidate, if that has an id.
  advance : Faults → Pool F → List (Account F) → Option (List (Account F)) × Pool F
  unfolding finish
  advance faults pool [] = finish faults pool pool []
  advance faults pool (first ∷ rest) =
      if str_eq first.id ""
      then finish faults pool pool (first ∷ rest)
      else (if faults.write
          then (none, pool)
          else finish faults pool (record pool { round_robin_last_account_id = some first.id })
              (first ∷ rest))

  -- `none` is the error.
  unfoldable pub reserve_round_robin_candidates :
      (List (Option (Account F)) → String → Option (Pool F) → F → List (Account F))
      → Faults
      → F
      → Pool F
      → Option (List (Account F)) × Pool F
  unfolding advance
  reserve_round_robin_candidates order faults now pool =
      if faults.load then (none, pool) else elim pool.accounts [
        | [] ↦ finish faults pool pool []
        | a ∷ rest ↦
            advance faults pool (order (map some pool.accounts) "round_robin" (some pool) now)
      ]

  -- `ReserveRoundRobinAccount`: the first candidate, or none without an error.
  unfoldable pub reserve_round_robin_account :
      (List (Option (Account F)) → String → Option (Pool F) → F → List (Account F))
      → Faults
      → F
      → Pool F
      → Option (Option (Account F)) × Pool F
  unfolding reserve_round_robin_candidates
  reserve_round_robin_account order faults now pool =
      let (result, pool') = reserve_round_robin_candidates order faults now pool in
      (elim result [ none ↦ none | some candidates ↦ some (head? candidates) ], pool')
