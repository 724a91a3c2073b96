-- ===== src/Accounts/Manage.antt =====
-- internal/accounts/accounts.go: removing, switching and renaming an account. The pool is in the state
-- database, and the native token file holds the token of one account; a call runs under the lock of that
-- file. Each function takes both and returns both.
pub mod Laws
pub mod Switch
use agy_go.Prelude.{
  ℕ, Bool, true, false, not, ◌&&◌, ◌||◌, String, List, [], ◌∷◌, Option, none, some, str_eq,
  if◌then◌else◌, select, head?,
}
use agy_go.Prelude.Int.{ℤ, pos, negsuc, ltb_ℤ, eqb_ℤ}
use agy_go.Go.Float.{Float64}
use agy_go.Go.Text.{Text}
use agy_go.Storage.{Account, Pool}
use agy_go.Accounts.{account_at, update_at, find_position, find_account_by_target}

-- The pool, and the id of the account whose token the native file holds.
pub record Custody (F : Type 0) : Type 0 where
  pub pool : Pool F
  pub native : Option String

-- `tokenRefresher` and `tokenFileWriter` during one synchronisation. A refresh stores the new token in
-- the pool; a write that fails leaves the file.
pub record TokenService (F : Type 0) : Type 0 where
  pub now : ℤ
  pub refresh_fails : Account F → Bool
  pub refreshed : Account F → Pool F → Pool F
  pub write_fails : Account F → Bool

-- Where the state database fails.
pub record DbFaults : Type 0 where
  pub load : Bool
  pub reload : Bool
  pub transaction : Bool

abbrev pub is_id : Option String → String → Bool
is_id none i = false
is_id (some j) i = str_eq j i

abbrev pub id_of : {F : Type 0} → Option (Account F) → Option String
id_of none = none
id_of (some a) = some a.id

module _ {F : Type 0} where
  write_token : TokenService F → Account F → Custody F → Bool × Custody F
  write_token service account st =
      if service.write_fails account
      then (true, st)
      else (false, record st { native = some account.id })

  abbrev pub other_than : String → Account F → Bool
  other_than i a = not (str_eq a.id i)

  -- The changes of the transaction in `removeAccountLocked`, once the account is found.
  unfoldable pub remove_found : Account F → Pool F → Pool F
  remove_found found pool =
      let others = select (other_than found.id) pool.accounts in
      record pool {
        accounts = others;
        active_account_id =
            if is_id pool.active_account_id found.id
            then id_of (head? others)
            else pool.active_account_id;
        round_robin_last_account_id =
            if is_id pool.round_robin_last_account_id found.id
            then none
            else pool.round_robin_last_account_id;
      }

  first_other : String → List (Account F) → Option (Account F)
  first_other i xs = head? (select (other_than i) xs)

module _ {F : Type 0} ⦃fl : Float64 F⦄ where
  -- Less than two minutes are left, or no expiry is known.
  abbrev expires : Option F → ℤ → Bool
  expires none now = true
  expires (some t) now = fl.le (fl.sub t (fl.of_int now)) (fl.of_int (pos 120))

  -- `true` is the error.
  unfoldable pub sync_account_to_agy : TokenService F → Account F → Custody F → Bool × Custody F
  unfolding write_token
  sync_account_to_agy service account st =
      let fresh = record st { pool = service.refreshed account st.pool } in
      if str_eq account.access_token "" || expires account.token_expiry service.now
      then (if service.refresh_fails account
          then (true, fresh)
          else write_token service account fresh)
      else write_token service account st

  -- A tier, and the fraction inside it.
  abbrev score : ℤ → Account F → ℤ × F
  score now a =
      if str_eq a.status "validation_required" || str_eq a.status "auth_error"
      then (negsuc 1, fl.of_int (pos 0))
      else (if elim a.rate_limited_until [ none ↦ false | some t ↦ fl.lt (fl.of_int now) t ]
          then (negsuc 0, fl.of_int (pos 0))
          else (
            pos 1,
            elim a.last_quota [
              | none ↦ fl.of_int (pos 0)
              | some q ↦ elim q.remaining_fraction [ none ↦ fl.of_int (pos 0) | some f ↦ f ]
            ],
          ))

  abbrev is_better : ℤ × F → ℤ × F → Bool
  is_better (tier, frac) (best_tier, best_frac) =
      ltb_ℤ best_tier tier || (eqb_ℤ tier best_tier && fl.lt best_frac frac)

  -- The loop over the candidates after the first.
  unfoldable pub best_of : ℤ → Account F → List (Account F) → Account F
  best_of now selected [] = selected
  best_of now selected (a ∷ rest) =
      let keep = best_of now selected rest in
      let change = best_of now a rest in
      if is_better (score now a) (score now selected) then change else keep

module _ {F : Type 0} ⦃fl : Float64 F⦄ ⦃tx : Text⦄ where
  unfoldable pub remove_mutator : String → Pool F → Option (Account F × Pool F)
  unfolding find_account_by_target remove_found
  remove_mutator target pool = elim (find_account_by_target pool.accounts target) [
    | none ↦ none
    | some found ↦ some (found, remove_found found pool)
  ]

  -- After a failure the native file goes back to the account that it held.
  restore : TokenService F → Option (Account F) → Custody F → Option (Account F) × Custody F
  unfolding sync_account_to_agy
  restore later none st = (none, st)
  restore later (some previous) st = (none, (sync_account_to_agy later previous st).1)

  -- The transaction and what follows it; `previous` is the account to restore.
  commit_removal :
      DbFaults
      → TokenService F
      → String
      → Option (Account F)
      → Custody F
      → Option (Account F) × Custody F
  unfolding remove_mutator restore
  commit_removal faults later target previous st =
      if faults.transaction
      then restore later previous st
      else elim (remove_mutator target st.pool) [
        | none ↦ restore later previous st
        | some (found, pool) ↦ (some found, record st { pool = pool })
      ]

  -- `none` is the error.
  unfoldable pub remove_account_locked :
      DbFaults
      → TokenService F
      → TokenService F
      → String
      → Custody F
      → Option (Account F) × Custody F
  unfolding find_account_by_target first_other sync_account_to_agy commit_removal
  remove_account_locked faults service later target st =
      if faults.load then (none, st) else elim (find_account_by_target st.pool.accounts target) [
        | none ↦ (none, st)
        | some found ↦
            if is_id st.pool.active_account_id found.id
            then elim (first_other found.id st.pool.accounts) [
              | none ↦ commit_removal faults later target none st
              | some replacement ↦
                  let (failed, st') = sync_account_to_agy service replacement st in
                  if failed
                  then (none, st')
                  else commit_removal faults later target (some found) st'
            ]
            else commit_removal faults later target none st
      ]

  -- The transaction of a switch: the account is looked up again, by its id as a target.
  unfoldable pub switch_mutator : Account F → Pool F → Option (Pool F)
  unfolding find_account_by_target
  switch_mutator selected pool = elim (find_account_by_target pool.accounts selected.id) [
    | none ↦ none
    | some current ↦ some (record pool { active_account_id = some current.id })
  ]

  commit_switch :
      DbFaults
      → TokenService F
      → Account F
      → Option (Account F)
      → Custody F
      → Option (Account F) × Custody F
  unfolding switch_mutator restore
  commit_switch faults later selected previous st =
      if faults.transaction
      then restore later previous st
      else elim (switch_mutator selected st.pool) [
        | none ↦ restore later previous st
        | some pool ↦ (some selected, record st { pool = pool })
      ]

  abbrev active_account : Pool F → Option (Account F)
  active_account pool = elim pool.active_account_id [
    | none ↦ none
    | some i ↦ find_account_by_target pool.accounts i
  ]

  -- From the selected account on.
  switch_to :
      DbFaults
      → TokenService F
      → TokenService F
      → Account F
      → Custody F
      → Option (Account F) × Custody F
  unfolding sync_account_to_agy commit_switch
  switch_to faults service later selected st =
      let (failed, st') = sync_account_to_agy service selected st in
      let committed = commit_switch faults later selected (active_account st.pool) st' in
      if failed then (none, st') else committed

  -- The best account of the pool after the quotas have been asked for.
  switch_auto :
      DbFaults → TokenService F → TokenService F → Custody F → Option (Account F) × Custody F
  unfolding best_of switch_to
  switch_auto faults service later st =
      if faults.reload then (none, st) else elim st.pool.accounts [
        | [] ↦ (none, st)
        | a ∷ rest ↦ switch_to faults service later (best_of service.now a rest) st
      ]

  -- `probed` is the pool after the prober has asked for each quota, the same if there is no prober.
  unfoldable pub switch_account_locked :
      (Pool F → Pool F)
      → DbFaults
      → TokenService F
      → TokenService F
      → String
      → Custody F
      → Option (Account F) × Custody F
  unfolding switch_auto switch_to find_account_by_target
  switch_account_locked probed faults service later target st =
      if faults.load then (none, st) else elim st.pool.accounts [
        | [] ↦ (none, st)
        | a ∷ rest ↦
            if str_eq target "" || str_eq target "auto"
            then switch_auto faults service later (record st { pool = probed st.pool })
            else elim (find_account_by_target st.pool.accounts target) [
              | none ↦ (none, st)
              | some selected ↦ switch_to faults service later selected st
            ]
      ]

  -- `none` is the error.
  unfoldable pub rename_account : Bool → String → String → Pool F → Option (Pool F)
  unfolding find_position
  rename_account fails target new_name pool =
      let name = tx.trim_space new_name in
      if str_eq name "" || fails then none else elim (find_position pool.accounts target) [
        | none ↦ none
        | some n ↦
            some
              (record pool { accounts = update_at n (λ a. record a { name = name }) pool.accounts })
      ]
