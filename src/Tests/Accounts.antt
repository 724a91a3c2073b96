-- ===== src/Tests/Accounts.antt =====
-- The changes of the pool of internal/accounts, and the refresh of quotas, on small pools.
use agy_go.Prelude.{
  ◌≡◌, refl, ap, subst, ℕ, zero, suc, ◌+◌, true, false, String, List, [], ◌∷◌, none, some, arith,
  str_eq, eq_iff, Bool-cases, inl, inr,
}
use agy_go.Prelude.Int.{ℤ, pos}
use agy_go.Storage.{
  Account, Pool, QuotaState, blank_account, nil, string, find_account, new_empty_pool,
}
use agy_go.Accounts.{ids, next_account_id, find_account_by_target, find_position, is_digits}
use agy_go.Accounts.Ids.{holds, IsNaming, IsLowest, next_account_id_lem}
use agy_go.Accounts.Manage.{
  id_of, Custody, TokenService, DbFaults, remove_account_locked, switch_account_locked,
}
use agy_go.Accounts.Manage.Laws.{
  KeepsNames, NeverFails, InCustody, AreSame, remove_account_locked-InCustody,
}
use agy_go.Accounts.Manage.Switch.{IsUnambiguous, switch_account_locked-InCustody}
use agy_go.Accounts.Import.{TokenFile, Item, ImportCall}
use agy_go.Accounts.Invariant.{IsPool}
use agy_go.Accounts.History.{
  Change, removes, renames, imports_current, imports, change_all, change_all-IsPool,
  new_empty_pool-IsPool,
}
use agy_go.Quota.Refresh.{
  RefreshState, here, next, schedules, schedule_quota_refresh, reset_refresh_state,
  finalize_and_persist_quota,
}
use agy_go.Quota.Refresh.Laws.{IsExclusive, reset_refresh_state-IsExclusive}
use agy_go.Quota.Refresh.Snapshot.{IsSnapshot}
use agy_go.Quota.Refresh.Stored.{Restriction, finalize_and_persist_quota_found}
use agy_go.Tests.Concrete.{fixed, fixed-IsIeee, plain, alice, bob, two}

-- Numbers in unary notation.
abbrev tally : ℕ → String
tally zero = "a"
tally (suc n) = String.◌∷◌ "b" (tally n)

abbrev size : String → ℕ
size String.[] = 0
size (String.◌∷◌ c s) = suc (size s)

size-tally : (n : ℕ) → size (tally n) ≡ n + 1
size-tally zero = refl
size-tally (suc n) = omega (arith, size-tally n)

tally_injective : (m n : ℕ) → tally m ≡ tally n → m ≡ n
tally_injective m n h = omega (arith, ap size h, size-tally m, size-tally n)

tally_inhabited : (n : ℕ) → str_eq (tally n) "" ≡ false
tally_inhabited n = elim (Bool-cases (str_eq (tally n) "")) [
  | inl e ↦ absurd (omega (arith, ap size ((eq_iff (tally n) "").0 e), size-tally n))
  | inr e ↦ e
]

tally-IsNaming : IsNaming tally
tally-IsNaming = record { injective = tally_injective; inhabited = tally_inhabited }

abbrev three_ids : List (Account ℤ)
three_ids = blank_account "ba" ∷ blank_account "bbba" ∷ alice ∷ []

next_account_id_lem_example :
    (m : ℕ) × (next_account_id tally three_ids ≡ some (tally m))
    × IsLowest tally tally-IsNaming (ids three_ids) 1 m
next_account_id_lem_example = next_account_id_lem tally tally-IsNaming three_ids

abbrev steady : TokenService ℤ
steady = record {
  now = pos 5;
  refresh_fails = λ a. false;
  refreshed = λ a p. p;
  write_fails = λ a. false;
}

steady-AreSame : (p : Pool ℤ) → AreSame p.accounts p.accounts
steady-AreSame p = same p.accounts
  where
    same : (xs : List (Account ℤ)) → AreSame xs xs
    same [] = tt
    same (x ∷ xs) = ((refl, refl, refl), same xs)

steady-KeepsNames : KeepsNames steady.refreshed
steady-KeepsNames = record { accounts = λ a p. steady-AreSame p; active = λ a p. refl }

steady-NeverFails : NeverFails steady
steady-NeverFails = record { refresh = λ a. refl; write = λ a. refl }

abbrev kept_by_alice : Custody ℤ
kept_by_alice = record { pool = two; native = some "alice" }

abbrev no_db_faults : DbFaults
no_db_faults = record { load = false; reload = false; transaction = false }

remove_account_locked-InCustody_example :
    InCustody (remove_account_locked no_db_faults steady steady "alice" kept_by_alice).1
remove_account_locked-InCustody_example =
    remove_account_locked-InCustody no_db_faults steady steady "alice" kept_by_alice
      steady-KeepsNames steady-KeepsNames steady-NeverFails (λ i h. h)

two-own :
    (i : String)
    → holds i (ids two.accounts) ≡ true
    → id_of (find_account_by_target two.accounts i) ≡ some i
unfolding find_account_by_target find_position is_digits
two-own i h = elim (Bool-cases (str_eq "alice" i)) [
  | inl e ↦
      subst (λ j. id_of (find_account_by_target two.accounts j) ≡ some j) ((eq_iff "alice" i).0 e)
        refl
  | inr e ↦
      subst (λ j. id_of (find_account_by_target two.accounts j) ≡ some j)
        ((eq_iff "bob" i).0 (ground (arith, e, h))) refl
]

two-IsUnambiguous : IsUnambiguous two
two-IsUnambiguous = record {
  own = two-own;
  active_held =
      λ i h. let e : "alice" ≡ i = cc h in subst (λ j. holds j (ids two.accounts) ≡ true) e refl;
}

switch_account_locked-InCustody_example :
    InCustody (switch_account_locked (λ p. p) no_db_faults steady steady "bob" kept_by_alice).1
switch_account_locked-InCustody_example =
    switch_account_locked-InCustody (λ p. p) no_db_faults steady steady "bob" kept_by_alice
      (record { accounts = steady-AreSame two; active = refl }) steady-KeepsNames steady-KeepsNames
      steady-NeverFails two-IsUnambiguous (λ i h. h)

abbrev login : TokenFile
login = record { access_token = "at"; refresh_token = "rt"; id_token = "it"; email = "c@x" }

abbrev an_item : Item ℤ
an_item = record {
  email = "d@x";
  refresh_token = "rt";
  name = "";
  access_token = "";
  token_expiry = none;
  created_at = none;
  request_count = none;
  gen_count = none;
}

abbrev an_import : ImportCall
an_import = record {
  name = tally;
  now = pos 9;
  skip_existing = false;
  strategy = "";
  active_email = "";
}

abbrev some_changes : List (Change ℤ)
some_changes =
    imports_current login (pos 9)
    ∷ imports false an_import (some an_item ∷ none ∷ some an_item ∷ [])
    ∷ renames "c@x" "main"
    ∷ removes "main"
    ∷ imports true an_import (some an_item ∷ [])
    ∷ []

change_all-IsPool_example : IsPool (change_all tally some_changes new_empty_pool)
change_all-IsPool_example =
    change_all-IsPool tally tally-IsNaming some_changes new_empty_pool new_empty_pool-IsPool

abbrev started : RefreshState ℤ
started = (schedule_quota_refresh alice (pos 1) reset_refresh_state).1

reset_refresh_state-IsExclusive_example : IsExclusive (schedule_quota_refresh bob (pos 2) started).1
reset_refresh_state-IsExclusive_example =
    reset_refresh_state-IsExclusive
      (next (next here (schedules alice (pos 1))) (schedules bob (pos 2)))

abbrev probed_quota : QuotaState ℤ
probed_quota = record {
  gemini_5h = some (record { fraction = some (pos 300); reset_time = nil });
  gemini_weekly = some (record { fraction = some (pos 200); reset_time = string "tomorrow" });
  third_party_5h = none;
  third_party_weekly = none;
  remaining_fraction = none;
  reset_time = nil;
  updated_at = none;
}

finalize_and_persist_quota_found_example :
    (after : Account ℤ) × (find_account
        (some (finalize_and_persist_quota false bob probed_quota (pos 7) two).1)
        (some bob)
      ≡ some after)
    × ((lq : QuotaState ℤ) × (after.last_quota ≡ some lq) × IsSnapshot probed_quota (pos 7) lq)
    × Restriction bob bob after
unfolding find_account
finalize_and_persist_quota_found_example =
    finalize_and_persist_quota_found fixed-IsIeee bob bob probed_quota (pos 7) two refl
