-- ===== src/Accounts/History.antt =====
-- The pool over a history of changes from internal/accounts: each is one transaction, and one that
-- fails leaves the pool.
use agy_go.Prelude.{ℕ, Bool, false, String, List, [], ◌∷◌, Option, none, some}
use agy_go.Prelude.Int.{ℤ}
use agy_go.Go.Float.{Float64}
use agy_go.Go.Text.{Text}
use agy_go.Storage.{Account, Pool, new_empty_pool}
use agy_go.Accounts.Ids.{IsNaming}
use agy_go.Accounts.Manage.{remove_mutator, switch_mutator, rename_account}
use agy_go.Accounts.Import.{
  TokenFile, Item, ImportCall, ImportResult, import_current_mutator, import_mutator,
}
use agy_go.Accounts.Invariant.{
  IsPool, OnSome, remove_mutator-IsPool, switch_mutator-IsPool, rename_account-IsPool,
}
use agy_go.Accounts.Import.Laws.{Gives, import_current-IsPool, import_mutator-IsPool}

pub data Change (F : Type 0) : Type 0 where
  removes : String → Change F
  switches : Account F → Change F
  renames : String → String → Change F
  imports_current : TokenFile → ℤ → Change F
  imports : Bool → ImportCall → List (Option (Item F)) → Change F

abbrev or_same : {F : Type 0} → Pool F → Option (Pool F) → Pool F
or_same p none = p
or_same p (some p') = p'

module _ {F : Type 0} ⦃fl : Float64 F⦄ ⦃tx : Text⦄ (name : ℕ → String) where
  unfoldable pub change : Change F → Pool F → Pool F
  unfolding remove_mutator switch_mutator rename_account import_current_mutator import_mutator
  change (removes target) p = elim (remove_mutator target p) [ none ↦ p | some (removed, p') ↦ p' ]
  change (switches selected) p = or_same p (switch_mutator selected p)
  change (renames target new_name) p = or_same p (rename_account false target new_name p)
  change (imports_current t now) p = or_same p (import_current_mutator name t now p)
  change (imports replace c items) p =
      elim (import_mutator replace (record c { name = name }) items p) [
        | none ↦ p
        | some (r, p') ↦ p'
      ]

  unfoldable pub change_all : List (Change F) → Pool F → Pool F
  unfolding change
  change_all [] p = p
  change_all (x ∷ xs) p = change_all xs (change x p)

OnSome-or_same :
    {F : Type 0} (p : Pool F) (o : Option (Pool F))
    → IsPool p
    → OnSome IsPool o
    → IsPool (or_same p o)
OnSome-or_same p none w h = w
OnSome-or_same p (some p') w h = h

Gives-or_same :
    {F : Type 0} (p : Pool F) (o : Option (Pool F)) → Gives IsPool o → IsPool (or_same p o)
Gives-or_same p none h = absurd h
Gives-or_same p (some p') h = h

module _ {F : Type 0} ⦃fl : Float64 F⦄ ⦃tx : Text⦄ (name : ℕ → String)
    (naming : IsNaming name) where
  change-IsPool : (x : Change F) (p : Pool F) → IsPool p → IsPool (change name x p)
  unfolding change
  change-IsPool (removes target) p w =
      from (remove_mutator target p) (remove_mutator-IsPool target p w)
    where
      from :
          (o : Option (Account F × Pool F))
          → OnSome (λ (r : Account F × Pool F). IsPool r.1) o
          → IsPool (elim o [ none ↦ p | some (removed, p') ↦ p' ])
      from none h = w
      from (some r) h = h
  change-IsPool (switches selected) p w = OnSome-or_same p _ w (switch_mutator-IsPool selected p w)
  change-IsPool (renames target new_name) p w =
      OnSome-or_same p _ w (rename_account-IsPool false target new_name p w)
  change-IsPool (imports_current t now) p w =
      Gives-or_same p _ (import_current-IsPool name naming t now p w)
  change-IsPool (imports replace c items) p w =
      from _ (import_mutator-IsPool (record c { name = name }) naming replace items p w)
    where
      from :
          (o : Option (ImportResult × Pool F))
          → Gives (λ (s : ImportResult × Pool F). IsPool s.1) o
          → IsPool (elim o [ none ↦ p | some (r, p') ↦ p' ])
      from none h = absurd h
      from (some s) h = h

  -- After any history of removals, switches, renamings and imports every account has an id of its own,
  -- and the active account and the rotation's cursor are in the pool, if that was so before; where
  -- the formatted ids of new accounts are inhabited and differ for different numbers.
  pub change_all-IsPool :
      (xs : List (Change F)) (p : Pool F) → IsPool p → IsPool (change_all name xs p)
  unfolding change_all
  change_all-IsPool [] p w = w
  change_all-IsPool (x ∷ xs) p w = change_all-IsPool xs (change name x p) (change-IsPool x p w)

pub new_empty_pool-IsPool : {F : Type 0} → IsPool (new_empty_pool {F = F})
unfolding new_empty_pool
new_empty_pool-IsPool = record { named = tt; distinct = tt; active = tt; cursor = tt }
