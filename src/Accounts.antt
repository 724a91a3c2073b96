-- ===== src/Accounts.antt =====
-- internal/accounts/accounts.go and `NextAccountID` of internal/storage/storage.go: how an account is
-- named by a user, and how a new one gets its id. A pointer into the pool is a position in its list.
pub mod Ids
pub mod Manage
pub mod Import
pub mod Invariant
pub mod History
use Prim.Native.Char.{code}
use agy_go.Prelude.{
  ℕ, zero, suc, ◌+◌, Bool, true, false, not, ◌&&◌, ◌||◌, String, List, [], ◌∷◌, Option, none, some,
  str_eq, if◌then◌else◌, leb, ltb, length,
}
use agy_go.Prelude.Int.{ℤ, pos, negsuc}
use agy_go.Go.Text.{Text}
use agy_go.Storage.{Account}

abbrev all_digits : String → Bool
all_digits String.[] = true
all_digits (String.◌∷◌ c s) =
    let later = all_digits s in (leb 48 (code c) && leb (code c) 57) && later

unfoldable pub is_digits : String → Bool
is_digits s = not (str_eq s "") && all_digits s

abbrev pub shift : Option ℕ → Option ℕ
shift none = none
shift (some n) = some (suc n)

module _ {F : Type 0} where
  abbrev pub ids : List (Account F) → List String
  ids [] = []
  ids (a ∷ rest) = a.id ∷ ids rest

  abbrev pub account_at : List (Account F) → ℕ → Option (Account F)
  account_at [] n = none
  account_at (a ∷ rest) zero = some a
  account_at (a ∷ rest) (suc n) = account_at rest n

  abbrev pub update_at : ℕ → (Account F → Account F) → List (Account F) → List (Account F)
  update_at n f [] = []
  update_at zero f (a ∷ rest) = f a ∷ rest
  update_at (suc n) f (a ∷ rest) = a ∷ update_at n f rest

  -- The first position whose account passes a test.
  abbrev pub position : (Account F → Bool) → List (Account F) → Option ℕ
  position p [] = none
  position p (a ∷ rest) = let later = shift (position p rest) in if p a then some 0 else later

  -- `accounts[idx-1]`, where that exists.
  abbrev pub numbered : List (Account F) → ℤ → Option ℕ
  numbered xs (pos zero) = none
  numbered xs (pos (suc n)) = if ltb n (length xs) then some n else none
  numbered xs (negsuc n) = none

  -- `strconv.Atoi` fails for a number that is too large; the target is then a name like any other.
  abbrev pub digit_position : Option ℤ → (Account F → Bool) → List (Account F) → Option ℕ
  digit_position none p xs = position p xs
  digit_position (some idx) p xs = numbered xs idx

  abbrev pub pointed : Option ℕ → List (Account F) → Option (Account F)
  pointed none xs = none
  pointed (some n) xs = account_at xs n

  abbrev pub is_called : String → Account F → Bool
  is_called t a = str_eq a.id t || (str_eq a.email t || str_eq a.name t)

module _ {F : Type 0} ⦃tx : Text⦄ where
  -- The position that `FindAccountByTarget` points at.
  unfoldable pub find_position : List (Account F) → String → Option ℕ
  unfolding is_digits
  find_position xs target =
      let t = tx.trim_space target in
      if str_eq t ""
      then none
      else (if is_digits t
          then digit_position (tx.atoi t) (is_called t) xs
          else position (is_called t) xs)

  unfoldable pub find_account_by_target : List (Account F) → String → Option (Account F)
  unfolding find_position
  find_account_by_target xs target = pointed (find_position xs target) xs

-- `used[candidate]`, which holds the ids that are not empty.
abbrev pub is_used : String → List String → Bool
is_used candidate [] = false
is_used candidate (i ∷ rest) =
    let later = is_used candidate rest in (not (str_eq i "") && str_eq i candidate) || later

-- `name` is `fmt.Sprintf("acc_%d", number)`. `none` is no Go value: the loop ran out of fuel.
next_from : (ℕ → String) → ℕ → ℕ → List String → Option String
next_from name zero number used = none
next_from name (suc fuel) number used =
    let later = next_from name fuel (number + 1) used in
    if not (is_used (name number) used) then some (name number) else later

-- One of the first n + 1 numbers is free where there are n accounts.
unfoldable pub next_account_id : {F : Type 0} → (ℕ → String) → List (Account F) → Option String
unfolding next_from
next_account_id name xs = next_from name (suc (length xs)) 1 (ids xs)
