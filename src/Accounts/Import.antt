-- ===== src/Accounts/Import.antt =====
-- internal/accounts/accounts.go and crypto.go: the transactions that add accounts, `ImportCurrent` after
-- the token file has been read and `ImportPool` after the backup has been parsed. Each gives `none` where
-- `next_account_id` does, which does not happen.
pub mod Laws
use agy_go.Prelude.{
  ℕ, zero, suc, ◌+◌, Bool, true, false, not, ◌&&◌, ◌||◌, String, List, [], ◌∷◌, ◌++◌, Option, none,
  some, str_eq, if◌then◌else◌, length, head?,
}
use agy_go.Prelude.Int.{ℤ, pos}
use agy_go.Go.Float.{Float64}
use agy_go.Storage.{Account, Pool, blank_account}
use agy_go.Accounts.{position, update_at, account_at, next_account_id}
use agy_go.Accounts.Manage.{id_of}

-- The token file, with the email from its id token.
pub record TokenFile : Type 0 where
  pub access_token : String
  pub refresh_token : String
  pub id_token : String
  pub email : String

-- An entry of `accounts` in a backup, by the members that the import reads: a text that is missing or
-- of another type is "", a number is `none`.
pub record Item (F : Type 0) : Type 0 where
  pub email : String
  pub refresh_token : String
  pub name : String
  pub access_token : String
  pub token_expiry : Option F
  pub created_at : Option F
  pub request_count : Option F
  pub gen_count : Option F

pub record ImportResult : Type 0 where
  pub added : ℕ
  pub updated : ℕ
  pub skipped : ℕ
  pub total : ℕ

-- The options and texts of a call; `now` is `time.Now().Unix()`.
pub record ImportCall : Type 0 where
  pub name : ℕ → String
  pub now : ℤ
  pub skip_existing : Bool
  pub strategy : String
  pub active_email : String

module _ {F : Type 0} where
  abbrev has_email : String → Account F → Bool
  has_email e a = str_eq a.email e

  abbrev pub is_usable : Item F → Bool
  is_usable i = not (str_eq i.email "" || str_eq i.refresh_token "")

  -- `emailMap[email]`: a later account with the same email stands in the map.
  abbrev pub last_position : (Account F → Bool) → List (Account F) → Option ℕ
  last_position p [] = none
  last_position p (a ∷ rest) = elim (last_position p rest) [
    | some n ↦ some (suc n)
    | none ↦ if p a then some 0 else none
  ]

  -- A new account at the end of the pool.
  abbrev pub append_account : Account F → Pool F → Pool F
  append_account a pool = record pool { accounts = pool.accounts ++ (a ∷ []) }

module _ {F : Type 0} ⦃fl : Float64 F⦄ where
  renewed : TokenFile → Account F → Account F
  renewed t a = record a {
    refresh_token = t.refresh_token;
    access_token = t.access_token;
    token_expiry = some (fl.of_int (pos 0));
    id_token = t.id_token;
  }

  imported_account : TokenFile → ℤ → String → Account F
  imported_account t now id = record (blank_account id) {
    email = t.email;
    refresh_token = t.refresh_token;
    access_token = t.access_token;
    token_expiry = some (fl.of_int (pos 0));
    id_token = t.id_token;
    created_at = some now;
  }

  add_current : TokenFile → ℤ → Pool F → String → Pool F
  unfolding imported_account
  add_current t now pool id =
      let grown = append_account (imported_account t now id) pool in
      elim pool.active_account_id [
        | none ↦ record grown { active_account_id = some id }
        | some i ↦ grown
      ]

  unfoldable pub import_current_mutator : (ℕ → String) → TokenFile → ℤ → Pool F → Option (Pool F)
  unfolding renewed add_current
  import_current_mutator name t now pool = elim (position (has_email t.email) pool.accounts) [
    | some n ↦ some (record pool { accounts = update_at n (renewed t) pool.accounts })
    | none ↦ elim (next_account_id name pool.accounts) [
      | none ↦ none
      | some id ↦ some (add_current t now pool id)
    ]
  ]

  abbrev whole : Option F → Option ℤ
  whole none = none
  whole (some x) = some (fl.to_int x)

  -- An entry in replace mode, with the position of the entry in the backup.
  replaced_account : ImportCall → ℕ → Item F → Account F
  replaced_account c i item = record (blank_account (c.name (i + 1))) {
    email = item.email;
    name = item.name;
    refresh_token = item.refresh_token;
    access_token = item.access_token;
    token_expiry = item.token_expiry;
    created_at = some (elim (whole item.created_at) [ some n ↦ n | none ↦ c.now ]);
    request_count = elim (whole item.request_count) [ some n ↦ n | none ↦ pos 0 ];
    gen_count = whole item.gen_count;
  }

  -- The loop over the backup; an entry that is no object is `none`.
  replaced : ImportCall → ℕ → List (Option (Item F)) → List (Account F)
  unfolding replaced_account
  replaced c i [] = []
  replaced c i (none ∷ rest) = replaced c (i + 1) rest
  replaced c i (some item ∷ rest) =
      let others = replaced c (i + 1) rest in
      if is_usable item then replaced_account c i item ∷ others else others

  -- The account with the backup's active email, or the first.
  chosen : String → List (Account F) → Option String
  chosen e xs =
      let first = id_of (head? xs) in
      if str_eq e ""
      then first
      else elim (position (has_email e) xs) [ none ↦ first | some n ↦ id_of (account_at xs n) ]

  unfoldable pub replace_pool : ImportCall → List (Option (Item F)) → Pool F → ImportResult × Pool F
  unfolding replaced chosen
  replace_pool c items pool =
      let xs = replaced c 0 items in
      (
        record { added = length xs; updated = 0; skipped = 0; total = length xs },
        record pool {
          accounts = xs;
          strategy = if str_eq c.strategy "" then pool.strategy else c.strategy;
          active_account_id = chosen c.active_email xs;
          round_robin_last_account_id = none;
        },
      )

  updated_account : Item F → Account F → Account F
  updated_account item a = record a {
    refresh_token = item.refresh_token;
    access_token = if str_eq item.access_token "" then a.access_token else item.access_token;
    token_expiry =
        if str_eq item.access_token ""
        then a.token_expiry
        else elim item.token_expiry [ none ↦ a.token_expiry | some t ↦ some t ];
    name = if not (str_eq item.name "") && str_eq a.name "" then item.name else a.name;
    status = "";
    rate_limited_until = none;
  }

  added_account : ImportCall → Item F → String → Account F
  added_account c item id = record (blank_account id) {
    email = item.email;
    name = item.name;
    refresh_token = item.refresh_token;
    access_token = item.access_token;
    token_expiry = item.token_expiry;
    created_at = some c.now;
  }

  -- One round of the merge, for an entry that is usable.
  merge_item : ImportCall → Item F → ImportResult × Pool F → Option (ImportResult × Pool F)
  unfolding updated_account added_account
  merge_item c item (r, pool) = elim (last_position (has_email item.email) pool.accounts) [
    | some n ↦
        if c.skip_existing
        then some (record r { skipped = r.skipped + 1 }, pool)
        else some (
          record r { updated = r.updated + 1 },
          record pool { accounts = update_at n (updated_account item) pool.accounts },
        )
    | none ↦ elim (next_account_id c.name pool.accounts) [
      | none ↦ none
      | some id ↦
          some (record r { added = r.added + 1 }, append_account (added_account c item id) pool)
    ]
  ]

  merge_loop :
      ImportCall → List (Option (Item F)) → ImportResult × Pool F → Option (ImportResult × Pool F)
  unfolding merge_item
  merge_loop c [] s = some s
  merge_loop c (none ∷ rest) s = merge_loop c rest s
  merge_loop c (some item ∷ rest) s =
      let skipped = merge_loop c rest s in
      let merged : Option (ImportResult × Pool F) = elim (merge_item c item s) [
        | none ↦ none
        | some s' ↦ merge_loop c rest s'
      ] in
      if is_usable item then merged else skipped

  unfoldable pub merge_pool :
      ImportCall → List (Option (Item F)) → Pool F → Option (ImportResult × Pool F)
  unfolding merge_loop
  merge_pool c items pool =
      elim (merge_loop c items (record { added = 0; updated = 0; skipped = 0; total = 0 }, pool)) [
        | none ↦ none
        | some (r, pool') ↦ some (record r { total = length pool'.accounts }, pool')
      ]

  -- The transaction of `ImportPool` for a backup with at least one entry.
  unfoldable pub import_mutator :
      Bool → ImportCall → List (Option (Item F)) → Pool F → Option (ImportResult × Pool F)
  unfolding replace_pool merge_pool
  import_mutator replace c items pool =
      if replace then some (replace_pool c items pool) else merge_pool c items pool
