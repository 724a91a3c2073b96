-- ===== src/Storage.antt =====
-- internal/storage/types.go and the lookups of internal/storage/storage.go: the account pool.
-- `Extra`, the unknown JSON members that only the JSON methods read, is left out of the records.
pub mod Reserve
use agy_go.Prelude.{
  Bool, not, ◌&&◌, ◌||◌, String, List, [], ◌∷◌, Option, none, some, str_eq, if◌then◌else◌,
}
use agy_go.Prelude.Int.{ℤ, pos}

-- A Go value of type `any`, by the dynamic types that the program asks for. The converted value
-- of a float32 is exact, so `float32` holds it.
pub data AnyValue (F : Type 0) : Type 0 where
  nil : AnyValue F
  float64 : F → AnyValue F
  float32 : F → AnyValue F
  int : ℤ → AnyValue F
  int64 : ℤ → AnyValue F
  string : String → AnyValue F
  other : AnyValue F

pub record QuotaWindow (F : Type 0) : Type 0 where
  pub fraction : Option F
  pub reset_time : AnyValue F

pub record QuotaState (F : Type 0) : Type 0 where
  pub gemini_5h : Option (QuotaWindow F)
  pub gemini_weekly : Option (QuotaWindow F)
  pub third_party_5h : Option (QuotaWindow F)
  pub third_party_weekly : Option (QuotaWindow F)
  pub remaining_fraction : Option F
  pub reset_time : AnyValue F
  pub updated_at : Option ℤ

-- A pointer field is an option.
pub record Account (F : Type 0) : Type 0 where
  pub id : String
  pub name : String
  pub email : String
  pub access_token : String
  pub refresh_token : String
  pub id_token : String
  pub token_expiry : Option F
  pub created_at : Option ℤ
  pub updated_at : Option ℤ
  pub status : String
  pub validation_url : Option String
  pub rate_limited_until : Option F
  pub request_count : ℤ
  pub gen_count : Option ℤ
  pub error_count : ℤ
  pub last_used_at : Option ℤ
  pub last_quota : Option (QuotaState F)
  pub quota : Option F
  pub gemini_5h_pct : Option F
  pub gemini_weekly_pct : Option F
  pub gemini_5h_reset : AnyValue F
  pub gemini_weekly_reset : AnyValue F
  pub gemini_5h_reset_sec : Option F
  pub gemini_weekly_reset_sec : Option F

-- The accounts of a pool are not nil: whatever loads one allocates each.
pub record Pool (F : Type 0) : Type 0 where
  pub version : ℤ
  pub strategy : String
  pub active_account_id : Option String
  pub round_robin_last_account_id : Option String
  pub accounts : List (Account F)

module _ {F : Type 0} where
  -- An account as the zero value of the struct, but for its id.
  abbrev pub blank_account : String → Account F
  blank_account i = record {
    id = i;
    name = "";
    email = "";
    access_token = "";
    refresh_token = "";
    id_token = "";
    token_expiry = none;
    created_at = none;
    updated_at = none;
    status = "";
    validation_url = none;
    rate_limited_until = none;
    request_count = pos 0;
    gen_count = none;
    error_count = pos 0;
    last_used_at = none;
    last_quota = none;
    quota = none;
    gemini_5h_pct = none;
    gemini_weekly_pct = none;
    gemini_5h_reset = nil;
    gemini_weekly_reset = nil;
    gemini_5h_reset_sec = none;
    gemini_weekly_reset_sec = none;
  }

  unfoldable pub new_empty_pool : Pool F
  new_empty_pool = record {
    version = pos 1;
    strategy = "max_quota";
    active_account_id = none;
    round_robin_last_account_id = none;
    accounts = [];
  }

  -- On a nil account the method returns 0.
  unfoldable pub get_hits : Option (Account F) → ℤ
  get_hits none = pos 0
  get_hits (some a) = elim a.gen_count [ some n ↦ n | none ↦ a.request_count ]

  -- The test of one account in the loop of `FindAccount`.
  abbrev pub is_same_account : Account F → Account F → Bool
  is_same_account account a =
      (not (str_eq account.id "") && str_eq a.id account.id)
      || (not (str_eq account.email "") && str_eq a.email account.email)

  unfoldable pub find_in : Account F → List (Account F) → Option (Account F)
  find_in account [] = none
  find_in account (a ∷ rest) =
      let found = find_in account rest in if is_same_account account a then some a else found

  unfoldable pub find_account : Option (Pool F) → Option (Account F) → Option (Account F)
  unfolding find_in
  find_account (some pool) (some account) = find_in account pool.accounts
  find_account _ _ = none

  -- What a transaction does to the account that `FindAccount` points at: the first match is
  -- replaced in place.
  unfoldable pub update_found :
      Account F → (Account F → Account F) → List (Account F) → List (Account F)
  update_found account f [] = []
  update_found account f (a ∷ rest) =
      let others = update_found account f rest in
      if is_same_account account a then f a ∷ rest else a ∷ others
