-- ===== src/Tests/Concrete.antt =====
-- The parameters, concretely: fixed-point numbers in thousandths for float64, and text functions
-- that know a few strings.
use agy_go.Prelude.{
  refl, ℕ, ◌+◌, ◌*◌, ◌==◌, false, true, not, String, List, [], ◌∷◌, none, some, str_eq, arith,
  if◌then◌else◌,
}
use agy_go.Prelude.Int.{ℤ, pos, negsuc, ltb_ℤ, eqb_ℤ, ◌+ℤ◌, ◌-ℤ◌}
use agy_go.Go.Float.{Float64, IsIeee}
use agy_go.Go.Text.{Text}
use agy_go.Storage.{Account, Pool, blank_account}
use agy_go.Proxy.Dispatch.{Backend}

abbrev thousandths : ℤ → ℤ
thousandths (pos n) = pos (n * 1000)
thousandths (negsuc n) = negsuc (n * 1000 + 999)

-- The constants of the program have the denominators 1, 100 and 1000.
abbrev constant : ℕ → ℕ → ℤ
constant n d = if d == 1 then pos (n * 1000) else (if d == 100 then pos (n * 10) else pos n)

instance abbrev pub fixed : Float64 ℤ
fixed = record {
  lt = ltb_ℤ;
  le = λ a b. not (ltb_ℤ b a);
  eq = eqb_ℤ;
  add = λ a b. a +ℤ b;
  sub = λ a b. a -ℤ b;
  div = λ a b. a;
  of_int = thousandths;
  ratio = constant;
  to_int = λ a. a;
  neg_inf = negsuc 1_000_000;
  parse = λ s. if str_eq s "0.5" then some (pos 500) else none;
  is_nan = λ a. false;
  is_inf = λ a. false;
}

pub fixed-IsIeee : IsIeee ℤ
fixed-IsIeee = record {
  lt_irrefl = λ x. ground arith;
  lt_trans = λ x y z h k. ground arith;
  lt_total = λ x y h k l m. ground arith;
  eq_lt_left = λ x y z h. ground arith;
  eq_lt_right = λ x y z h. ground arith;
  le_lem = λ x y h k. refl;
  ratio_num = λ n d. refl;
  ratio_mono = λ m n d h. ground arith;
}

instance abbrev pub plain : Text
plain = record {
  trim_space = λ s. s;
  to_lower = λ s. s;
  to_upper = λ s. s;
  replace_first = λ s old new. s;
  contains = λ s t. str_eq s t;
  split = λ s t. s ∷ [];
  has_prefix = λ s t. true;
  trim_prefix = λ s t. s;
  hex_length = λ s. if str_eq s "" then none else some 32;
  parse_int = λ s. if str_eq s "3" then some (pos 3) else none;
  atoi = λ s. if str_eq s "2" then some (pos 2) else none;
  parse_time = λ l s. none;
}

abbrev joined : List String → String
joined [] = ""
joined (s ∷ rest) = s

abbrev pub surroundings : Backend
surroundings = record { text_of = joined; until = λ t. t.unix; extract_validation_url = λ s. none }

abbrev pub alice : Account ℤ
alice = record (blank_account "alice") { quota = some (pos 900) }

abbrev pub bob : Account ℤ
bob = record (blank_account "bob") { request_count = pos 4 }

abbrev pub carol : Account ℤ
carol = record (blank_account "carol") { status = "auth_error" }

abbrev pub two : Pool ℤ
two = record {
  version = pos 1;
  strategy = "round_robin";
  active_account_id = some "alice";
  round_robin_last_account_id = some "alice";
  accounts = alice ∷ bob ∷ [];
}
