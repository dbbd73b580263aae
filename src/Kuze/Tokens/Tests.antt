-- ===== src/Kuze/Tokens/Tests.antt =====
-- Tokens at concrete tables.
use ruriko.Prelude.{String, true, false, some, List, [], ◌∷◌, ◌≡◌, string_eq, refl}
use ruriko.Kuze.Tokens.{Row, Rows, redeem, new_row, list_expired_unused}
use ruriko.Kuze.Tokens.Redeem.{redeem-IsRedeemed, IsRedeemed, redeem_grants, no_faults}
use ruriko.Kuze.Tokens.OneTime.{
  redeem-IsRefused, IsRefused, run_all, Operation, burning, pruning, issuing, is_ok,
}
use ruriko.Kuze.Tokens.Prune.{lists}

abbrev row : Row
row = new_row 0 0 "k1" "db" "password" "bot" ""

abbrev table : Rows
table = row ∷ new_row 600000000000 0 "k2" "db" "password" "" "" ∷ []

abbrev the_agent : String
the_agent = "bot"

redeem-IsRedeemed_example : IsRedeemed 5 "k1" "bot" table (redeem no_faults 5 "k1" "bot" table)
redeem-IsRedeemed_example = redeem-IsRedeemed no_faults 5 "k1" "bot" table

redeemed : is_ok (redeem no_faults 5 "k1" "bot" table).1 ≡ true
redeemed = rw (redeem_grants 5 "k1" "bot" table row refl refl refl refl) refl

abbrev operations : List Operation
operations =
    burning false "k2" ∷ issuing 10 (some "k3") false 7 "db" "password" ∷ pruning false 9 ∷ []

redeem-IsRefused_example :
    IsRefused "k1" (run_all operations (redeem no_faults 5 "k1" "bot" table).0)
redeem-IsRefused_example = redeem-IsRefused no_faults 5 "k1" "bot" table operations redeemed refl

listed : lists "k1" (list_expired_unused false 70000000000 table) ≡ true
unfolding list_expired_unused
listed = refl
