-- ===== src/Commands/Router/Tests.antt =====
-- Runs of the router.
use Prim.Native.String.{String}
use ruriko.Prelude.{ℕ, none, some, [], ◌∷◌, ◌≡◌, refl, nat_eq, string_eq}
use ruriko.Prelude.GoMap.{empty, put}
use ruriko.Prelude.Text.{is_space, trim_left, trim_right, trim_space}
use ruriko.Commands.Router.{
  Command, ok, err, scan, flush, scan_rune, tokenize_command, walk, build, parse, handler_key,
  route, get_flag, unterminated_quote, not_a_command,
}
use ruriko.Commands.Router.Quoting.{quote_all, tokenize_command-quote_all}
use ruriko.Commands.Router.Reserved.{flags-parse}

tokenize_one : tokenize_command "a 'b c' d\\ e" ≡ ok ("a" ∷ "b c" ∷ "d e" ∷ [])
unfolding tokenize_command scan flush scan_rune trim_space trim_left trim_right is_space
tokenize_one = refl

tokenize_open : tokenize_command "a 'b" ≡ err unterminated_quote
unfolding tokenize_command scan flush scan_rune trim_space trim_left trim_right is_space
tokenize_open = refl

abbrev sent : String
sent = "/ruriko agents delete bot --_approved true --force"

abbrev read : Command
read = record {
  name = "agents";
  subcommand = "delete";
  args = "bot" ∷ [];
  flags = put empty "force" "true";
  raw_text = "agents delete bot --_approved true --force";
}

parse-sent : parse "/ruriko" sent ≡ ok read
unfolding parse build walk tokenize_command scan flush scan_rune trim_space trim_left trim_right
    is_space
parse-sent = refl

parse_other : parse "/ruriko" "hello" ≡ err not_a_command
unfolding parse trim_space trim_left trim_right is_space
parse_other = refl

route-read : route {H = ℕ} (put (put empty "agents" 1) "agents.delete" 2) read ≡ some 2
unfolding route handler_key
route-read = refl

flags-parse_example : (read.flags "_approved" ≡ none) × (get_flag read "_approved" "" ≡ "")
flags-parse_example = flags-parse "/ruriko" sent "_approved" parse-sent refl

tokenize_command-quote_all_example :
    tokenize_command (quote_all ("say" ∷ "\"a\\b\" c" ∷ [])) ≡ ok ("say" ∷ "\"a\\b\" c" ∷ [])
tokenize_command-quote_all_example =
    tokenize_command-quote_all ("say" ∷ "\"a\\b\" c" ∷ []) (refl, (refl, tt))
