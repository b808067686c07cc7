-- ===== src/Auth/Tests.antt =====
-- Runs of the command line, and the theorems about it at concrete arguments.
use cross_language_lan_chatr.Prelude.{
  ℕ, ◌≡◌, refl, true, none, some, List, [], ◌∷◌, arith, Bytes, codes, same,
}
use cross_language_lan_chatr.Command.Scan.{is_valid_code}
use cross_language_lan_chatr.Auth.{
  ClientOptions, guest_arguments, default_options, parse_arguments, parse_port, make_guest_code,
  scan, classify, read_argument, finish, from_chars, read_decimal, letter_at,
}
use cross_language_lan_chatr.Auth.Guest.{parse_arguments-guest}

abbrev third : ℕ → ℕ
third i = 3

abbrev guest_line : List Bytes
guest_line = codes "--guest" ∷ codes "10.0.0.2" ∷ codes "9000" ∷ codes "Bob" ∷ []

abbrev bob : ClientOptions
bob = record default_options {
  server_ip = codes "10.0.0.2";
  server_port = 9000;
  username = codes "Bob";
  user_code = codes "GUESTDDDDDD";
  guest_mode = true;
}

guest_line_parses : parse_arguments third guest_line ≡ (none, bob)
unfolding parse_arguments scan classify same read_argument parse_port from_chars read_decimal finish
    make_guest_code letter_at
guest_line_parses = refl

guest_line_short : (parse_arguments third (codes "--guest" ∷ [])).0 ≡ some guest_arguments
unfolding parse_arguments scan classify same read_argument finish
guest_line_short = refl

parse_arguments-guest_example :
    (codes "GUESTDDDDDD" ≡ make_guest_code third) × (is_valid_code (codes "GUESTDDDDDD") ≡ true)
parse_arguments-guest_example =
    parse_arguments-guest third guest_line bob (λ i. omega arith) guest_line_parses refl
