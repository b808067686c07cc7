-- ===== src/Auth.antt =====
-- The command line of the terminal client: client-cpp/src/auth.cpp and client-cpp/include/auth.hpp.
-- The random device is the parameter `draw`: the i-th number that the distribution gives. The text
-- of an error is a constructor.
pub mod Port
pub mod Guest
mod Tests
use cross_language_lan_chatr.Prelude.{
  ℕ, zero, suc, ◌+◌, ◌-◌, ◌*◌, ◌^◌, Bool, true, false, not, ◌&&◌, ◌||◌, Option, none, some, List,
  [], ◌∷◌, ◌++◌, if◌then◌else◌, ltb, leb, ◌==◌, length, is_empty, Bytes, codes, same, ℤ, pos,
  negsuc, ◌>>=◌, ◌>>◌, guard, ltb_ℤ, leb_ℤ,
}

pub record ClientOptions : Type 0 where
  pub server_ip : Bytes
  pub server_port : ℕ
  pub username : Bytes
  pub user_code : Bytes
  pub ca_file : Bytes
  pub guest_mode : Bool
  pub host_mode : Bool
  pub server_exe : Bytes
  pub cert_file : Bytes
  pub key_file : Bytes

abbrev pub default_options : ClientOptions
default_options = record {
  server_ip = codes "127.0.0.1";
  server_port = 8888;
  username = codes "Alice";
  user_code = codes "ALICE001";
  ca_file = [];
  guest_mode = false;
  host_mode = false;
  server_exe = codes "..\\server-go\\chat-server.exe";
  cert_file = codes "..\\certs\\server.crt";
  key_file = codes "..\\certs\\server.key";
}

-- The options that take a value.
pub data Destination : Type 0 where
  ca_file server_exe cert key : Destination

pub data Error : Type 0 where
  value_required : Destination → Error
  unknown_option : Bytes → Error
  invalid_port too_many_arguments host_arguments guest_arguments server_arguments : Error

abbrev pub is_digit : ℕ → Bool
is_digit c = leb b'0' c && leb c b'9'

-- The digits at the front of a text, read on from `acc`, and what stands behind them.
unfoldable pub read_decimal : ℕ → Bytes → ℕ × Bytes
read_decimal acc [] = (acc, [])
read_decimal acc (c ∷ cs) =
    let rest = read_decimal (acc * 10 + (c - b'0')) cs in if is_digit c then rest else (acc, c ∷ cs)

abbrev pub starts_with_digit : Bytes → Bool
starts_with_digit [] = false
starts_with_digit (c ∷ cs) = is_digit c

abbrev from_digits : (ℕ → ℤ) → ℕ → Bytes → Option (ℤ × Bytes)
from_digits sign limit text =
    let (n, rest) = read_decimal 0 text in
    if starts_with_digit text && leb n limit then some (sign n, rest) else none

abbrev negate : ℕ → ℤ
negate zero = pos 0
negate (suc n) = negsuc n

-- `std::from_chars` for an `int`: a minus sign or none, then digits; `none` is an error code.
unfoldable pub from_chars : Bytes → Option (ℤ × Bytes)
from_chars [] = none
from_chars (c ∷ cs) =
    if c == b'-' then from_digits negate (2 ^ 31) cs else from_digits pos (2 ^ 31 - 1) (c ∷ cs)

abbrev pub in_range : ℤ × Bytes → Option ℕ
in_range (negsuc n, rest) = none
in_range (pos n, rest) = if not (is_empty rest) || ltb n 1 || ltb 65535 n then none else some n

unfoldable pub parse_port : Bytes → Option ℕ
parse_port value = if is_empty value then none else from_chars value >>= in_range

abbrev pub alphabet : Bytes
alphabet = codes "ABCDEFGHJKLMNPQRSTUVWXYZ23456789"

unfoldable pub letter_at : Bytes → ℕ → ℕ
letter_at [] i = 0
letter_at (c ∷ cs) zero = c
letter_at (c ∷ cs) (suc i) = letter_at cs i

unfoldable pub make_guest_code : (ℕ → ℕ) → Bytes
unfolding letter_at
make_guest_code draw =
    codes "GUEST"
    ++ (letter_at alphabet (draw 0)
        ∷ letter_at alphabet (draw 1)
        ∷ letter_at alphabet (draw 2)
        ∷ letter_at alphabet (draw 3)
        ∷ letter_at alphabet (draw 4)
        ∷ letter_at alphabet (draw 5)
        ∷ [])

-- What an argument is: the chain of tests of the loop.
pub data Argument : Type 0 where
  guest host unknown positional : Argument
  takes : Destination → Argument

abbrev pub starts_with_dash : Bytes → Bool
starts_with_dash [] = false
starts_with_dash (c ∷ cs) = c == b'-'

unfoldable pub classify : Bytes → Argument
classify argument =
    if same argument (codes "--guest")
    then guest
    else if same argument (codes "--host")
    then host
    else if same argument (codes "--ca-file")
    then takes ca_file
    else if same argument (codes "--server-exe")
    then takes server_exe
    else if same argument (codes "--cert")
    then takes cert
    else if same argument (codes "--key")
    then takes key
    else if starts_with_dash argument
    then unknown
    else positional

abbrev pub set_value : Destination → Bytes → ClientOptions → ClientOptions
set_value ca_file value o = record o { ca_file = value }
set_value server_exe value o = record o { server_exe = value }
set_value cert value o = record o { cert_file = value }
set_value key value o = record o { key_file = value }

-- The error, the options and the number of positional arguments so far.
abbrev pub Scanned : Type 0
Scanned = Option Error × ClientOptions × ℕ

abbrev pub set_port : ClientOptions → ℕ → Option ℕ → Scanned
set_port o n none = (some invalid_port, o, n)
set_port o n (some port) = (none, record o { server_port = port }, n)

-- The `switch` on the count, which is raised in every case.
abbrev pub set_positional : ClientOptions → ℕ → Bytes → Scanned
set_positional o zero argument = (none, record o { server_ip = argument }, 1)
set_positional o (suc zero) argument = set_port o 2 (parse_port argument)
set_positional o (suc (suc zero)) argument = (none, record o { username = argument }, 3)
set_positional o (suc (suc (suc zero))) argument = (none, record o { user_code = argument }, 4)
set_positional o (suc (suc (suc (suc n)))) argument = (some too_many_arguments, o, n + 5)

-- One argument that takes no value.
unfoldable pub read_argument : ClientOptions → ℕ → Argument → Bytes → Scanned
read_argument o n guest argument = (none, record o { guest_mode = true; user_code = [] }, n)
read_argument o n host argument =
    (none, record o { host_mode = true; guest_mode = true; user_code = [] }, n)
read_argument o n unknown argument = (some (unknown_option argument), o, n)
read_argument o n positional argument = set_positional o n argument
read_argument o n (takes d) argument = (none, o, n)

abbrev pub awaited : Argument → Option Destination
awaited (takes d) = some d
awaited _ = none

abbrev pub go_on : (ClientOptions → ℕ → Scanned) → Scanned → Scanned
go_on rest (some error, o, n) = (some error, o, n)
go_on rest (none, o, n) = rest o n

-- The loop. `some d`: `take_value` looks for the value of an option at the next argument.
unfoldable pub scan : Option Destination → List Bytes → ClientOptions → ℕ → Scanned
scan none [] o n = (none, o, n)
scan (some d) [] o n = (some (value_required d), o, n)
scan none (argument ∷ args) o n =
    go_on (scan (awaited (classify argument)) args) (read_argument o n (classify argument) argument)
scan (some d) (value ∷ args) o n =
    let rest = scan none args (set_value d value o) n in
    if is_empty value then (some (value_required d), o, n) else rest

-- The code of a guest.
abbrev pub name_guest : (ℕ → ℕ) → ClientOptions → Option Error × ClientOptions
name_guest draw o =
    if o.guest_mode && is_empty o.user_code
    then (none, record o { user_code = make_guest_code draw })
    else (none, o)

abbrev pub finish_host : (ℕ → ℕ) → ClientOptions → ℕ → Option Error × ClientOptions
finish_host draw o zero = name_guest draw (record o { username = codes "Host"; server_port = 8888 })
finish_host draw o (suc zero) =
    name_guest draw
      (record o { username = o.server_ip; server_ip = codes "127.0.0.1"; server_port = 8888 })
finish_host draw o (suc (suc n)) = (some host_arguments, o)

-- The mode checks behind the loop.
unfoldable pub finish : (ℕ → ℕ) → ClientOptions → ℕ → Option Error × ClientOptions
finish draw o n =
    if o.host_mode
    then finish_host draw o n
    else if o.guest_mode && not (n == 3)
    then (some guest_arguments, o)
    else if not o.guest_mode && ltb n 4
    then (some server_arguments, o)
    else name_guest draw o

abbrev pub finish_scanned : (ℕ → ℕ) → Scanned → Option Error × ClientOptions
finish_scanned draw (some error, o, n) = (some error, o)
finish_scanned draw (none, o, n) = finish draw o n

-- The error, if the function returns false, and the options as it leaves them.
unfoldable pub parse_arguments : (ℕ → ℕ) → List Bytes → Option Error × ClientOptions
parse_arguments draw args = finish_scanned draw (scan none args default_options 0)
