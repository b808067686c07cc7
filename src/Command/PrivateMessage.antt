-- ===== src/Command/PrivateMessage.antt =====
-- `is_private_message_command` and `parse_private_message` of client-cpp/src/command.cpp.
use cross_language_lan_chatr.Prelude.{
  ℕ, suc, ◌+◌, ◌-◌, ◌≡◌, refl, Bool, true, false, not, ◌&&◌, ◌||◌, Option, none, some, ◌↔◌, inl,
  inr, List, [], ◌∷◌, ◌++◌, arith, ltb, leb, ◌==◌, if◌then◌else◌, length, is_empty, take, drop, all,
  Bytes, codes, same, ◌>>=◌, ◌>>◌, guard,
}
use cross_language_lan_chatr.Command.Scan.{
  is_space, is_blank, is_valid_code, skip_spaces, find_first, span_length,
}
pub mod Target
pub mod Grammar

pub record PrivateMessageCommand : Type 0 where
  pub target_name : Bytes
  pub target_user_code : Bytes
  pub content : Bytes

abbrev pub empty_command : PrivateMessageCommand
empty_command = record { target_name = []; target_user_code = []; content = [] }

unfoldable pub is_command_prefix : Bytes → Bool
is_command_prefix input = leb 4 (length input) && same (take 4 input) (codes "/msg")

-- The byte at a position, if it lies in the string.
abbrev pub test_at : (ℕ → Bool) → Bytes → Bool
test_at p [] = false
test_at p (c ∷ cs) = p c

unfoldable pub is_private_message_command : Bytes → Bool
unfolding is_command_prefix
is_private_message_command input =
    same input (codes "/msg")
    || (is_command_prefix input && ltb 4 (length input) && test_at is_space (drop 4 input))

abbrev pub is_hash : ℕ → Bool
is_hash c = c == b'#'

abbrev pub is_none {ℓ} : {A : Type ℓ} → Option A → Bool
is_none none = true
is_none (some a) = false

-- The checks on `Name#Code`; the result is the name and the code.
unfoldable pub parse_target : Bytes → Option (Bytes × Bytes)
parse_target target = do
  guard (not (is_empty target))
  separator ← find_first is_hash target 0
  guard (not (separator == 0))
  guard (ltb (separator + 1) (length target))
  guard (is_none (find_first is_hash target (separator + 1)))
  guard (is_valid_code (drop (separator + 1) target))
  some (take separator target, drop (separator + 1) target)

unfoldable pub private_message : Bytes → Option PrivateMessageCommand
private_message input = do
  guard (is_private_message_command input)
  let target_begin = skip_spaces input 5
  guard (ltb target_begin (length input))
  let target_end = find_first is_blank input target_begin
  let target_length = span_length input target_begin target_end
  (name, code) ← parse_target (take target_length (drop target_begin input))
  end ← target_end
  let content_begin = skip_spaces input end
  guard (not (content_begin == length input))
  some (record { target_name = name; target_user_code = code; content = drop content_begin input })

-- The flag that the function returns, with the output argument that it leaves.
unfoldable pub parse_private_message : Bytes → Bool × PrivateMessageCommand
parse_private_message input = elim (private_message input) [
  | none ↦ (false, empty_command)
  | some command ↦ (true, command)
]
