-- ===== src/Command/PrivateMessage/Grammar/Found.antt =====
-- The steps of `parse_private_message` of client-cpp/src/command.cpp.
use cross_language_lan_chatr.Prelude.{
  ℕ, ◌-◌, ◌≡◌, refl, true, false, not, some, arith, ltb, ◌==◌, length, take, drop, Bytes,
  guard-eq-some, >>=-eq-some,
}
use cross_language_lan_chatr.Command.Scan.{is_blank, skip_spaces, find_first}
use cross_language_lan_chatr.Command.PrivateMessage.{
  PrivateMessageCommand, is_private_message_command, parse_target, private_message,
}

-- What the successful steps of `parse_private_message` have computed.
pub record Steps (input : Bytes) (command : PrivateMessageCommand) : Type 0 where
  pub target_begin : ℕ
  pub target_end : ℕ
  pub content_begin : ℕ
  pub is_command : is_private_message_command input ≡ true
  pub begins : skip_spaces input 5 ≡ target_begin
  pub begins_inside : ltb target_begin (length input) ≡ true
  pub ends : find_first is_blank input target_begin ≡ some target_end
  pub target :
      parse_target (take (target_end - target_begin) (drop target_begin input))
      ≡ some (command.target_name, command.target_user_code)
  pub continues : skip_spaces input target_end ≡ content_begin
  pub continues_inside : (content_begin == length input) ≡ false
  pub content : drop content_begin input ≡ command.content

pub private_message-of_Steps :
    (input : Bytes) (command : PrivateMessageCommand)
    → Steps input command
    → private_message input ≡ some command
unfolding private_message
private_message-of_Steps input command s =
    rw (s.is_command, s.begins, s.begins_inside, s.ends)
      (rw s.target (rw (s.continues, s.continues_inside, s.content)))

pub private_message-Steps :
    (input : Bytes) (command : PrivateMessageCommand)
    → private_message input ≡ some command
    → Steps input command
unfolding private_message
private_message-Steps input command e =
    let (c, e1) = guard-eq-some (is_private_message_command input) _ e in
    let (b, e2) = guard-eq-some (ltb (skip_spaces input 5) (length input)) _ e1 in
    let (t, et, e3) = >>=-eq-some (parse_target _) _ e2 in
    let (end, en, e4) = >>=-eq-some (find_first is_blank input (skip_spaces input 5)) _ e3 in
    let (g, e5) = guard-eq-some (not (skip_spaces input end == length input)) _ e4 in
    record {
      target_begin = skip_spaces input 5;
      target_end = end;
      content_begin = skip_spaces input end;
      is_command = c;
      begins = refl;
      begins_inside = b;
      ends = en;
      target = ground arith;
      continues = refl;
      continues_inside = ground arith;
      content = ground arith;
    }
