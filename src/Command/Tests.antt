-- ===== src/Command/Tests.antt =====
-- Runs of the command parsers, and the theorems about them at concrete inputs.
use cross_language_lan_chatr.Prelude.{◌≡◌, refl, true, false, [], ◌∷◌, codes, same}
use cross_language_lan_chatr.Command.Scan.{
  is_space, is_blank, is_valid_code, is_valid_room_name, skip_spaces, find_first,
}
use cross_language_lan_chatr.Command.PrivateMessage.{
  PrivateMessageCommand, empty_command, is_private_message_command, parse_target, private_message,
  parse_private_message,
}
use cross_language_lan_chatr.Command.PrivateMessage.Grammar.{
  Written, parse_private_message-Written, Written-parse_private_message,
}
use cross_language_lan_chatr.Command.Join.{
  empty_room, is_join_command, join_room, parse_join_command, WrittenJoin,
  parse_join_command-Written, Written-parse_join_command,
}

abbrev bob : PrivateMessageCommand
bob = record {
  target_name = codes "Bob";
  target_user_code = codes "A1";
  content = codes "hi there ";
}

parse_bob : parse_private_message (codes "/msg  Bob#A1 \t hi there ") ≡ (true, bob)
unfolding parse_private_message private_message is_private_message_command parse_target same
    is_space is_blank is_valid_code skip_spaces find_first
parse_bob = refl

-- Two separators in the target, a code with other bytes, no content.
refused :
    (parse_private_message (codes "/msg Bob#A#1 hi") ≡ (false, empty_command))
    × (parse_private_message (codes "/msg Bob#A-1 hi") ≡ (false, empty_command))
    × (parse_private_message (codes "/msg Bob#A1  ") ≡ (false, empty_command))
    × (parse_private_message (codes "/msgs Bob#A1 hi") ≡ (false, empty_command))
unfolding parse_private_message private_message is_private_message_command parse_target same
    is_space is_blank is_valid_code skip_spaces find_first
refused = (refl, refl, refl, refl)

join_lobby :
    parse_join_command (codes "/join  lobby_2") ≡ (true, record { room_name = codes "lobby_2" })
unfolding parse_join_command join_room is_join_command same is_space is_blank is_valid_room_name
    skip_spaces find_first
join_lobby = refl

-- A trailing space is refused.
join_refused : parse_join_command (codes "/join lobby ") ≡ (false, empty_room)
unfolding parse_join_command join_room is_join_command same is_space is_blank is_valid_room_name
    skip_spaces find_first
join_refused = refl

parse_private_message-Written_example : Written (codes "/msg  Bob#A1 \t hi there ") bob
parse_private_message-Written_example =
    parse_private_message-Written (codes "/msg  Bob#A1 \t hi there ") bob parse_bob

Written-bob : Written (codes "/msg \tBob#A1  hi there ") bob
unfolding is_space is_blank is_valid_code
Written-bob = record {
  space = b' ';
  lead = b'\t' ∷ [];
  blank = b' ';
  gap = b' ' ∷ [];
  text = refl;
  space_IsSpace = refl;
  lead_spaces = refl;
  blank_IsBlank = refl;
  gap_spaces = refl;
  target = record { named = refl; no_hash = refl; valid = refl };
  name_no_blank = refl;
  name_starts = refl;
  has_content = refl;
  content_starts = refl;
}

Written-parse_private_message_example :
    parse_private_message (codes "/msg \tBob#A1  hi there ") ≡ (true, bob)
Written-parse_private_message_example =
    Written-parse_private_message (codes "/msg \tBob#A1  hi there ") bob Written-bob

parse_join_command-Written_example : WrittenJoin (codes "/join  lobby_2") (codes "lobby_2")
parse_join_command-Written_example =
    parse_join_command-Written (codes "/join  lobby_2") (codes "lobby_2") join_lobby

Written-lobby : WrittenJoin (codes "/join \t7_seas") (codes "7_seas")
unfolding is_space is_valid_room_name
Written-lobby = record { lead = b'\t' ∷ []; text = refl; lead_spaces = refl; valid = refl }

Written-parse_join_command_example :
    parse_join_command (codes "/join \t7_seas") ≡ (true, record { room_name = codes "7_seas" })
Written-parse_join_command_example =
    Written-parse_join_command (codes "/join \t7_seas") (codes "7_seas") Written-lobby
