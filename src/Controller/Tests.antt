-- ===== src/Controller/Tests.antt =====
-- Tests and examples for client-cpp/gui/src/gui_chat_controller.cpp.
use cross_language_lan_chatr.Prelude.{
  ℕ, ◌≤◌, arith, ◌≡◌, refl, true, false, List, [], ◌∷◌, if◌then◌else◌, map, is_empty, Bytes, codes,
  same,
}
use cross_language_lan_chatr.Prelude.Map.{lookup, insert, erase, bytes_eq}
use cross_language_lan_chatr.ChatModel.{Variant, Model, make_model, find_row}
use cross_language_lan_chatr.Controller.{
  Values, State, order_of, oldest, trim_loop, ensure_conversation_model,
}
use cross_language_lan_chatr.Controller.Conversations.{Incoming, do_select_room}
use cross_language_lan_chatr.Controller.Events.{
  Event, select_room, receive_chat, disconnect, new_controller, step, run,
}
use cross_language_lan_chatr.Controller.Bounded.Counts.{count}
use cross_language_lan_chatr.Controller.Bounded.{Bounded, ensure-Bounded}
use cross_language_lan_chatr.Controller.Trimmed.{Shown}
use cross_language_lan_chatr.Controller.Cached.{run-new-Shown}

abbrev byte_variant : Variant
byte_variant = record {
  Value = Bytes;
  invalid = [];
  equal = same;
  to_text = λ v. v;
  of_text = λ v. v;
}

abbrev first_code : Bytes → ℕ
first_code [] = 0
first_code (n ∷ ns) = n

abbrev byte_values : Values
byte_values = record {
  variant = byte_variant;
  flag = λ b. if b then codes "1" else [];
  to_flag = λ v. if is_empty v then false else true;
  number = λ n. n ∷ [];
  to_number = first_code;
  trimmed = λ s. s;
  same_case = same;
}

abbrev no_rooms : Model byte_variant
no_rooms =
    make_model byte_variant (codes "roomName" ∷ codes "memberCount" ∷ codes "unreadCount" ∷ [])

abbrev no_directs : Model byte_variant
no_directs =
    make_model byte_variant (codes "displayName" ∷ codes "userCode" ∷ codes "unreadCount" ∷ [])

abbrev decimal : ℕ → Bytes
decimal n = n ∷ []

abbrev new : State byte_values
new = new_controller byte_values decimal no_rooms no_directs (codes "Ann") (codes "A1")

abbrev visits : List (Event byte_values)
visits =
    select_room (codes "a")
    ∷ select_room (codes "b")
    ∷ select_room (codes "c")
    ∷ select_room (codes "d")
    ∷ select_room (codes "e")
    ∷ select_room (codes "f")
    ∷ select_room (codes "g")
    ∷ select_room (codes "h")
    ∷ []

abbrev keys : List (Bytes × ℕ) → List Bytes
keys models = map (λ m. m.0) models

-- The ninth conversation takes the place of the lobby.
lobby_trimmed :
    keys (run byte_values decimal (codes "?") visits new).models
    ≡ codes "room:a"
      ∷ codes "room:b"
      ∷ codes "room:c"
      ∷ codes "room:d"
      ∷ codes "room:e"
      ∷ codes "room:f"
      ∷ codes "room:g"
      ∷ codes "room:h"
      ∷ []
unfolding run step do_select_room ensure_conversation_model trim_loop oldest lookup insert erase
    same find_row make_model
lobby_trimmed = refl

abbrev greeting : Incoming
greeting = record {
  message_id = codes "m1";
  username = codes "Bob";
  user_code = codes "B2";
  content = codes "hi";
  room = codes "a";
  target_user_code = [];
  delivery_state = [];
  is_private = false;
}

run-new-Shown_example : Shown byte_values (
    run byte_values decimal
      (codes "?")
      (select_room (codes "b") ∷ receive_chat greeting (codes "10:00") ∷ disconnect ∷ [])
      new)
run-new-Shown_example =
    run-new-Shown byte_values decimal no_rooms no_directs (codes "Ann") (codes "A1") (codes "?")
      (select_room (codes "b") ∷ receive_chat greeting (codes "10:00") ∷ disconnect ∷ [])

new_once : (key : Bytes) → count key new.models ≤ 1
unfolding count
new_once key = ground arith

new_order : (key : Bytes) → order_of new.order key ≤ 1
unfolding lookup
new_order key = ground arith

abbrev new_bounded : Bounded byte_values 1 new
new_bounded = record {
  size = omega arith;
  unique = new_once;
  named = (refl, tt);
  orders = new_order;
  uses_left = omega arith;
}

ensure-Bounded_example :
    Bounded byte_values 2 (ensure_conversation_model byte_values (codes "room:a") new).1
ensure-Bounded_example =
    ensure-Bounded byte_values (codes "room:a") 1 new refl new_bounded (omega arith)
