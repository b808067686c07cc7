-- ===== src/Command/Join.antt =====
-- `is_rooms_command`, `is_leave_command`, `is_join_command` and `parse_join_command` of
-- client-cpp/src/command.cpp, with the grammar that `parse_join_command` accepts.
use cross_language_lan_chatr.Prelude.{
  ℕ, suc, ◌+◌, ◌-◌, ◌≤◌, ◌≡◌, refl, sym, ap, ◌∙◌, Bool, true, false, not, ◌&&◌, ◌||◌, Option, none,
  some, [], ◌∷◌, ◌++◌, arith, ltb, ◌==◌, length, is_empty, take, drop, all, Bytes, lt→ltb, ltb→lt,
  codes, same, ◌>>◌, guard, guard-eq-some, drop_step, take_all, length-drop, all-imp,
}
use cross_language_lan_chatr.Command.Scan.{
  is_space, is_blank, is_ascii_alphanumeric, is_valid_room_name, skip_spaces, find_first,
  span_length, starts_ink, find_from_all, drop_inside, skip_from-append, skip_from-split,
}

pub record RoomCommand : Type 0 where
  pub room_name : Bytes

abbrev pub empty_room : RoomCommand
empty_room = record { room_name = [] }

unfoldable pub is_rooms_command : Bytes → Bool
is_rooms_command input = same input (codes "/rooms")

unfoldable pub is_leave_command : Bytes → Bool
is_leave_command input = same input (codes "/leave")

unfoldable pub is_join_command : Bytes → Bool
is_join_command input =
    same input (codes "/join") || (ltb 6 (length input) && same (take 6 input) (codes "/join "))

abbrev is_npos {ℓ} : {A : Type ℓ} → Option A → Bool
is_npos none = true
is_npos (some a) = false

unfoldable pub join_room : Bytes → Option RoomCommand
join_room input = do
  guard (is_join_command input)
  let room_begin = skip_spaces input 5
  guard (ltb room_begin (length input))
  let room_end = find_first is_blank input room_begin
  let room_name = take (span_length input room_begin room_end) (drop room_begin input)
  guard (is_npos room_end && is_valid_room_name room_name)
  some (record { room_name = room_name })

-- The flag that the function returns, with the output argument that it leaves.
unfoldable pub parse_join_command : Bytes → Bool × RoomCommand
parse_join_command input = elim (join_room input) [
  | none ↦ (false, empty_room)
  | some command ↦ (true, command)
]

-- The input is `/join`, one space or more that begin with ' ', and a valid room name.
pub record WrittenJoin (input room : Bytes) : Type 0 where
  pub lead : Bytes
  pub text : input ≡ codes "/join " ++ (lead ++ room)
  pub lead_spaces : all is_space lead ≡ true
  pub valid : is_valid_room_name room ≡ true

room_char : ℕ → Bool
unfolding is_ascii_alphanumeric
room_char c = is_ascii_alphanumeric c || c == b'_'

room_char_no_blank : (c : ℕ) → room_char c ≡ true → not (is_blank c) ≡ true
unfolding room_char is_blank
room_char_no_blank c h = ground arith

room_char_no_space : (c : ℕ) → room_char c ≡ true → not (is_space c) ≡ true
unfolding room_char is_space
room_char_no_space c h = ground arith

valid_room-all :
    (room : Bytes)
    → is_valid_room_name room ≡ true
    → (is_empty room ≡ false) × (all room_char room ≡ true)
unfolding is_valid_room_name room_char
valid_room-all room h = ground arith

valid_room-starts_ink : (room : Bytes) → all room_char room ≡ true → starts_ink room ≡ true
valid_room-starts_ink [] h = refl
valid_room-starts_ink (c ∷ cs) h = ground (arith, room_char_no_space c)

slash_join :
    (rest : Bytes) → is_empty rest ≡ false → is_join_command (codes "/join " ++ rest) ≡ true
unfolding is_join_command same
slash_join [] h = cc
slash_join (c ∷ cs) h = ground arith

slash_join_inverse :
    (input : Bytes)
    → is_join_command input ≡ true
    → 6 ≤ length input
    → (rest : Bytes) × (input ≡ codes "/join " ++ rest)
unfolding is_join_command same
slash_join_inverse (a ∷ b ∷ c ∷ d ∷ e ∷ f ∷ rest) h l = (rest, ground arith)
slash_join_inverse _ h l = absurd (omega arith)

is_empty-append_right : (xs ys : Bytes) → is_empty ys ≡ false → is_empty (xs ++ ys) ≡ false
is_empty-append_right [] ys h = h
is_empty-append_right (x ∷ xs) ys h = refl

blank_space : is_space b' ' ≡ true
unfolding is_space
blank_space = refl

-- The skipped spaces begin with the ' ' of the prefix.
lead_begins :
    (tail lead rest : Bytes)
    → b' ' ∷ tail ≡ lead ++ rest
    → starts_ink rest ≡ true
    → (more : Bytes) × (lead ≡ b' ' ∷ more) × (tail ≡ more ++ rest)
unfolding is_space
lead_begins tail [] [] e k = cc
lead_begins tail [] (c ∷ cs) e k = absurd (ground arith)
lead_begins tail (c ∷ more) rest e k = (more, ground arith, ground arith)

-- What the successful steps of `parse_join_command` have computed.
record JoinSteps (input room : Bytes) : Type 0 where
  room_begin : ℕ
  is_command : is_join_command input ≡ true
  begins : skip_spaces input 5 ≡ room_begin
  inside : ltb room_begin (length input) ≡ true
  no_end : find_first is_blank input room_begin ≡ none
  room_is : drop room_begin input ≡ room
  valid : is_valid_room_name room ≡ true

-- With no separator behind it the name runs to the end of the input.
rest_of_input : (k : ℕ) (input : Bytes) → take (length input - k) (drop k input) ≡ drop k input
rest_of_input k input = take_all _ (drop k input) (omega (arith, length-drop k input))

join_room-of_JoinSteps :
    (input room : Bytes)
    → JoinSteps input room
    → join_room input ≡ some (record { room_name = room })
unfolding join_room
join_room-of_JoinSteps input room s =
    rw (s.is_command, s.begins, s.inside, s.no_end, rest_of_input s.room_begin input, s.room_is)
      (rw s.valid)

join_room-JoinSteps :
    (input room : Bytes)
    → join_room input ≡ some (record { room_name = room })
    → JoinSteps input room
unfolding join_room
join_room-JoinSteps input room e =
    let (c, e1) = guard-eq-some (is_join_command input) _ e in
    let (b, e2) = guard-eq-some (ltb (skip_spaces input 5) (length input)) _ e1 in
    let (v, e3) =
      guard-eq-some (is_npos (find_first is_blank input (skip_spaces input 5)) && _) _ e2 in
    let no_end : find_first is_blank input (skip_spaces input 5) ≡ none = ground arith in
    let room_is : drop (skip_spaces input 5) input ≡ room =
      ground (arith, rest_of_input (skip_spaces input 5) input) in
    record {
      room_begin = skip_spaces input 5;
      is_command = c;
      begins = refl;
      inside = b;
      no_end = no_end;
      room_is = room_is;
      valid = ground (arith, rest_of_input (skip_spaces input 5) input);
    }

JoinSteps-WrittenJoin : (input room : Bytes) → WrittenJoin input room → JoinSteps input room
unfolding skip_spaces find_first
JoinSteps-WrittenJoin input room w =
    let (named, chars) = valid_room-all room w.valid in
    let after : drop 5 input ≡ (b' ' ∷ w.lead) ++ room = rw w.text refl in
    let begin : ℕ = 5 + suc (length w.lead) in
    let room_is : drop begin input ≡ room =
      drop_step 5 (suc (length w.lead)) begin input (b' ' ∷ w.lead) room after refl refl in
    record {
      room_begin = begin;
      is_command = rw w.text (slash_join _ (is_empty-append_right w.lead room named));
      begins = rw after (
          skip_from-append (b' ' ∷ w.lead) room 5 begin (space_first w.lead w.lead_spaces)
            (valid_room-starts_ink room chars) refl);
      inside = lt→ltb begin (length input) (drop_inside begin input room room_is named);
      no_end =
          rw room_is
            (find_from_all is_blank room begin (all-imp room_char _ room_char_no_blank room chars));
      room_is = room_is;
      valid = w.valid;
    }
  where
    space_first : (lead : Bytes) → all is_space lead ≡ true → all is_space (b' ' ∷ lead) ≡ true
    space_first lead h = rw blank_space h

WrittenJoin-JoinSteps : (input room : Bytes) → JoinSteps input room → WrittenJoin input room
unfolding skip_spaces
WrittenJoin-JoinSteps input room s =
    let (lead, rest, split, spaces, ink, q) = skip_from-split (drop 5 input) 5 in
    let room_is : rest ≡ room =
      sym (drop_step 5 (length lead) s.room_begin input lead rest split refl (sym q ∙ s.begins))
      ∙ s.room_is in
    let (tail, input_is) =
      slash_join_inverse input s.is_command (omega (arith, q, s.begins, ltb→lt _ _ s.inside)) in
    let front : b' ' ∷ tail ≡ lead ++ rest = sym (ap (drop 5) input_is) ∙ split in
    let (more, lead_is, tail_is) = lead_begins tail lead rest front ink in
    record {
      lead = more;
      text = input_is ∙ ap (λ t. codes "/join " ++ t) (tail_is ∙ ap (λ t. more ++ t) room_is);
      lead_spaces = ground (arith, lead_is, spaces);
      valid = s.valid;
    }

-- `parse_join_command` succeeds with a room only if the input is `/join`, at least one space, the
-- first of them ' ', and that room name, of 1 to 32 letters, digits and underscores, at its end.
pub parse_join_command-Written :
    (input room : Bytes)
    → parse_join_command input ≡ (true, record { room_name = room })
    → WrittenJoin input room
unfolding parse_join_command
parse_join_command-Written input room e =
    WrittenJoin-JoinSteps input room (join_room-JoinSteps input room (ground arith))

-- Every input that is written so is parsed to its room name.
pub Written-parse_join_command :
    (input room : Bytes)
    → WrittenJoin input room
    → parse_join_command input ≡ (true, record { room_name = room })
unfolding parse_join_command
Written-parse_join_command input room w =
    rw (join_room-of_JoinSteps input room (JoinSteps-WrittenJoin input room w), parse_join_command)
