-- ===== src/Command/PrivateMessage/Grammar.antt =====
-- `parse_private_message` of client-cpp/src/command.cpp against a grammar of its input.
pub mod Found
use cross_language_lan_chatr.Prelude.{
  ℕ, suc, ◌+◌, ◌-◌, ◌≡◌, subst, refl, sym, ap, ◌∙◌, true, false, not, some, [], ◌∷◌, ◌++◌, arith,
  ltb, ◌==◌, length, is_empty, take, drop, all, Bytes, codes, same, guard-eq-some, >>=-eq-some,
  drop_step, length-drop, lt→ltb, ltb→lt, ◌≤◌, all-append_left, take_at, all-append, length-append,
}
use cross_language_lan_chatr.Command.Scan.{
  is_space, is_blank, is_valid_code, skip_spaces, find_first, none_of, starts_ink, drop_inside,
  find_from-append, find_from-split, skip_from-append, skip_from-split,
}
use cross_language_lan_chatr.Command.PrivateMessage.{
  PrivateMessageCommand, is_private_message_command, parse_target, private_message,
  parse_private_message,
}
use cross_language_lan_chatr.Command.PrivateMessage.Target.{
  IsTarget, valid_code-none_of, alphanumeric_no_blank, blank-is_space, parse_target-IsTarget,
  not_equal, parse_target-TargetSteps, IsTarget-TargetSteps,
}
use cross_language_lan_chatr.Command.PrivateMessage.Grammar.Found.{
  Steps, private_message-of_Steps, private_message-Steps,
}

-- The input is `/msg`, spaces, `Name#Code`, a blank and more spaces, and the content; the name and the
-- content start with no space character.
pub record Written (input : Bytes) (command : PrivateMessageCommand) : Type 0 where
  pub space : ℕ
  pub lead : Bytes
  pub blank : ℕ
  pub gap : Bytes
  pub text :
      input
      ≡ codes "/msg"
        ++ space
          ∷ (lead
              ++ ((command.target_name ++ b'#' ∷ command.target_user_code)
                  ++ blank ∷ (gap ++ command.content)))
  pub space_IsSpace : is_space space ≡ true
  pub lead_spaces : all is_space lead ≡ true
  pub blank_IsBlank : is_blank blank ≡ true
  pub gap_spaces : all is_space gap ≡ true
  pub target : IsTarget command.target_name command.target_user_code
  pub name_no_blank : none_of is_blank command.target_name ≡ true
  pub name_starts : starts_ink command.target_name ≡ true
  pub has_content : is_empty command.content ≡ false
  pub content_starts : starts_ink command.content ≡ true

code-no_blank : (code : Bytes) → is_valid_code code ≡ true → none_of is_blank (b'#' ∷ code) ≡ true
unfolding is_blank
code-no_blank code v = valid_code-none_of is_blank code alphanumeric_no_blank v

starts_ink-append :
    (name rest : Bytes)
    → is_empty name ≡ false
    → starts_ink name ≡ true
    → starts_ink (name ++ rest) ≡ true
starts_ink-append [] rest h k = cc
starts_ink-append (c ∷ cs) rest h k = k

is_empty-append : (name rest : Bytes) → is_empty name ≡ false → is_empty (name ++ rest) ≡ false
is_empty-append [] rest h = cc
is_empty-append (c ∷ cs) rest h = refl

slash_msg :
    (c : ℕ) (rest : Bytes)
    → is_space c ≡ true
    → is_private_message_command (codes "/msg" ++ c ∷ rest) ≡ true
unfolding is_private_message_command same
slash_msg c rest h = ground arith

Steps-Written :
    (input : Bytes) (command : PrivateMessageCommand) → Written input command → Steps input command
unfolding is_private_message_command skip_spaces find_first
Steps-Written input command w = record {
  target_begin = begin;
  target_end = end;
  content_begin = content_at;
  is_command = rw w.text (slash_msg w.space _ w.space_IsSpace);
  begins = rw after_command (
      skip_from-append w.lead _ 5 begin w.lead_spaces
        (starts_ink-append target_text _ (is_empty-append _ _ w.target.named)
          (starts_ink-append _ _ w.target.named w.name_starts))
        refl);
  begins_inside = lt→ltb begin (length input) (
      drop_inside begin input _ after_lead
        (is_empty-append target_text _ (is_empty-append _ _ w.target.named)));
  ends = rw after_lead (
      find_from-append is_blank target_text w.blank _ begin end
        (all-append _ command.target_name _ w.name_no_blank (code-no_blank _ w.target.valid))
        w.blank_IsBlank refl);
  target =
      rw (after_lead, take_at (end - begin) target_text _ (omega arith))
        (parse_target-IsTarget _ _ w.target);
  continues = rw after_target (
      skip_from-append (w.blank ∷ w.gap) command.content end content_at
        (rw (blank-is_space _ w.blank_IsBlank) w.gap_spaces) w.content_starts (omega arith));
  continues_inside =
      not_equal content_at (length input) (drop_inside content_at input _ after_gap w.has_content);
  content = after_gap;
}
  where
    target_text : Bytes
    target_text = command.target_name ++ b'#' ∷ command.target_user_code

    begin : ℕ
    begin = 5 + length w.lead

    end : ℕ
    end = begin + length target_text

    content_at : ℕ
    content_at = end + suc (length w.gap)

    after_command : drop 5 input ≡ w.lead ++ (target_text ++ w.blank ∷ (w.gap ++ command.content))
    after_command = rw w.text refl

    after_lead : drop begin input ≡ target_text ++ w.blank ∷ (w.gap ++ command.content)
    after_lead = drop_step 5 (length w.lead) begin input w.lead _ after_command refl refl

    after_target : drop end input ≡ w.blank ∷ (w.gap ++ command.content)
    after_target = drop_step begin (length target_text) end input target_text _ after_lead refl refl

    after_gap : drop content_at input ≡ command.content
    after_gap =
        drop_step end (suc (length w.gap)) content_at input (w.blank ∷ w.gap) _ after_target refl
          refl

slash_msg_inverse :
    (input : Bytes)
    → is_private_message_command input ≡ true
    → 5 ≤ length input
    → (c : ℕ) × (rest : Bytes) × (input ≡ codes "/msg" ++ c ∷ rest) × (is_space c ≡ true)
unfolding is_private_message_command same
slash_msg_inverse [] e h = absurd (omega arith)
slash_msg_inverse (a ∷ []) e h = absurd (omega arith)
slash_msg_inverse (a ∷ b ∷ []) e h = absurd (omega arith)
slash_msg_inverse (a ∷ b ∷ c ∷ []) e h = absurd (omega arith)
slash_msg_inverse (a ∷ b ∷ c ∷ d ∷ []) e h = absurd (omega arith)
slash_msg_inverse (a ∷ b ∷ c ∷ d ∷ s ∷ rest) e h = (s, rest, ground arith, ground arith)

starts_ink-left :
    (name rest : Bytes)
    → is_empty name ≡ false
    → starts_ink (name ++ rest) ≡ true
    → starts_ink name ≡ true
starts_ink-left [] rest h k = cc
starts_ink-left (c ∷ cs) rest h k = k

-- The spaces skipped behind the target begin with the blank that ended it.
gap_split :
    (b : ℕ) (post lead rest : Bytes)
    → is_blank b ≡ true
    → b ∷ post ≡ lead ++ rest
    → starts_ink rest ≡ true
    → (gap : Bytes) × (lead ≡ b ∷ gap) × (post ≡ gap ++ rest)
gap_split b post [] [] h e k = cc
gap_split b post [] (c ∷ cs) h e k = absurd (ground (arith, blank-is_space b h))
gap_split b post (c ∷ gap) rest h e k = (gap, ground arith, ground arith)

-- A position inside the input or at its end, that is not its end, has bytes behind it.
nonempty_inside :
    (k : ℕ) (input rest : Bytes)
    → drop k input ≡ rest
    → (k == length input) ≡ false
    → k ≤ length input
    → is_empty rest ≡ false
nonempty_inside k input [] d e h = absurd (ground (arith, ap length d, length-drop k input))
nonempty_inside k input (c ∷ cs) d e h = refl

Written-Steps :
    (input : Bytes) (command : PrivateMessageCommand) → Steps input command → Written input command
unfolding skip_spaces find_first
Written-Steps input command s =
    let (lead, rest, split1, lead_ok, ink1, q1) = skip_from-split (drop 5 input) 5 in
    let begins : s.target_begin ≡ 5 + length lead = sym s.begins ∙ q1 in
    let at_begin : drop s.target_begin input ≡ rest =
      drop_step 5 (length lead) s.target_begin input lead rest split1 refl (sym begins) in
    let (target, blank, post, split2, clean, is_b, q2) =
      find_from-split is_blank (drop s.target_begin input) s.target_begin s.target_end s.ends in
    let taken : take (s.target_end - s.target_begin) (drop s.target_begin input) ≡ target =
      ap (take (s.target_end - s.target_begin)) split2
      ∙ take_at (s.target_end - s.target_begin) target _ (omega arith) in
    let (shape, is_target) =
      IsTarget-TargetSteps target _ _
        (parse_target-TargetSteps target _ _ (ap parse_target (sym taken) ∙ s.target)) in
    let at_end : drop s.target_end input ≡ blank ∷ post =
      drop_step s.target_begin (length target) s.target_end input target (blank ∷ post) split2 refl
        (sym q2) in
    let (lead2, content, split3, lead2_ok, ink2, q3) =
      skip_from-split (drop s.target_end input) s.target_end in
    let (gap, gap_is, post_is) =
      gap_split blank post lead2 content is_b (sym at_end ∙ split3) ink2 in
    let at_content : drop s.content_begin input ≡ content =
      drop_step s.target_end (length lead2) s.content_begin input lead2 content split3 refl
        (sym q3 ∙ s.continues) in
    let (c, tail, input_is, c_space) =
      slash_msg_inverse input s.is_command (omega (arith, ltb→lt _ _ s.begins_inside)) in
    let content_is : content ≡ command.content = sym at_content ∙ s.content in
    let tail_is : tail ≡ lead ++ rest = sym (ap (drop 5) input_is) ∙ split1 in
    let rest_is : rest ≡ target ++ blank ∷ post = sym at_begin ∙ split2 in
    record {
      space = c;
      lead = lead;
      blank = blank;
      gap = gap;
      text =
          input_is
          ∙ ap (λ t. codes "/msg" ++ c ∷ t) (cc (tail_is, rest_is, shape, post_is, content_is));
      space_IsSpace = c_space;
      lead_spaces = lead_ok;
      blank_IsBlank = is_b;
      gap_spaces = ground (arith, gap_is, lead2_ok);
      target = is_target;
      name_no_blank =
          all-append_left _ command.target_name (b'#' ∷ command.target_user_code)
            (rw (← shape) clean);
      name_starts = starts_ink-left _ (b'#' ∷ command.target_user_code) is_target.named (
          starts_ink-left _ (blank ∷ post) (is_empty-append _ _ is_target.named)
            (subst (λ r. starts_ink r ≡ true) (rest_is ∙ ap (λ t. t ++ blank ∷ post) shape) ink1));
      has_content =
          nonempty_inside s.content_begin input command.content s.content s.continues_inside (
            omega (
              arith,
              q3,
              s.continues,
              ap length at_end,
              ap length split3,
              length-append lead2 content,
              length-drop s.target_end input,
            ));
      content_starts = subst (λ r. starts_ink r ≡ true) content_is ink2;
    }

-- `parse_private_message` succeeds with a command only if the input is written as `/msg`, at least one
-- space, `Name#Code` with a non-empty name that holds no `#` and no separator (blank, tab or end of
-- line) and starts with no space character and a valid code, spaces that begin with a separator, and
-- the content, which is not empty and starts with no space character.
pub parse_private_message-Written :
    (input : Bytes) (command : PrivateMessageCommand)
    → parse_private_message input ≡ (true, command)
    → Written input command
unfolding parse_private_message
parse_private_message-Written input command e =
    Written-Steps input command (private_message-Steps input command (ground arith))

-- Every input of this form is parsed, to exactly the name, the code and the content written: `/msg`, at
-- least one space, `Name#Code` with a non-empty name that holds no `#` and no separator (blank, tab
-- or end of line) and starts with no space character and a valid code, spaces that begin with a
-- separator, and the content, which is not empty and starts with no space character.
pub Written-parse_private_message :
    (input : Bytes) (command : PrivateMessageCommand)
    → Written input command
    → parse_private_message input ≡ (true, command)
unfolding parse_private_message
Written-parse_private_message input command w =
    rw (
      private_message-of_Steps input command (Steps-Written input command w),
      parse_private_message,
    )
