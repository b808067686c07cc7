-- ===== src/Page/Answers.antt =====
-- The answers to the requests of the page (`dispatch` and `completeRecallCommand` of
-- client-cpp/gui/src/chat_bridge.cpp).
pub mod Results
pub mod Branches
use cross_language_lan_chatr.Prelude.{
  ◌≡◌, refl, sym, ap, ◌∙◌, subst, ◌⊎◌, inl, inr, ℕ, Bool, true, false, not, ◌&&◌, ◌||◌, Option,
  none, some, List, [], ◌∷◌, ◌++◌, if◌then◌else◌, is_empty, All, all, Bytes, codes, same, same→eq,
  same_refl, if_true, if_false, Bool-cases, Option-cases, arith,
}
use cross_language_lan_chatr.Prelude.Map.{
  lookup, insert, erase, bytes_eq, lookup-insert, lookup-erase,
}
use cross_language_lan_chatr.Json.{
  Json, text, boolean, object, Members, no_members, get, set_key, less, no_items, item, array,
}
use cross_language_lan_chatr.Json.Build.{get-set_key}
use cross_language_lan_chatr.Bridge.{
  Qt, to_text, to_object, make_error, make_command_result, has_no_members, has_key, is_object,
}
use cross_language_lan_chatr.Bridge.Rules.{Rule, rules, validate_command, invalid_command}
use cross_language_lan_chatr.Bridge.Requests.{Accepted, validate_command-Accepted}
use cross_language_lan_chatr.Bridge.Requests.Chosen.{Listed, and-true}
use cross_language_lan_chatr.Page.{Output, command_result}
use cross_language_lan_chatr.Page.Steps.{
  State, schedule_state_update, send_result, complete_waiting, complete_recall_command,
}
use cross_language_lan_chatr.Page.Branches.{
  Replies, Call, BranchEntry, Branch, answered, awaited, handed_on, discover, connect_host, recall,
  choose_mode, logging, report, frames, entries, branch_of, Host, field,
}
use cross_language_lan_chatr.Page.Dispatch.{
  Texts, Caller, take_branch, chosen_branch, dispatch, recall_refusal, discovered, certified,
  do_connect_host, do_recall, do_choose_mode, do_frames,
}
use cross_language_lan_chatr.Page.Answers.Results.{
  Answered, Waiting, unanswered_types, recall_type, Outcome, make_command_result-id,
  make_command_result-ok, failure-Answered,
}
use cross_language_lan_chatr.Page.Answers.Branches.{
  Consistent, branch-Outcome, entries-agree, names, branch_of-cases,
}

module _ (replies : Replies) where
  -- Every type that a rule names has a branch.
  abbrev all_named : List Bytes → Bool
  all_named types = all (has_key (names replies (entries replies))) types

  rules-named : (qt : Qt) → all (λ (rule : Rule). all_named rule.types) (rules qt) ≡ true
  unfolding has_key same
  rules-named qt = refl

all-Listed :
    (q : Rule → Bool) (rule : Rule) (rs : List Rule)
    → all q rs ≡ true
    → Listed rule rs
    → q rule ≡ true
unfolding Listed
all-Listed q rule [] h l = absurd l
all-Listed q rule (r ∷ rs) h (inl e) = ap q e ∙ (and-true (q r) (all q rs) h).0
all-Listed q rule (r ∷ rs) h (inr l) = all-Listed q rule rs (and-true (q r) (all q rs) h).1 l

all-has_key :
    (q : Bytes → Bool) (ts : List Bytes) (type : Bytes)
    → all q ts ≡ true
    → has_key ts type ≡ true
    → q type ≡ true
unfolding has_key
all-has_key q [] type h k = absurd (cc k)
all-has_key q (t ∷ ts) type h k =
    let (first, rest) = and-true (q t) (all q ts) h in
    let later = all-has_key q ts type rest in
    elim (Bool-cases (same t type)) [
      | inl here ↦ ap q (sym (same→eq t type here)) ∙ first
      | inr other ↦ later (rw other at k)
    ]

-- A request that the rules accept has a branch of its own: it never falls through to the answer at
-- the end of `dispatch` with nothing done.
pub Accepted-branch_of :
    (replies : Replies) (qt : Qt) (command : Members) (a : Accepted qt command)
    → (branch : Members → Bytes → Branch) × (branch_of replies (entries replies) a.type
        ≡ some branch)
      × ((p : Members) (id : Bytes) → Consistent a.type (branch p id))
Accepted-branch_of replies qt command a =
    let is_named =
      all-has_key (has_key (names replies (entries replies))) a.rule.types a.type
        (all-Listed (λ (rule : Rule). all_named replies rule.types) a.rule (rules qt)
          (rules-named replies qt) a.listed)
        a.named in
    elim (branch_of-cases replies (entries replies) a.type (entries-agree replies)) [
      | inl (missing, unnamed) ↦ absurd (cc (unnamed, is_named))
      | inr found ↦ found
    ]

-- A request, an object, is accepted or refused. An accepted one of a type that is answered by later
-- signals or not at all sends nothing; an accepted recall sends nothing and waits for its answer
-- under its id if recallMessage allows it, and is answered at once by exactly one failure with its id
-- if not; any other accepted request is answered at once by exactly one result with its id. A
-- refused one is answered at once by exactly one failure with its id, and nothing is called.
pub dispatch-Outcome :
    (replies : Replies) (qt : Qt) (texts : Texts) (command : Members) (s : State)
    (calls : List Call)
    → let t = dispatch replies qt texts (some (object command)) (s, calls) in
      let id = to_text (get (codes "id") command) in
      ((a : Accepted qt command) × Outcome
          (replies.may_recall (field (codes "messageId") a.payload))
          a.type
          id
          s
          t.0)
      ⊎ ((¬ Accepted qt command) × ((r : Answered id s t.0) × (r.ok ≡ false) × (t.1 ≡ calls)))
unfolding dispatch
dispatch-Outcome replies qt texts command s calls =
    let ((accepts, passes), cases) = validate_command-Accepted qt command in
    let id = to_text (get (codes "id") command) in
    elim cases [
      | inl ok ↦
          let a = accepts ok in
          let (branch, at, consistent) = Accepted-branch_of replies qt command a in
          inl (
            a,
            rw (ok, a.type_at, a.payload_at, at)
                (branch-Outcome replies texts.capability_text a.type (branch a.payload id) a.payload
                  id (s, calls) (consistent a.payload id)),
          )
      | inr bad ↦ inr (
        λ a. absurd (cc (bad, passes a)),
        rw bad (let (r, failed) = failure-Answered id _ s _ refl refl in (r, failed, refl)),
      )
    ]

-- The outcome of a recall that waits under an id is sent as exactly one result, with the id that it waits
-- for, and as a success only if it is one; a further outcome under the same id changes nothing, and
-- the recalls under other ids go on waiting.
pub complete_recall_command-once :
    (id result_id reason : Bytes) (ok : Bool) (s : State)
    → lookup id s.pending_recalls ≡ some result_id
    → let t = complete_recall_command id ok reason s in
      ((result : Members) × (t.outputs ≡ command_result result ∷ s.outputs)
        × (get (codes "id") result ≡ some (text result_id))
        × (get (codes "ok") result ≡ some (boolean ok)))
      × ((again : Bool) (reason' : Bytes) → complete_recall_command id again reason' t ≡ t)
      × ((other : Bytes)
          → same id other ≡ false
          → lookup other t.pending_recalls ≡ lookup other s.pending_recalls)
unfolding complete_waiting
complete_recall_command-once id result_id reason ok s at =
    let gone = lookup-erase id id s.pending_recalls ∙ if_true (same id id) none _ (same_refl id) in
    rw at (
      (_, refl, make_command_result-id result_id ok _, make_command_result-ok result_id ok _),
      λ again reason'. rw gone refl,
      λ other e. lookup-erase id other s.pending_recalls ∙ if_false (same id other) none _ e,
    )
