-- ===== src/Page/Answers/Branches.antt =====
-- What each branch of `dispatch` answers (client-cpp/gui/src/chat_bridge.cpp).
use cross_language_lan_chatr.Prelude.{
  all, ◌≡◌, refl, ◌∙◌, subst, ◌⊎◌, inl, inr, Bool, true, false, not, ◌&&◌, Option, none, some, List,
  [], ◌∷◌, Bytes, codes, same, same→eq, same_refl, if_true, if_false, Bool-cases,
}
use cross_language_lan_chatr.Prelude.Map.{insert, bytes_eq, lookup-insert, lookup-erase}
use cross_language_lan_chatr.Json.{Json, Members, no_members}
use cross_language_lan_chatr.Bridge.{make_error, make_command_result, has_key}
use cross_language_lan_chatr.Bridge.Requests.Chosen.{unnegated, and-true}
use cross_language_lan_chatr.Page.Steps.{State, schedule_state_update}
use cross_language_lan_chatr.Page.Branches.{
  Replies, BranchEntry, Branch, answered, awaited, handed_on, discover, connect_host, recall,
  choose_mode, logging, report, frames, entries, branch_of, Host, field,
}
use cross_language_lan_chatr.Page.Dispatch.{
  Caller, take_branch, recall_refusal, discovered, certified, do_connect_host, do_recall,
  do_choose_mode, do_frames,
}
use cross_language_lan_chatr.Page.Answers.Results.{
  Answered, Waiting, unanswered_types, recall_type, Outcome, make_command_result-id,
  make_command_result-ok, result-Answered,
}

abbrev pub Immediate : Bytes → Type 0
Immediate type = (has_key unanswered_types type ≡ false) × (same type recall_type ≡ false)

-- The list of types agrees with what a branch does.
abbrev pub Consistent : Bytes → Branch → Type 0
Consistent type (answered call) = Immediate type
Consistent type (awaited call) = has_key unanswered_types type ≡ true
Consistent type (handed_on call) = has_key unanswered_types type ≡ true
Consistent type discover = Immediate type
Consistent type report = Immediate type
Consistent type frames = has_key unanswered_types type ≡ true
Consistent type connect_host = Immediate type
Consistent type recall = type ≡ recall_type
Consistent type choose_mode = Immediate type
Consistent type logging = Immediate type

module _ (replies : Replies) where
  discovered-Answered :
      (id : Bytes) (s : State) (o : Option Bytes) → Answered id s (discovered replies id s o)
  unfolding discovered schedule_state_update
  discovered-Answered id s none = result-Answered id true no_members s _ refl refl
  discovered-Answered id s (some error) = result-Answered id false _ s _ refl refl

  certified-Answered :
      (p : Members) (id : Bytes) (host : Host) (path : Bytes) (b : Caller)
      → Answered id b.0 (certified replies p id host path b).0
  unfolding certified schedule_state_update
  certified-Answered p id host [] (s, calls) = result-Answered id false _ s _ refl refl
  certified-Answered p id host (c ∷ path) (s, calls) =
      result-Answered id true no_members s _ refl refl

  do_connect_host-Answered :
      (p : Members) (id : Bytes) (found : Host × Option Bytes) (b : Caller)
      → Answered id b.0 (do_connect_host replies p id found b).0
  unfolding do_connect_host schedule_state_update
  do_connect_host-Answered p id (host, some error) (s, calls) =
      result-Answered id false _ s _ refl refl
  do_connect_host-Answered p id (host, none) b =
      certified-Answered p id host (replies.persist_certificate host) b

  do_choose_mode-Answered :
      (t : Bytes) (p : Members) (id : Bytes) (o : Option (Bytes → Json)) (b : Caller)
      → Answered id b.0 (do_choose_mode replies t p id o b).0
  unfolding do_choose_mode schedule_state_update
  do_choose_mode-Answered t p id none (s, calls) = result-Answered id false _ s _ refl refl
  do_choose_mode-Answered t p id (some getter) (s, calls) =
      result-Answered id true no_members s _ refl refl

  do_frames-quiet :
      (p : Members) (o : Option (Bytes → Json)) (b : Caller)
      → let t = (do_frames replies p o b).0 in
        (t.outputs ≡ b.0.outputs) × (t.pending_recalls ≡ b.0.pending_recalls)
  unfolding do_frames schedule_state_update
  do_frames-quiet p none b = (refl, refl)
  do_frames-quiet p (some getter) b = (refl, refl)

  pub branch-Outcome :
      (t type : Bytes) (branch : Branch) (p : Members) (id : Bytes) (b : Caller)
      → Consistent type branch
      → Outcome
          (replies.may_recall (field (codes "messageId") p))
          type
          id
          b.0
          (take_branch replies t branch p id b).0
  unfolding take_branch schedule_state_update do_recall
  branch-Outcome t type (answered call) p id (s, calls) c =
      inr (inr (inr (c.0, c.1, result-Answered id true no_members s _ refl refl)))
  branch-Outcome t type (awaited call) p id (s, calls) c = inl (c, refl, refl)
  branch-Outcome t type (handed_on call) p id (s, calls) c = inl (c, refl, refl)
  branch-Outcome t type discover p id (s, calls) c =
      inr (inr (inr (c.0, c.1, discovered-Answered id s replies.refresh_error)))
  branch-Outcome t type report p id (s, calls) c =
      inr (inr (inr (c.0, c.1, result-Answered id true no_members s _ refl refl)))
  branch-Outcome t type frames p id (s, calls) c =
      let (quiet, waits) = do_frames-quiet p s.window.performance (s, calls) in
      inl (c, quiet, waits)
  branch-Outcome t type connect_host p id b c = inr (
      inr (
        inr (
          c.0,
          c.1,
          do_connect_host-Answered p id (replies.connect_data (field (codes "hostId") p)) b,
        )))
  branch-Outcome t type recall p id (s, calls) c =
      inr (recalled (replies.may_recall (field (codes "messageId") p)))
    where
      recalled :
          (allowed : Bool)
          → let u = do_recall replies id allowed s in
            ((type ≡ recall_type) × (allowed ≡ true) × Waiting id s u)
            ⊎ (((type ≡ recall_type) × (allowed ≡ false) × (r : Answered id s u) × (r.ok ≡ false))
                ⊎ ((has_key unanswered_types type ≡ false)
                    × (same type recall_type ≡ false)
                    × Answered id s u))
      recalled true = inl (
        c,
        refl,
        record {
          quiet = refl;
          waits =
              lookup-insert id id id s.pending_recalls ∙ if_true (same id id) _ _ (same_refl id);
        },
      )
      recalled false = inr (inl (c, refl, recall_denied, refl))
        where
          recall_denied : Answered id s (do_recall replies id false s)
          recall_denied = record {
            result = make_command_result id false (
                make_error (codes "permission_denied") (recall_refusal replies) false
                  (codes "controller") id);
            sent = refl;
            about = make_command_result-id id false _;
            ok = false;
            success = make_command_result-ok id false _;
            others_wait = λ other e.
                lookup-erase id other (insert id id s.pending_recalls)
                ∙ if_false (same id other) _ _ e
                ∙ lookup-insert id other id s.pending_recalls
                ∙ if_false (same id other) _ _ e;
          }
  branch-Outcome t type choose_mode p id (s, calls) c =
      inr (inr (inr (c.0, c.1, do_choose_mode-Answered t p id s.window.performance (s, calls))))
  branch-Outcome t type logging p id (s, calls) c =
      inr (inr (inr (c.0, c.1, result-Answered id true no_members s _ refl refl)))

  abbrev pub immediate : Bytes → Bool
  immediate type = not (has_key unanswered_types type) && not (same type recall_type)

  -- The same as a test, on a table for one request.
  abbrev pub agrees : Bytes → Branch → Bool
  agrees type (answered call) = immediate type
  agrees type (awaited call) = has_key unanswered_types type
  agrees type (handed_on call) = has_key unanswered_types type
  agrees type discover = immediate type
  agrees type report = immediate type
  agrees type frames = has_key unanswered_types type
  agrees type connect_host = immediate type
  agrees type recall = same type recall_type
  agrees type choose_mode = immediate type
  agrees type logging = immediate type

  immediately : (type : Bytes) → immediate type ≡ true → Immediate type
  immediately type h =
      let (answers, other) =
        and-true (not (has_key unanswered_types type)) (not (same type recall_type)) h in
      (unnegated (has_key unanswered_types type) answers, unnegated (same type recall_type) other)

  pub agrees-Consistent :
      (type : Bytes) (branch : Branch) → agrees type branch ≡ true → Consistent type branch
  agrees-Consistent type (answered call) h = immediately type h
  agrees-Consistent type (awaited call) h = h
  agrees-Consistent type (handed_on call) h = h
  agrees-Consistent type discover h = immediately type h
  agrees-Consistent type report h = immediately type h
  agrees-Consistent type frames h = h
  agrees-Consistent type connect_host h = immediately type h
  agrees-Consistent type recall h = same→eq type recall_type h
  agrees-Consistent type choose_mode h = immediately type h
  agrees-Consistent type logging h = immediately type h

  abbrev pub all_agree : List (BranchEntry replies) → Members → Bytes → Bool
  all_agree es p id = all (λ (entry : BranchEntry replies). agrees entry.0 (entry.1 p id)) es

  pub entries-agree : (p : Members) (id : Bytes) → all_agree (entries replies) p id ≡ true
  unfolding has_key same
  entries-agree p id = refl

  abbrev pub names : List (BranchEntry replies) → List Bytes
  names [] = []
  names ((name, branch) ∷ others) = name ∷ names others

  pub branch_of-cases :
      (es : List (BranchEntry replies)) (type : Bytes)
      → ((p : Members) (id : Bytes) → all_agree es p id ≡ true)
      → ((branch_of replies es type ≡ none) × (has_key (names es) type ≡ false))
        ⊎ ((branch : Members → Bytes → Branch) × (branch_of replies es type ≡ some branch)
            × ((p : Members) (id : Bytes) → Consistent type (branch p id)))
  unfolding branch_of has_key
  branch_of-cases [] type h = inl (refl, refl)
  branch_of-cases ((name, branch) ∷ others) type h =
      let rest =
        branch_of-cases others type
          (λ p id. (and-true (agrees name (branch p id)) (all_agree others p id) (h p id)).1) in
      elim (Bool-cases (same name type)) [
        | inl here ↦ inr (
          branch,
          rw here refl,
          λ p id.
              subst (λ u. Consistent u (branch p id)) (same→eq name type here)
                (agrees-Consistent name (branch p id)
                  (and-true (agrees name (branch p id)) (all_agree others p id) (h p id)).0),
        )
        | inr other ↦ elim rest [
          | inl (missing, unnamed) ↦ inl (rw (other, missing) refl, rw (other, unnamed) refl)
          | inr (found, at, ok) ↦ inr (found, rw (other, at) refl, ok)
        ]
      ]
