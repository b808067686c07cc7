-- ===== src/Page/Answers/Results.antt =====
-- What an answer to a request of the page is (client-cpp/gui/src/chat_bridge.cpp).
use cross_language_lan_chatr.Prelude.{
  ◌≡◌, refl, ap, ◌⊎◌, inl, inr, Bool, true, false, not, ◌&&◌, some, List, [], ◌∷◌, Bytes, codes,
  same, Bool-cases,
}
use cross_language_lan_chatr.Prelude.Map.{lookup, bytes_eq}
use cross_language_lan_chatr.Json.{text, boolean, Members, get, set_key, less}
use cross_language_lan_chatr.Bridge.{make_command_result, has_no_members, has_key}
use cross_language_lan_chatr.Page.{command_result}
use cross_language_lan_chatr.Page.Steps.{State}

-- One result more has been sent, about this command.
pub record Answered (id : Bytes) (s t : State) : Type 0 where
  pub result : Members
  pub sent : t.outputs ≡ command_result result ∷ s.outputs
  pub about : get (codes "id") result ≡ some (text id)
  pub ok : Bool
  pub success : get (codes "ok") result ≡ some (boolean ok)
  pub others_wait :
      (other : Bytes)
      → same id other ≡ false
      → lookup other t.pending_recalls ≡ lookup other s.pending_recalls

-- Nothing has been sent, and the answer will be one to this command.
pub record Waiting (id : Bytes) (s t : State) : Type 0 where
  pub quiet : t.outputs ≡ s.outputs
  pub waits : lookup id t.pending_recalls ≡ some id

-- The types whose answers come with a signal, and the one that has none.
abbrev pub unanswered_types : List Bytes
unanswered_types =
    codes "mls.keyPackage.fetch"
    ∷ codes "mls.group.add"
    ∷ codes "mls.group.remove"
    ∷ codes "attachment.init"
    ∷ codes "attachment.chooseUpload"
    ∷ codes "attachment.chunk"
    ∷ codes "attachment.resume"
    ∷ codes "attachment.commit"
    ∷ codes "attachment.download"
    ∷ codes "performance.reportFrameTimes"
    ∷ []

abbrev pub recall_type : Bytes
recall_type = codes "message.recall"

-- What becomes of a command of this type, where `allowed` is what `recallMessage` returns: it has one
-- of the types above and nothing is sent; or it is a recall that is allowed and waits; or it is a
-- recall that is not allowed and fails; or it has another type and is answered.
abbrev pub Outcome : Bool → Bytes → Bytes → State → State → Type 0
Outcome allowed type id s t =
    ((has_key unanswered_types type ≡ true)
      × (t.outputs ≡ s.outputs)
      × (t.pending_recalls ≡ s.pending_recalls))
    ⊎ (((type ≡ recall_type) × (allowed ≡ true) × Waiting id s t)
        ⊎ (((type ≡ recall_type) × (allowed ≡ false) × (r : Answered id s t) × (r.ok ≡ false))
            ⊎ ((has_key unanswered_types type ≡ false)
                × (same type recall_type ≡ false)
                × Answered id s t)))

pub make_command_result-id :
    (id : Bytes) (ok : Bool) (error : Members)
    → get (codes "id") (make_command_result id ok error) ≡ some (text id)
unfolding make_command_result get set_key same less
make_command_result-id id ok error = elim (Bool-cases (not ok && not (has_no_members error))) [
  | inl e ↦ rw e refl
  | inr e ↦ rw e refl
]

pub make_command_result-ok :
    (id : Bytes) (ok : Bool) (error : Members)
    → get (codes "ok") (make_command_result id ok error) ≡ some (boolean ok)
unfolding make_command_result get set_key same less
make_command_result-ok id ok error = elim (Bool-cases (not ok && not (has_no_members error))) [
  | inl e ↦ rw e refl
  | inr e ↦ rw e refl
]

pub result-Answered :
    (id : Bytes) (ok : Bool) (error : Members) (s t : State)
    → t.outputs ≡ command_result (make_command_result id ok error) ∷ s.outputs
    → t.pending_recalls ≡ s.pending_recalls
    → Answered id s t
result-Answered id ok error s t sent same_waits = record {
  result = make_command_result id ok error;
  sent = sent;
  about = make_command_result-id id ok error;
  ok = ok;
  success = make_command_result-ok id ok error;
  others_wait = λ other e. ap (lookup other) same_waits;
}

pub failure-Answered :
    (id : Bytes) (error : Members) (s t : State)
    → t.outputs ≡ command_result (make_command_result id false error) ∷ s.outputs
    → t.pending_recalls ≡ s.pending_recalls
    → (r : Answered id s t) × (r.ok ≡ false)
unfolding result-Answered
failure-Answered id error s t sent same_waits =
    (result-Answered id false error s t sent same_waits, refl)
