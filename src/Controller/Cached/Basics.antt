-- ===== src/Controller/Cached/Basics.antt =====
-- The changes that leave the model that is shown in the cache (client-cpp/gui/src/gui_chat_controller.cpp).
use cross_language_lan_chatr.Prelude.{
  ℕ, Bool, true, false, not, ◌||◌, List, [], ◌∷◌, if◌then◌else◌, Bytes,
}
use cross_language_lan_chatr.Prelude.Map.{bytes_eq}
use cross_language_lan_chatr.ChatModel.{Model, Row}
use cross_language_lan_chatr.Controller.{Values, State, change_model, append_to}
use cross_language_lan_chatr.Controller.Conversations.{request_active_history, change_all}
use cross_language_lan_chatr.ChatModel.{Row}
use cross_language_lan_chatr.Controller.Trimmed.{Shown, ensure-Ensured}

module _ (values : Values) (text_of_number : ℕ → Bytes) where
  pub append_to-Shown :
      (key : Bytes) (row : Row values.variant) (s : State values)
      → Shown values s
      → Shown values (append_to values key row s)
  append_to-Shown key row s h = (ensure-Ensured values key s).shown h

  pub change_all-Shown :
      (f : Model values.variant → Model values.variant) (models : List (Bytes × ℕ))
      (s : State values)
      → Shown values s
      → Shown values (change_all values text_of_number f models s)
  change_all-Shown f [] s h = h
  change_all-Shown f ((key, i) ∷ models) s h =
      change_all-Shown f models (change_model values i f s) h

  pub choice-Shown :
      (b : Bool) (s t : State values)
      → Shown values s
      → Shown values t
      → Shown values (if b then s else t)
  choice-Shown true s t h k = h
  choice-Shown false s t h k = k

  pub request-Shown :
      (query : Bytes) (s : State values)
      → Shown values s
      → Shown values (request_active_history values text_of_number query s)
  request-Shown query s h = choice-Shown (not s.connected || s.history_loading) s _ h h
