-- ===== src/Controller/Bounded.antt =====
-- The cache of conversations does not outgrow its limit (client-cpp/gui/src/gui_chat_controller.cpp).
pub mod Counts
pub mod Oldest
use cross_language_lan_chatr.Prelude.{
  ℕ, zero, suc, ◌+◌, ◌-◌, ◌%◌, ◌^◌, ◌≤◌, ◌<◌, ◌≡◌, refl, sym, ap, ◌∙◌, subst, Bool, true, false,
  not, ◌&&◌, ◌||◌, ◌⊎◌, Option, none, some, List, [], ◌∷◌, arith, if◌then◌else◌, if_true, if_false,
  ltb, ltb→lt, lt→ltb, length, All, inl, inr, Bool-cases, Option-cases, is_empty, Bytes, same,
  same→eq, same_refl,
}
use cross_language_lan_chatr.Prelude.Map.{
  lookup, insert, erase, bytes_eq, lookup-insert, lookup-erase,
}
use cross_language_lan_chatr.Controller.{
  Values, State, place, older, oldest, victim, forget, trim_loop, trim_conversation_model_cache,
  used, created, found_or_created, ensure_conversation_model, max_order,
  max_cached_conversation_models, order_of,
}
use cross_language_lan_chatr.Controller.Bounded.Counts.{
  count, Named, spare, length-erase, count-erase, length-insert, count-insert, count-missing,
  Named-erase, Named-insert, spare-count,
}
use cross_language_lan_chatr.Controller.Bounded.Oldest.{oldest-Named, oldest-count}

module _ (values : Values) where
  -- The cache after so many uses.
  pub record Bounded (uses : ℕ) (s : State values) : Type 0 where
    pub size : length s.models ≤ max_cached_conversation_models
    pub unique : (key : Bytes) → count key s.models ≤ 1
    pub named : All Named s.models
    pub orders : (key : Bytes) → order_of s.order key ≤ s.sequence
    pub uses_left : s.sequence ≤ uses

  trim_loop_small :
      (fuel : ℕ) (kept : Bytes) (s : State values)
      → length s.models ≤ max_cached_conversation_models
      → trim_loop values fuel kept s ≡ s
  unfolding trim_loop
  trim_loop_small zero kept s h = refl
  trim_loop_small (suc fuel) kept s h =
      let small : ltb max_cached_conversation_models (length s.models) ≡ false = ground arith in
      rw small refl

  All-Early :
      (order models : List (Bytes × ℕ))
      → All Named models
      → ((key : Bytes) → order_of order key < max_order)
      → All (λ entry. Named entry × (order_of order entry.0 < max_order)) models
  All-Early order [] h early = tt
  All-Early order ((key, i) ∷ models) (first, rest) early =
      ((first, early key), All-Early order models rest early)

  order_of-erase :
      (gone key : Bytes) (order : List (Bytes × ℕ)) (n : ℕ)
      → order_of order key ≤ n
      → order_of (erase gone order) key ≤ n
  order_of-erase gone key order n h = elim (Bool-cases (same gone key)) [
    | inl here ↦
        let at =
          lookup-erase gone key order ∙ if_true (same gone key) none (lookup key order) here in
        subst (λ o. place o ≤ n) (sym at) (omega arith)
    | inr other ↦
        let at =
          lookup-erase gone key order ∙ if_false (same gone key) none (lookup key order) other in
        subst (λ o. place o ≤ n) (sym at) h
  ]

  -- In a cache that is too large there is a conversation to make room.
  victim-count :
      (kept : Bytes) (s : State values)
      → max_cached_conversation_models < length s.models
      → ((key : Bytes) → count key s.models ≤ 1)
      → All Named s.models
      → ((key : Bytes) → order_of s.order key < max_order)
      → (is_empty (victim values kept s) ≡ false) × (0 < count (victim values kept s) s.models)
  victim-count kept s large unique named early =
      let one = unique s.active in
      let other = unique kept in
      let found =
        oldest-Named values s.active kept s.order s.models ([], max_order)
          (All-Early s.order s.models named early)
          (inr (refl, spare-count s.active kept s.models (omega arith))) in
      (
        found,
        elim (oldest-count values s.active kept s.order s.models ([], max_order)) [
          | inl none_chosen ↦ absurd (cc (found, ap is_empty none_chosen))
          | inr chosen ↦ chosen
        ],
      )

  trim_loop_once :
      (fuel : ℕ) (kept : Bytes) (s : State values)
      → max_cached_conversation_models < length s.models
      → is_empty (victim values kept s) ≡ false
      → trim_loop values (suc fuel) kept s
        ≡ trim_loop values fuel kept (forget values (victim values kept s) s)
  unfolding trim_loop
  trim_loop_once fuel kept s large found =
      let over = lt→ltb max_cached_conversation_models (length s.models) large in
      rw (over, found) refl

  -- One conversation too many makes room for itself.
  trim-Bounded :
      (uses : ℕ) (kept : Bytes) (s : State values)
      → length s.models ≤ suc max_cached_conversation_models
      → ((key : Bytes) → count key s.models ≤ 1)
      → All Named s.models
      → ((key : Bytes) → order_of s.order key ≤ s.sequence)
      → s.sequence ≤ uses
      → uses < max_order
      → Bounded uses (trim_conversation_model_cache values kept s)
  trim-Bounded uses kept s size unique named orders left bound =
      elim (Bool-cases (ltb max_cached_conversation_models (length s.models))) [
        | inr small ↦
            let fits : length s.models ≤ max_cached_conversation_models = ground arith in
            subst (Bounded uses) (sym (trim_loop_small (length s.models) kept s fits)) record {
              size = fits;
              unique = unique;
              named = named;
              orders = orders;
              uses_left = left;
            }
        | inl over ↦
            let large = ltb→lt max_cached_conversation_models (length s.models) over in
            let exactly : length s.models ≡ suc max_cached_conversation_models = omega arith in
            let (found, there) =
              victim-count kept s large unique named
                (λ key. let below = orders key in omega (arith, below, left, bound)) in
            let gone = victim values kept s in
            let less = length-erase gone s.models in
            let fits : length (erase gone s.models) ≤ max_cached_conversation_models =
              omega arith in
            let once =
              ap (λ fuel. trim_loop values fuel kept s) exactly
              ∙ trim_loop_once max_cached_conversation_models kept s large found
              ∙ trim_loop_small max_cached_conversation_models kept (forget values gone s) fits in
            subst (Bounded uses) (sym once) record {
              size = fits;
              unique = λ key.
                  let fewer = count-erase key gone s.models in let one = unique key in omega arith;
              named = Named-erase gone s.models named;
              orders = λ key. order_of-erase gone key s.order s.sequence (orders key);
              uses_left = left;
            }
      ]

  order_of-insert :
      (key j : Bytes) (order : List (Bytes × ℕ)) (now n : ℕ)
      → order_of order j ≤ n
      → n ≤ now
      → order_of (insert key now order) j ≤ now
  order_of-insert key j order now n h later = elim (Bool-cases (same key j)) [
    | inl here ↦
        let at =
          lookup-insert key j now order ∙ if_true (same key j) (some now) (lookup j order) here in
        subst (λ o. place o ≤ now) (sym at) (omega arith)
    | inr other ↦
        let at =
          lookup-insert key j now order ∙ if_false (same key j) (some now) (lookup j order) other in
        subst (λ o. place o ≤ now) (sym at) (omega arith)
  ]

  -- The sequence does not wrap around before it has been raised 2^64 - 1 times.
  counted : (n uses : ℕ) → n ≤ uses → suc uses < max_order → (n + 1) % 2 ^ 64 ≡ suc n
  counted n uses h bound = omega arith

  -- Asking for the model of a conversation leaves at most eight in the cache, each once and under a name,
  -- in a cache that is so and that has been asked fewer than 2^64 - 2 times.
  pub ensure-Bounded :
      (key : Bytes) (uses : ℕ) (s : State values)
      → is_empty key ≡ false
      → Bounded uses s
      → suc uses < max_order
      → Bounded (suc uses) (ensure_conversation_model values key s).1
  unfolding ensure_conversation_model
  ensure-Bounded key uses s e b bound =
      let now = counted s.sequence uses b.uses_left bound in
      let next = (s.sequence + 1) % 2 ^ 64 in
      let left = b.uses_left in
      let later : s.sequence ≤ next = omega arith in
      let counted_left : next ≤ suc uses = omega arith in
      elim (Option-cases (lookup key s.models)) [
        | inr (i, there) ↦ rw there record {
          size = b.size;
          unique = b.unique;
          named = b.named;
          orders = λ j. order_of-insert key j s.order next s.sequence (b.orders j) later;
          uses_left = counted_left;
        }
        | inl missing ↦
            let longer = length-insert key s.next s.models missing in
            let fits = b.size in
            rw missing (
              trim-Bounded (suc uses) key (used values key (created values key s)) (omega arith)
                (λ j.
                  once j (count-insert j key s.next s.models missing)
                    (count-missing key s.models missing) (b.unique j) (same key j) refl)
                (Named-insert key s.next s.models e b.named)
                (λ j. order_of-insert key j s.order next s.sequence (b.orders j) later) counted_left
                bound)
      ]
    where
      once :
          (j : Bytes)
          → count j (insert key s.next s.models) ≡ count j s.models + (if same key j then 1 else 0)
          → count key s.models ≡ 0
          → count j s.models ≤ 1
          → (c : Bool) → same key j ≡ c
          → count j (insert key s.next s.models) ≤ 1
      once j added none_yet one true h =
          let at = same→eq key j h in
          let zero_yet : count j s.models ≡ 0 = ap (λ k. count k s.models) (sym at) ∙ none_yet in
          let added_one = added ∙ ap (λ n. count j s.models + n) (if_true (same key j) 1 0 h) in
          omega arith
      once j added none_yet one false h =
          let added_none = added ∙ ap (λ n. count j s.models + n) (if_false (same key j) 1 0 h) in
          omega arith
