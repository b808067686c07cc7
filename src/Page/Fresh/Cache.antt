-- ===== src/Page/Fresh/Cache.antt =====
-- The cache of serialized models and the marks of those that have changed
-- (client-cpp/gui/src/chat_bridge.cpp).
use cross_language_lan_chatr.Prelude.{
  ◌≡◌, refl, sym, ap, ◌∙◌, ◌⊎◌, inl, inr, ℕ, Bool, true, false, not, ◌&&◌, ◌||◌, Option, none, some,
  List, [], ◌∷◌, if◌then◌else◌, ◌==◌, ==_iff, ==_refl, if_false, Bool-cases, arith,
}
use cross_language_lan_chatr.Prelude.Map.{
  lookup, insert, erase, nat_eq, lookup-insert, lookup-erase,
}
use cross_language_lan_chatr.Json.{Items}
use cross_language_lan_chatr.Bridge.Requests.Chosen.{or-true, or-right}
use cross_language_lan_chatr.Page.{Row, Models, serialize_model}
use cross_language_lan_chatr.Page.Steps.{State, contains, add, remove, serialize_dirty, set_rows}

pub contains-add : (k m : ℕ) (ms : List ℕ) → contains k (add m ms) ≡ (m == k || contains k ms)
unfolding contains add
contains-add k m ms = elim (Bool-cases (contains m ms)) [
  | inl e ↦ rw e (elim (Bool-cases (m == k)) [
    | inl here ↦ rw here (ap (λ j. contains j ms) (sym ((==_iff m k).0 here)) ∙ e)
    | inr other ↦ rw other refl
  ])
  | inr e ↦ rw e refl
]

pub contains-remove :
    (k m : ℕ) (ms : List ℕ) → contains k (remove m ms) ≡ (not (m == k) && contains k ms)
unfolding contains remove
contains-remove k m [] = ground arith
contains-remove k m (j ∷ ms) =
    ground (arith, contains-remove k m ms, ==_iff m k, ==_iff j m, ==_iff j k)

pub lookup-serialize_dirty :
    (rows : ℕ → List Row) (k : ℕ) (ms : List ℕ) (cache : List (ℕ × Items))
    → lookup k (serialize_dirty rows ms cache)
      ≡ (if contains k ms then some (serialize_model (rows k)) else lookup k cache)
unfolding serialize_dirty contains
lookup-serialize_dirty rows k [] cache = refl
lookup-serialize_dirty rows k (m ∷ ms) cache =
    lookup-serialize_dirty rows k ms (insert m (serialize_model (rows m)) cache)
    ∙ ap (λ o. if contains k ms then some (serialize_model (rows k)) else o)
        (lookup-insert m k (serialize_model (rows m)) cache)
    ∙ merge (m == k) (contains k ms) (serialize_model (rows m)) (serialize_model (rows k))
        (lookup k cache) (λ e. ap (λ j. serialize_model (rows j)) ((==_iff m k).0 e))
  where
    merge :
        (b c : Bool) (v w : Items) (o : Option Items)
        → (b ≡ true → v ≡ w)
        → (if c then some w else if b then some v else o) ≡ (if b || c then some w else o)
    merge true true v w o e = refl
    merge true false v w o e = ap some (e refl)
    merge false true v w o e = refl
    merge false false v w o e = refl

-- The models, their rows, the cache, the marks and the models that are connected.
abbrev pub Core : Type 0
Core = Models × (ℕ → List Row) × List (ℕ × Items) × List ℕ × List ℕ

abbrev pub core : State → Core
core s = (s.models, s.rows, s.serialized_models, s.dirty_models, s.connected_models)

-- A connected model is marked, or the cache has its rows.
abbrev pub Cached : (ℕ → List Row) → List (ℕ × Items) → List ℕ → List ℕ → Type 0
Cached rows cache dirty connected =
    (m : ℕ)
    → contains m connected ≡ true
    → (contains m dirty ≡ true) ⊎ (lookup m cache ≡ some (serialize_model (rows m)))

-- The models that are shown are connected.
pub record Linked (models : Models) (connected : List ℕ) : Type 0 where
  pub room : contains models.room_model connected ≡ true
  pub direct : contains models.direct_message_model connected ≡ true
  pub active : contains models.active_message_model connected ≡ true
  pub member : contains models.member_model connected ≡ true

abbrev pub Kept : Core → Type 0
Kept (models, rows, cache, dirty, connected) =
    Linked models connected × Cached rows cache dirty connected

pub Cached-serialize_dirty :
    (rows : ℕ → List Row) (cache : List (ℕ × Items)) (dirty connected : List ℕ)
    → Cached rows cache dirty connected
    → (m : ℕ) → contains m connected ≡ true
    → lookup m (serialize_dirty rows dirty cache) ≡ some (serialize_model (rows m))
Cached-serialize_dirty rows cache dirty connected h m linked =
    lookup-serialize_dirty rows m dirty cache ∙ elim (Bool-cases (contains m dirty)) [
      | inl marked ↦ rw marked refl
      | inr clean ↦
          rw clean (elim (h m linked) [ inl marked ↦ absurd (cc (marked, clean)) | inr at ↦ at ])
    ]

-- After a loop over the marks nothing is left marked.
pub Cached-rebuilt :
    (rows : ℕ → List Row) (cache : List (ℕ × Items)) (dirty connected : List ℕ)
    → Cached rows cache dirty connected
    → Cached rows (serialize_dirty rows dirty cache) [] connected
Cached-rebuilt rows cache dirty connected h m linked =
    inr (Cached-serialize_dirty rows cache dirty connected h m linked)

or_left : (b c : Bool) → b ≡ true → b || c ≡ true
or_left true c e = refl
or_left false c e = absurd (cc e)

pub add-contains : (k m : ℕ) (ms : List ℕ) → contains k ms ≡ true → contains k (add m ms) ≡ true
add-contains k m ms e = contains-add k m ms ∙ or-right (m == k) (contains k ms) e

pub add-same : (m : ℕ) (ms : List ℕ) → contains m (add m ms) ≡ true
add-same m ms = contains-add m m ms ∙ or_left (m == m) (contains m ms) (==_refl m)

-- A model that is connected is marked.
pub Cached-connect :
    (rows : ℕ → List Row) (cache : List (ℕ × Items)) (dirty connected : List ℕ) (m : ℕ)
    → Cached rows cache dirty connected
    → Cached rows cache (add m dirty) (add m connected)
Cached-connect rows cache dirty connected m h k linked =
    elim (or-true (m == k) (contains k connected) (sym (contains-add k m connected) ∙ linked)) [
      | inl here ↦ inl (contains-add k m dirty ∙ or_left (m == k) (contains k dirty) here)
      | inr before ↦ elim (h k before) [
        | inl marked ↦ inl (add-contains k m dirty marked)
        | inr at ↦ inr at
      ]
    ]

-- A connected model whose rows change is marked.
pub Cached-changed :
    (rows : ℕ → List Row) (cache : List (ℕ × Items)) (dirty connected : List ℕ) (m : ℕ)
    (changed : List Row)
    → Cached rows cache dirty connected
    → Cached (set_rows m changed rows) cache (add m dirty) connected
Cached-changed rows cache dirty connected m changed h k linked = elim (Bool-cases (m == k)) [
  | inl here ↦ inl (contains-add k m dirty ∙ or_left (m == k) (contains k dirty) here)
  | inr other ↦ elim (h k linked) [
    | inl marked ↦ inl (add-contains k m dirty marked)
    | inr at ↦
        inr
          (at ∙ ap (λ r. some (serialize_model r)) (sym (if_false (m == k) changed (rows k) other)))
  ]
]

-- The rows of a model that is not connected do not matter.
pub Cached-apart :
    (rows : ℕ → List Row) (cache : List (ℕ × Items)) (dirty connected : List ℕ) (m : ℕ)
    (changed : List Row)
    → contains m connected ≡ false
    → Cached rows cache dirty connected
    → Cached (set_rows m changed rows) cache dirty connected
Cached-apart rows cache dirty connected m changed apart h k linked = elim (Bool-cases (m == k)) [
  | inl here ↦ absurd (cc (apart, linked, ap (λ j. contains j connected) ((==_iff m k).0 here)))
  | inr other ↦ elim (h k linked) [
    | inl marked ↦ inl marked
    | inr at ↦
        inr
          (at ∙ ap (λ r. some (serialize_model r)) (sym (if_false (m == k) changed (rows k) other)))
  ]
]

-- A model that is gone leaves the others as they were.
pub Cached-removed :
    (rows : ℕ → List Row) (cache : List (ℕ × Items)) (dirty connected : List ℕ) (m : ℕ)
    → Cached rows cache dirty connected
    → Cached rows (erase m cache) (remove m dirty) (remove m connected)
Cached-removed rows cache dirty connected m h k linked =
    let stays = sym (contains-remove k m connected) ∙ linked in
    elim (Bool-cases (m == k)) [
      | inl here ↦ absurd (cc (here, stays))
      | inr other ↦ elim (h k (rw other at stays)) [
        | inl marked ↦ inl (contains-remove k m dirty ∙ rw (other, marked) refl)
        | inr at ↦ inr (lookup-erase m k cache ∙ if_false (m == k) none _ other ∙ at)
      ]
    ]
