-- ===== src/Json/Build.antt =====
-- What a field holds in an object that was built by assignments.
use cross_language_lan_chatr.Prelude.{
  ◌≡◌, refl, ap, ◌∙◌, Bool, true, false, Option, none, some, List, [], ◌∷◌, arith, if◌then◌else◌,
  Bytes, same, same_refl, same→eq, Bool-cases, inl, inr,
}
use cross_language_lan_chatr.Json.{
  Json, Members, no_members, member, get, less, set_key, Entry, set_entry, set_all,
}

pub get-set_key :
    (j key : Bytes) (v : Json) (ms : Members)
    → get j (set_key key v ms) ≡ (if same key j then some v else get j ms)
unfolding get set_key
get-set_key j key v no_members = ground arith
get-set_key j key v (member k w ms) =
    let rest = get-set_key j key v ms in
    elim (Bool-cases (same k key)) [
      | inl here ↦
          let at : k ≡ key = same→eq k key here in
          rw (at, same_refl key) (over (same key j) v w (get j ms))
      | inr other ↦ elim (Bool-cases (less key k)) [
        | inl before ↦ rw (other, before) refl
        | inr after ↦
            rw (other, after, rest)
              (apart (same key j) (same k j) v w (get j ms)
                (λ e f. absurd (cc (other, join k key j e f))))
      ]
    ]
  where
    over :
        (b : Bool) (v w : Json) (o : Option Json)
        → (if b then some v else o) ≡ (if b then some v else if b then some w else o)
    over true v w o = refl
    over false v w o = refl

    join : (k key j : Bytes) → same key j ≡ true → same k j ≡ true → same k key ≡ true
    join k key j e f = rw (same→eq k j f, same→eq key j e) (same_refl j)

    apart :
        (b c : Bool) (v w : Json) (o : Option Json)
        → (b ≡ true → c ≡ true → ⊥)
        → (if c then some w else if b then some v else o)
          ≡ (if b then some v else if c then some w else o)
    apart true true v w o h = absurd (h refl refl)
    apart true false v w o h = refl
    apart false true v w o h = refl
    apart false false v w o h = refl

abbrev pub later : Option Json → Option Json → Option Json
later (some v) o = some v
later none o = o

-- The last value that the entries give to a key.
abbrev pub pick : Bytes → List Entry → Option Json
pick j [] = none
pick j ((key, v) ∷ entries) = let rest = pick j entries in if same key j then later rest v else rest

pub get-set_all :
    (j : Bytes) (entries : List Entry) (ms : Members)
    → get j (set_all entries ms) ≡ later (pick j entries) (get j ms)
unfolding set_all
get-set_all j [] ms = refl
get-set_all j ((key, v) ∷ entries) ms =
    get-set_all j entries (set_entry (key, v) ms)
    ∙ ap (later (pick j entries)) (first v)
    ∙ nested (same key j) (pick j entries) v (get j ms)
  where
    first :
        (v : Option Json)
        → get j (set_entry (key, v) ms) ≡ later (if same key j then v else none) (get j ms)
    first none = elim (Bool-cases (same key j)) [ inl e ↦ rw e refl | inr e ↦ rw e refl ]
    first (some u) = get-set_key j key u ms ∙ choice (same key j) u
      where
        choice :
            (b : Bool) (u : Json)
            → (if b then some u else get j ms) ≡ later (if b then some u else none) (get j ms)
        choice true u = refl
        choice false u = refl

    nested :
        (b : Bool) (p v o : Option Json)
        → later p (later (if b then v else none) o) ≡ later (if b then later p v else p) o
    nested true (some a) v o = refl
    nested true none v o = refl
    nested false (some a) v o = refl
    nested false none v o = refl

-- In an object that is built from nothing.
pub get-set_all_new :
    (j : Bytes) (entries : List Entry) → get j (set_all entries no_members) ≡ pick j entries
unfolding get
get-set_all_new j entries = get-set_all j entries no_members ∙ only (pick j entries)
  where
    only : (o : Option Json) → later o none ≡ o
    only none = refl
    only (some v) = refl
