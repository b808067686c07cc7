-- ===== src/Message/RoundTrip/Numbers.antt =====
-- The flags and numbers of a message are read as they were written (client-cpp/src/message.cpp).
use cross_language_lan_chatr.Prelude.{
  ℕ, zero, suc, ◌≡◌, refl, sym, ap, ◌∙◌, Bool, true, false, not, ◌||◌, Option, none, some, List, [],
  ◌∷◌, arith, if◌then◌else◌, ltb_ℤ, ◌==◌, codes, same, ℤ, pos, negsuc,
}
use cross_language_lan_chatr.Json.{Json, boolean, integer, Members, get}
use cross_language_lan_chatr.Message.{Library, Header, Error, fine}
use cross_language_lan_chatr.Message.Serialize.{is_zero, chunk_type}
use cross_language_lan_chatr.Message.Receive.{read_numbers}
use cross_language_lan_chatr.Message.Fields.{
  set_flag, Flag, read_flags, flags, Number, read_integers, limits, metadata, is_missing,
  set_integer, set_epoch, set_crypto, set_bitmap, signed,
}
use cross_language_lan_chatr.Message.RoundTrip.Written.{
  built, got, with_texts, with_flags, with_limit, with_epoch, with_numbers, Fits, bind-step,
}

set_flag-option :
    (e : Error) (set : Header → Bool → Header) (m : Header) (b : Bool)
    → set m false ≡ m
    → set_flag e set m (if b then some (boolean true) else none) ≡ fine (set m b)
set_flag-option e set m true h = refl
set_flag-option e set m false h = ap fine (sym h)

set_integer-option :
    (e : Error) (wrap : ℤ → ℤ) (set : Header → ℤ → Header) (m : Header) (left_out : Bool) (i : ℤ)
    → set m (pos 0) ≡ m
    → wrap i ≡ i
    → (left_out ≡ true → i ≡ pos 0)
    → set_integer e wrap set m (if left_out then none else some (integer i)) ≡ fine (set m i)
set_integer-option e wrap set m true i h w z = ap fine (sym h ∙ ap (set m) (sym (z refl)))
set_integer-option e wrap set m false i h w z = ap (λ j. fine (set m j)) w

set_integer-kept :
    (e : Error) (wrap : ℤ → ℤ) (set : Header → ℤ → Header) (m : Header) (kept : Bool) (i : ℤ)
    → set m (pos 0) ≡ m
    → wrap i ≡ i
    → (kept ≡ false → i ≡ pos 0)
    → set_integer e wrap set m (if kept then some (integer i) else none) ≡ fine (set m i)
set_integer-kept e wrap set m true i h w z = ap (λ j. fine (set m j)) w
set_integer-kept e wrap set m false i h w z = ap fine (sym h ∙ ap (set m) (sym (z refl)))

set_epoch-option :
    (m : Header) (n : ℕ)
    → record m { epoch = 0 } ≡ m
    → set_epoch m (if n == 0 then none else some (integer (pos n))) ≡ fine (record m { epoch = n })
unfolding set_epoch
set_epoch-option m zero h = ap fine (sym h)
set_epoch-option m (suc n) h = let nonzero : (suc n == 0) ≡ false = ground arith in rw nonzero refl

is_zero→zero : (i : ℤ) → is_zero i ≡ true → i ≡ pos 0
is_zero→zero (pos n) h = ap pos (ground arith)
is_zero→zero (negsuc n) h = absurd (cc h)

abbrev Flags : List Flag → Members → Header → Header → Type 0
Flags [] ms m m' = m ≡ m'
Flags ((key, e, set) ∷ flags) ms m m' =
    (b : Bool) × (get key ms ≡ (if b then some (boolean true) else none))
    × (set m false ≡ m)
    × Flags flags ms (set m b) m'

read_flags-Flags :
    (flags : List Flag) (ms : Members) (m m' : Header)
    → Flags flags ms m m'
    → read_flags flags ms m ≡ fine m'
unfolding read_flags
read_flags-Flags [] ms m m' h = ap fine h
read_flags-Flags ((key, e, set) ∷ flags) ms m m' (b, at, neutral, rest) =
    rw (at, set_flag-option e set m b neutral) (read_flags-Flags flags ms (set m b) m' rest)

flags-Flags : (m : Header) → Flags flags (built m) (with_texts m) (with_flags m)
unfolding same
flags-Flags m = (
  m.is_admin,
  got (codes "is_admin") m,
  refl,
  (
    m.is_private,
    got (codes "private") m,
    refl,
    (
      m.has_more,
      got (codes "has_more") m,
      refl,
      (m.recalled, got (codes "recalled") m, refl, refl),
    ),
  ),
)

abbrev Numbers : List Number → Members → Header → Header → Type 0
Numbers [] ms m m' = m ≡ m'
Numbers ((key, e, w, set) ∷ numbers) ms m m' =
    (i : ℤ) × (set_integer e (signed w) set m (get key ms) ≡ fine (set m i))
    × Numbers numbers ms (set m i) m'

read_integers-Numbers :
    (numbers : List Number) (ms : Members) (m m' : Header)
    → Numbers numbers ms m m'
    → read_integers numbers ms m ≡ fine m'
unfolding read_integers
read_integers-Numbers [] ms m m' h = ap fine h
read_integers-Numbers ((key, e, w, set) ∷ numbers) ms m m' (i, at, rest) =
    rw at (read_integers-Numbers numbers ms (set m i) m' rest)

-- A number that is left out exactly if it is zero, and one that may be written as a zero too.
number_read :
    (e : Error) (w : ℕ) (set : Header → ℤ → Header) (m : Header) (o : Option Json) (i : ℤ)
    → o ≡ (if is_zero i then none else some (integer i))
    → set m (pos 0) ≡ m
    → signed w i ≡ i
    → set_integer e (signed w) set m o ≡ fine (set m i)
number_read e w set m o i at neutral fits =
    ap (set_integer e (signed w) set m) at
    ∙ set_integer-option e (signed w) set m (is_zero i) i neutral fits (is_zero→zero i)

kept_read :
    (e : Error) (w : ℕ) (set : Header → ℤ → Header) (m : Header) (o : Option Json) (kept : Bool)
    (i : ℤ)
    → o ≡ (if kept then some (integer i) else none)
    → set m (pos 0) ≡ m
    → signed w i ≡ i
    → (kept ≡ false → i ≡ pos 0)
    → set_integer e (signed w) set m o ≡ fine (set m i)
kept_read e w set m o kept i at neutral fits left =
    ap (set_integer e (signed w) set m) at
    ∙ set_integer-kept e (signed w) set m kept i neutral fits left

limits-Numbers : (m : Header) → Fits m → Numbers limits (built m) (with_flags m) (with_limit m)
unfolding same
limits-Numbers m f = (
  m.limit,
  kept_read _ 32 (λ m i. record m { limit = i }) (with_flags m) _ (ltb_ℤ (pos 0) m.limit) m.limit
      (got (codes "limit") m) refl f.limit f.limit_nonneg,
  refl,
)

metadata-Numbers :
    (m : Header) → Fits m → Numbers metadata (built m) (with_epoch m) (with_numbers m)
unfolding same
metadata-Numbers m f =
    let sized = record (with_epoch m) { logical_size = m.logical_size } in
    let chunked = record sized { chunk_size = m.chunk_size } in
    (
      m.logical_size,
      number_read _ 64 (λ m i. record m { logical_size = i }) (with_epoch m) _ m.logical_size
          (got (codes "logical_size") m) refl f.logical_size,
      (
        m.chunk_size,
        number_read _ 64 (λ m i. record m { chunk_size = i }) sized _ m.chunk_size
            (got (codes "chunk_size") m) refl f.chunk_size,
        (
          m.chunk_index,
          kept_read _ 64 (λ m i. record m { chunk_index = i }) chunked _
              (not (is_zero m.chunk_index) || same m.type chunk_type) m.chunk_index
              (got (codes "chunk_index") m) refl f.chunk_index
              (λ e. is_zero→zero m.chunk_index (left_out (is_zero m.chunk_index) _ e)),
          refl,
        ),
      ),
    )
  where
    left_out : (b c : Bool) → (not b || c) ≡ false → b ≡ true
    left_out true c e = refl
    left_out false c e = absurd (cc e)

epoch-read :
    (m : Header) → set_epoch (with_limit m) (get (codes "epoch") (built m)) ≡ fine (with_epoch m)
unfolding same
epoch-read m =
    ap (set_epoch (with_limit m)) (got (codes "epoch") m)
    ∙ set_epoch-option (with_limit m) m.epoch refl

crypto-read :
    (library : Library) (m : Header)
    → set_crypto library (with_numbers m) (get (codes "crypto") (built m)) ≡ fine (with_numbers m)
unfolding same set_crypto
crypto-read library m = ap (set_crypto library (with_numbers m)) (got (codes "crypto") m)

bitmap-read :
    (m : Header)
    → set_bitmap
        (is_missing (get (codes "received_indexes") (built m)))
        (with_numbers m)
        (get (codes "received_bitmap") (built m))
      ≡ fine (with_numbers m)
unfolding same set_bitmap
bitmap-read m =
    ap (set_bitmap (is_missing (get (codes "received_indexes") (built m))) (with_numbers m))
      (got (codes "received_bitmap") m)

pub numbers-read :
    (library : Library) (m : Header)
    → Fits m
    → read_numbers library (built m) (with_texts m) ≡ fine (with_numbers m)
unfolding read_numbers
numbers-read library m f =
    bind-step _ _ _ _
      (read_flags-Flags flags (built m) (with_texts m) (with_flags m) (flags-Flags m))
      (bind-step _ _ _ _
        (read_integers-Numbers limits (built m) (with_flags m) (with_limit m) (limits-Numbers m f))
        (bind-step _ _ _ _ (epoch-read m) (
          bind-step _ _ _ _
            (read_integers-Numbers metadata (built m) (with_epoch m) (with_numbers m)
              (metadata-Numbers m f))
            (bind-step _ _ _ _ (crypto-read library m) (bitmap-read m)))))
