-- ===== src/Message/Bitmap.antt =====
-- `received_bitmap` of a message (client-cpp/src/message.cpp): hexadecimal digits, two to a byte,
-- that hold a bit for each chunk, the lowest bit of a byte first.
use cross_language_lan_chatr.Prelude.{
  ℕ, zero, suc, ◌+◌, ◌-◌, ◌*◌, ◌/◌, ◌%◌, ◌≤◌, min, ◌≡◌, refl, ap, ◌∙◌, subst, Bool, true, false,
  not, ◌&&◌, ◌||◌, Option, none, some, List, [], ◌∷◌, ◌++◌, arith, if◌then◌else◌, ltb, leb, ◌==◌,
  length, Bytes, Bool-cases, inl, inr,
}
use cross_language_lan_chatr.Attachments.Chunks.{max_chunk_count}
use cross_language_lan_chatr.Attachments.TransferState.Received.{contains, contains_below, Within}
use cross_language_lan_chatr.Message.{
  bitmap_length, bitmap_digit, bitmap_range, Checked, fine, refused, ◌>>=◌,
}

unfoldable pub hex_digit : ℕ → Option ℕ
hex_digit c =
    if leb b'0' c && leb c b'9'
    then some (c - b'0')
    else if leb b'a' c && leb c b'f'
    then some (c - b'a' + 10)
    else if leb b'A' c && leb c b'F'
    then some (c - b'A' + 10)
    else none

-- One bit after another, the lowest first; `bits` is what is left of the byte.
unfoldable pub bit_loop : ℕ → ℕ → ℕ → Checked (List ℕ)
bit_loop zero index bits = fine []
bit_loop (suc n) index bits =
    let rest = bit_loop n (suc index) (bits / 2) in
    if bits % 2 == 0
    then rest
    else if leb max_chunk_count index
    then refused bitmap_range
    else rest >>= λ is. fine (index ∷ is)

abbrev pub checked_digit : ℕ → Checked ℕ
checked_digit c = elim (hex_digit c) [ none ↦ refused bitmap_digit | some d ↦ fine d ]

unfoldable pub bitmap_loop : ℕ → Bytes → Checked (List ℕ)
bitmap_loop index [] = fine []
bitmap_loop index (h ∷ []) = fine []
bitmap_loop index (h ∷ l ∷ rest) = do
  high ← checked_digit h
  low ← checked_digit l
  these ← bit_loop 8 index (high * 16 + low)
  others ← bitmap_loop (index + 8) rest
  fine (these ++ others)

abbrev pub max_bitmap_length : ℕ
max_bitmap_length = (max_chunk_count + 7) / 8 * 2

unfoldable pub read_bitmap : Bytes → Checked (List ℕ)
read_bitmap bitmap =
    if not (length bitmap % 2 == 0) || ltb max_bitmap_length (length bitmap)
    then refused bitmap_length
    else bitmap_loop 0 bitmap

-- The k-th bit of a number.
abbrev pub bit_at : ℕ → ℕ → Bool
bit_at zero bits = not (bits % 2 == 0)
bit_at (suc k) bits = bit_at k (bits / 2)

abbrev digit_value : ℕ → ℕ
digit_value c = elim (hex_digit c) [ none ↦ 0 | some d ↦ d ]

-- The i-th bit of the bytes that the digits write.
abbrev pub bitmap_bit : Bytes → ℕ → Bool
bitmap_bit [] i = false
bitmap_bit (h ∷ []) i = false
bitmap_bit (h ∷ l ∷ rest) i =
    let later = bitmap_bit rest (i - 8) in
    if ltb i 8 then bit_at i (digit_value h * 16 + digit_value l) else later

fine-injective {ℓ} : {A : Type ℓ} {a b : A} → ◌≡◌ {A = Checked A} (fine a) (fine b) → a ≡ b
fine-injective e = cc e

bind-fine {ℓ κ} :
    {A : Type ℓ} {B : Type κ} (m : Checked A) (f : A → Checked B) (b : B)
    → (m >>= f) ≡ fine b
    → (a : A) × (m ≡ fine a) × (f a ≡ fine b)
bind-fine (fine a) f b h = (a, refl, h)
bind-fine (refused e) f b h = absurd (cc h)

Within-lower : (lo hi hi' : ℕ) (is : List ℕ) → hi ≡ hi' → Within (suc lo) hi is → Within lo hi' is
Within-lower lo hi hi' [] e w = tt
Within-lower lo hi hi' (i ∷ is) e w = rw (← e) (omega arith, w.1, w.2)

-- The bits of a byte that a list of indexes from `index` on stands for.
HasBits : ℕ → ℕ → ℕ → List ℕ → Type 0
HasBits n index bits is =
    Within index (min (index + n) max_chunk_count) is
    × ((k : ℕ) → contains is (index + k) ≡ (ltb k n && bit_at k bits))

HasBits-clear :
    (n index bits : ℕ) (is : List ℕ)
    → (bits % 2 == 0) ≡ true
    → HasBits n (suc index) (bits / 2) is
    → HasBits (suc n) index bits is
unfolding HasBits contains
HasBits-clear n index bits is clear (w, bit) = (Within-lower index _ _ is (omega arith) w, at)
  where
    at : (k : ℕ) → contains is (index + k) ≡ (ltb k (suc n) && bit_at k bits)
    at zero = contains_below (index + 0) (suc index) _ is w (omega arith) ∙ ground arith
    at (suc k) =
        let moved : index + suc k ≡ suc index + k = omega arith in
        ap (contains is) moved ∙ bit k ∙ ap (λ b. b && bit_at k (bits / 2)) (shift k n)
      where
        shift : (k n : ℕ) → ltb k n ≡ ltb (suc k) (suc n)
        shift k n = ground arith

HasBits-set :
    (n index bits : ℕ) (is : List ℕ)
    → (bits % 2 == 0) ≡ false
    → leb max_chunk_count index ≡ false
    → HasBits n (suc index) (bits / 2) is
    → HasBits (suc n) index bits (index ∷ is)
unfolding HasBits contains
HasBits-set n index bits is set inside (w, bit) =
    let top : min (suc index + n) max_chunk_count ≡ min (index + suc n) max_chunk_count =
      omega arith in
    ((omega arith, ground arith, subst (λ hi. Within (suc index) hi is) top w), at)
  where
    at : (k : ℕ) → contains (index ∷ is) (index + k) ≡ (ltb k (suc n) && bit_at k bits)
    at zero = ground arith
    at (suc k) =
        let moved : index + suc k ≡ suc index + k = omega arith in
        let other : (index == index + suc k) ≡ false = ground arith in
        rw other (ap (contains is) moved ∙ bit k ∙ ap (λ b. b && bit_at k (bits / 2)) (shift k n))
      where
        shift : (k n : ℕ) → ltb k n ≡ ltb (suc k) (suc n)
        shift k n = ground arith

-- The indexes that a byte gives are those of its bits.
bit_loop-HasBits :
    (n index bits : ℕ) (is : List ℕ) → bit_loop n index bits ≡ fine is → HasBits n index bits is
unfolding bit_loop HasBits contains
bit_loop-HasBits zero index bits is h =
    subst (HasBits 0 index bits) (fine-injective h) (tt, λ k. ground arith)
bit_loop-HasBits (suc n) index bits is h = elim (Bool-cases (bits % 2 == 0)) [
  | inl clear ↦
      HasBits-clear n index bits is clear
        (bit_loop-HasBits n (suc index) (bits / 2) is (rw clear at h))
  | inr set ↦ elim (Bool-cases (leb max_chunk_count index)) [
    | inl beyond ↦ absurd (cc (rw (set, beyond) at h))
    | inr inside ↦
        let (rest, found, e) =
          bind-fine (bit_loop n (suc index) (bits / 2)) (λ is. fine (index ∷ is)) is
            (rw (set, inside) at h) in
        subst (HasBits (suc n) index bits) (fine-injective e) (
          HasBits-set n index bits rest set inside
            (bit_loop-HasBits n (suc index) (bits / 2) rest found))
  ]
]

contains-append :
    (xs ys : List ℕ) (n : ℕ) → contains (xs ++ ys) n ≡ (contains xs n || contains ys n)
unfolding contains
contains-append [] ys n = refl
contains-append (x ∷ xs) ys n = ground (arith, contains-append xs ys n)

Within-append :
    (lo mid hi : ℕ) (xs ys : List ℕ)
    → lo ≤ mid
    → Within lo (min mid hi) xs
    → Within mid hi ys
    → Within lo hi (xs ++ ys)
Within-append lo mid hi [] ys l v w = Within-from lo mid hi ys l w
  where
    Within-from : (lo mid hi : ℕ) (ys : List ℕ) → lo ≤ mid → Within mid hi ys → Within lo hi ys
    Within-from lo mid hi [] l w = tt
    Within-from lo mid hi (y ∷ ys) l w = (omega arith, w.1, w.2)
Within-append lo mid hi (x ∷ xs) ys l v w =
    (v.0, omega arith, Within-append (suc x) mid hi xs ys (omega arith) v.2 w)

-- The indexes are those of the bits of the whole bitmap.
pub record Decoded (index : ℕ) (bitmap : Bytes) (is : List ℕ) : Type 0 where
  pub ascending : Within index max_chunk_count is
  pub bits : (k : ℕ) → contains is (index + k) ≡ bitmap_bit bitmap k

checked_digit-fine : (c d : ℕ) → checked_digit c ≡ fine d → digit_value c ≡ d
checked_digit-fine c d h = go (hex_digit c) h
  where
    go :
        (o : Option ℕ)
        → (elim o [ none ↦ refused bitmap_digit | some d ↦ fine d ]) ≡ fine d
        → (elim o [ none ↦ 0 | some d ↦ d ]) ≡ d
    go none h = absurd (cc h)
    go (some d') h = fine-injective h

Decoded-byte :
    (index c l high low : ℕ) (rest : Bytes) (these others : List ℕ)
    → digit_value c ≡ high
    → digit_value l ≡ low
    → HasBits 8 index (high * 16 + low) these
    → Decoded (index + 8) rest others
    → Decoded index (c ∷ l ∷ rest) (these ++ others)
unfolding HasBits
Decoded-byte index c l high low rest these others is_high is_low (w, bit) later = record {
  ascending =
      Within-append index (index + 8) max_chunk_count these others (omega arith) w later.ascending;
  bits = λ k. contains-append these others (index + k) ∙ elim (Bool-cases (ltb k 8)) [
    | inl small ↦
        let below : contains others (index + k) ≡ false =
          contains_below (index + k) (index + 8) max_chunk_count others later.ascending
            (ground arith) in
        rw (small, below, is_high, is_low)
          (or_false (contains these (index + k)) ∙ bit k ∙ rw small refl)
    | inr large ↦
        let moved : index + k ≡ index + 8 + (k - 8) = ground arith in
        let above : contains these (index + k) ≡ false = bit k ∙ rw large refl in
        rw (large, above) (ap (contains others) moved ∙ later.bits (k - 8))
  ];
}
  where
    or_false : (b : Bool) → (b || false) ≡ b
    or_false true = refl
    or_false false = refl

bitmap_loop-Decoded :
    (index : ℕ) (bitmap : Bytes) (is : List ℕ)
    → length bitmap % 2 ≡ 0
    → bitmap_loop index bitmap ≡ fine is
    → Decoded index bitmap is
unfolding bitmap_loop HasBits contains
bitmap_loop-Decoded index [] is e h =
    subst (Decoded index []) (fine-injective h) record { ascending = tt; bits = λ k. refl }
bitmap_loop-Decoded index (c ∷ []) is e h = absurd (omega arith)
bitmap_loop-Decoded index (c ∷ l ∷ rest) is e h =
    let (high, is_high, h1) = bind-fine (checked_digit c) _ is h in
    let (low, is_low, h2) = bind-fine (checked_digit l) _ is h1 in
    let (these, is_these, h3) = bind-fine (bit_loop 8 index (high * 16 + low)) _ is h2 in
    let (others, is_others, h4) =
      bind-fine (bitmap_loop (index + 8) rest) (λ o. fine (these ++ o)) is h3 in
    let later = bitmap_loop-Decoded (index + 8) rest others (omega arith) is_others in
    subst (Decoded index (c ∷ l ∷ rest)) (fine-injective h4) (
      Decoded-byte index c l high low rest these others (checked_digit-fine c high is_high)
        (checked_digit-fine l low is_low)
        (bit_loop-HasBits 8 index (high * 16 + low) these is_these) later)

-- A bitmap that is read gives the indexes of its bits, in ascending order, each below the greatest
-- number of chunks.
pub read_bitmap-Decoded :
    (bitmap : Bytes) (is : List ℕ) → read_bitmap bitmap ≡ fine is → Decoded 0 bitmap is
unfolding read_bitmap
read_bitmap-Decoded bitmap is h =
    elim (Bool-cases (not (length bitmap % 2 == 0) || ltb max_bitmap_length (length bitmap))) [
      | inl bad ↦ absurd (cc (rw bad at h))
      | inr good ↦ bitmap_loop-Decoded 0 bitmap is (ground arith) (rw good at h)
    ]
