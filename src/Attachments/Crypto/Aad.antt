-- ===== src/Attachments/Crypto/Aad.antt =====
-- The associated data of a chunk determines the chunk (`aad_for` and `derive_nonce` of
-- client-cpp/gui/src/attachments/attachment_crypto.cpp).
use cross_language_lan_chatr.Prelude.{
  ◌≡◌, refl, ap, true, [], ◌∷◌, ◌++◌, arith, drop, Bytes, ℤ, pos, negsuc, leb_ℤ,
}
use cross_language_lan_chatr.Attachments.Crypto.Decimal.{
  to_string, to_string-pos_injective, no_newline, to_string-no_newline,
}
use cross_language_lan_chatr.Attachments.Crypto.{ChunkContext, aad_for, valid_context}

-- The ids of a context stand on one line each.
pub record OneLineIds (c : ChunkContext) : Type 0 where
  pub attachment_id : no_newline c.attachment_id ≡ true
  pub room : no_newline c.room ≡ true
  pub group_id : no_newline c.group_id ≡ true

-- Two texts that split at their first newline alike.
line_injective :
    (x y r s : Bytes)
    → no_newline x ≡ true
    → no_newline y ≡ true
    → x ++ b'\n' ∷ r ≡ y ++ b'\n' ∷ s
    → (x ≡ y) × (r ≡ s)
line_injective [] [] r s p q e = (refl, ground arith)
line_injective [] (y ∷ ys) r s p q e = absurd (ground arith)
line_injective (x ∷ xs) [] r s p q e = absurd (ground arith)
line_injective (x ∷ xs) (y ∷ ys) r s p q e =
    let (a, b) = line_injective xs ys r s (ground arith) (ground arith) (ground arith) in
    (ground arith, b)

number_injective :
    (i j : ℤ) → leb_ℤ (pos 0) i ≡ true → leb_ℤ (pos 0) j ≡ true → to_string i ≡ to_string j → i ≡ j
number_injective (pos m) (pos n) p q e = ap pos (to_string-pos_injective m n e)
number_injective (negsuc m) j p q e = absurd (ground arith)
number_injective (pos m) (negsuc n) p q e = absurd (ground arith)

nonneg_of_valid :
    (c : ChunkContext)
    → valid_context c ≡ true
    → (leb_ℤ (pos 0) c.logical_size ≡ true)
      × (leb_ℤ (pos 0) c.chunk_size ≡ true)
      × (leb_ℤ (pos 0) c.chunk_index ≡ true)
unfolding valid_context
nonneg_of_valid c v = ground arith

-- Two valid chunk contexts whose ids hold no newline have the same associated data only if they
-- are the same chunk of the same attachment: every field of them agrees.
pub aad_for_injective :
    (c d : ChunkContext)
    → valid_context c ≡ true
    → valid_context d ≡ true
    → OneLineIds c
    → OneLineIds d
    → aad_for c ≡ aad_for d
    → c ≡ d
unfolding aad_for
aad_for_injective c d v w p q e =
    let (id, e1) =
      line_injective c.attachment_id d.attachment_id _ _ p.attachment_id q.attachment_id
        (ap (drop 42) e) in
    let (room, e2) = line_injective c.room d.room _ _ p.room q.room (ap (drop 5) e1) in
    let (group, e3) =
      line_injective c.group_id d.group_id _ _ p.group_id q.group_id (ap (drop 9) e2) in
    let (size, e4) =
      line_injective (to_string c.logical_size) (to_string d.logical_size) _ _
        (to_string-no_newline c.logical_size) (to_string-no_newline d.logical_size)
        (ap (drop 13) e3) in
    let (chunk, e5) =
      line_injective (to_string c.chunk_size) (to_string d.chunk_size) _ _
        (to_string-no_newline c.chunk_size) (to_string-no_newline d.chunk_size) (ap (drop 11) e4) in
    let (index, e6) =
      line_injective (to_string c.chunk_index) (to_string d.chunk_index) _ _
        (to_string-no_newline c.chunk_index) (to_string-no_newline d.chunk_index)
        (ap (drop 12) e5) in
    let (c_size, c_chunk, c_index) = nonneg_of_valid c v in
    let (d_size, d_chunk, d_index) = nonneg_of_valid d w in
    let sizes = number_injective c.logical_size d.logical_size c_size d_size size in
    let chunks = number_injective c.chunk_size d.chunk_size c_chunk d_chunk chunk in
    let indexes = number_injective c.chunk_index d.chunk_index c_index d_index index in
    λ i. record {
      attachment_id = id i;
      room = room i;
      group_id = group i;
      logical_size = sizes i;
      chunk_size = chunks i;
      chunk_index = indexes i;
    }
