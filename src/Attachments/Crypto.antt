-- ===== src/Attachments/Crypto.antt =====
-- The encryption of one chunk: client-cpp/gui/src/attachments/attachment_crypto.hpp and .cpp.
-- SHA-256 and AES-256-GCM are OpenSSL's: the parameter `Evp`. A call that OpenSSL refuses is `none`.
pub mod Aad
pub mod Decimal
use cross_language_lan_chatr.Prelude.{
  ℕ, zero, suc, ◌+◌, ◌-◌, ◌^◌, ◌≡◌, Bool, true, false, not, ◌&&◌, ◌||◌, Option, none, some, List,
  [], ◌∷◌, ◌++◌, if◌then◌else◌, ltb, leb, length, is_empty, take, replicate, Bytes, codes, ℤ, pos,
  negsuc, pos_part, neg_part, ltb_ℤ, leb_ℤ,
}
use Decimal.{to_string}

pub record ChunkContext : Type 0 where
  pub attachment_id : Bytes
  pub room : Bytes
  pub group_id : Bytes
  pub logical_size : ℤ
  pub chunk_size : ℤ
  pub chunk_index : ℤ

abbrev pub key_size : ℕ
key_size = 32

abbrev pub nonce_size : ℕ
nonce_size = 12

abbrev pub tag_size : ℕ
tag_size = 16

abbrev pub int_max : ℕ
int_max = 2 ^ 31 - 1

-- The calls of OpenSSL. A ciphertext has its tag behind it; the arguments of the last two are the
-- key, the nonce, the associated data and the text.
pub record Evp : Type 0 where
  pub sha256 : Bytes → Option Bytes
  pub seal : Bytes → Bytes → Bytes → Bytes → Option Bytes
  pub unseal : Bytes → Bytes → Bytes → Bytes → Option Bytes

unfoldable pub aad_for : ChunkContext → Bytes
aad_for c =
    codes "lan-chat/attachment-aead/v1\nattachment_id="
    ++ (c.attachment_id
        ++ (codes "\nroom="
            ++ (c.room
                ++ (codes "\ngroup_id="
                    ++ (c.group_id
                        ++ (codes "\nlogical_size="
                            ++ (to_string c.logical_size
                                ++ (codes "\nchunk_size="
                                    ++ (to_string c.chunk_size
                                        ++ (codes "\nchunk_index="
                                            ++ (to_string c.chunk_index ++ codes "\n")))))))))))

unfoldable pub valid_context : ChunkContext → Bool
valid_context c =
    not (is_empty c.attachment_id)
    && not (is_empty c.room)
    && ltb_ℤ (pos 0) c.logical_size
    && ltb_ℤ (pos 0) c.chunk_size
    && leb_ℤ (pos 0) c.chunk_index

unfoldable pub nonce_input : ChunkContext → Bytes
nonce_input c = codes "lan-chat/attachment-nonce/v1\n" ++ aad_for c

-- The nonce stays zero where the digest fails.
unfoldable pub derive_nonce : Evp → ChunkContext → Bytes
derive_nonce evp c = elim (evp.sha256 (nonce_input c)) [
  | none ↦ replicate nonce_size 0
  | some hash ↦ take nonce_size hash
]

unfoldable pub encrypt : Evp → Bytes → ChunkContext → Bytes → Option Bytes
encrypt evp key c plaintext =
    if not (valid_context c) || ltb int_max (length plaintext)
    then none
    else evp.seal key (derive_nonce evp c) (aad_for c) plaintext

unfoldable pub decrypt : Evp → Bytes → ChunkContext → Bytes → Option Bytes
decrypt evp key c ciphertext =
    if not (valid_context c)
      || ltb (length ciphertext) tag_size
      || ltb int_max (length ciphertext - tag_size)
    then none
    else evp.unseal key (derive_nonce evp c) (aad_for c) ciphertext
