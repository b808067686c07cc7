-- ===== src/Attachments/Tests.antt =====
-- Runs of the attachment encryption and of the download, and the theorems about them at concrete
-- parameters: a file that is a list of bytes, a cipher that adds sixteen bytes, a hash of 64 zeros.
use cross_language_lan_chatr.Prelude.{
  ◌+◌, ◌≡◌, ◌≤◌, refl, true, false, none, some, List, [], ◌∷◌, ◌++◌, length, take, drop, replicate,
  is_empty, Bytes, pos, negsuc, codes, same,
}
use cross_language_lan_chatr.Prelude.Map.{lookup, insert, erase, bytes_eq}
use cross_language_lan_chatr.Attachments.Chunks.{count_chunks}
use cross_language_lan_chatr.Attachments.Crypto.{ChunkContext, Evp, encrypt, decrypt, valid_context}
use cross_language_lan_chatr.Attachments.Crypto.Aad.{OneLineIds, aad_for_injective}
use cross_language_lan_chatr.Attachments.TransferClient.{
  Device, TransferChunk, chunk_size, stream_encrypt, stream_loop,
}
use cross_language_lan_chatr.Attachments.TransferClient.Stream.{
  Reads, collect, Cuts, stream_encrypt-Cuts,
}
use cross_language_lan_chatr.Attachments.DownloadAssembler.{
  Files, Assembler, accept_chunk, finalize,
}
use cross_language_lan_chatr.Attachments.DownloadAssembler.Discard.{Ended, accept_chunk-Ended}
use cross_language_lan_chatr.Attachments.DownloadAssembler.Verified.{
  Verified, accept_chunk-Verified,
}

abbrev photo : ChunkContext
photo = record {
  attachment_id = codes "a1";
  room = codes "lobby";
  group_id = codes "g";
  logical_size = pos 3;
  chunk_size = pos 0;
  chunk_index = pos 0;
}

abbrev photo_chunk : ChunkContext
photo_chunk = record photo { chunk_size = pos chunk_size }

abbrev padding : Evp
padding = record {
  sha256 = λ x. some (replicate 32 0);
  seal = λ k n aad p. some (replicate 16 0 ++ p);
  unseal = λ k n aad c. some (drop 16 c);
}

abbrev zeros : Bytes → Bytes
zeros x = replicate 64 b'0'

abbrev bytes_device : Device
bytes_device = record {
  State = Bytes;
  is_open = λ s. true;
  is_readable = λ s. true;
  read = λ s n. (take n s, drop n s);
}

abbrev bytes_reads : Reads bytes_device
bytes_reads = record { contents = λ s. s; read_contents = λ s n. (refl, refl) }

photo-OneLineIds : OneLineIds photo_chunk
photo-OneLineIds = record { attachment_id = refl; room = refl; group_id = refl }

aad_for_injective_example : photo_chunk ≡ photo_chunk
unfolding valid_context
aad_for_injective_example =
    aad_for_injective photo_chunk photo_chunk refl refl photo-OneLineIds photo-OneLineIds refl

abbrev photo_bytes : Bytes
photo_bytes = 7 ∷ 8 ∷ 9 ∷ 10 ∷ []

abbrev photo_sent : List TransferChunk
photo_sent =
    record {
      index = 0;
      ciphertext = replicate 16 0 ++ (7 ∷ 8 ∷ 9 ∷ []);
      cipher_sha256 = replicate 64 b'0';
    }
    ∷ []

photo_streams :
    stream_encrypt padding zeros bytes_device [] collect true photo_bytes photo []
    ≡ (none, 10 ∷ [], photo_sent)
unfolding stream_encrypt stream_loop encrypt valid_context
photo_streams = refl

stream_encrypt-Cuts_example :
    (3 ≤ 4) × Cuts padding zeros [] photo_chunk chunk_size 0 (7 ∷ 8 ∷ 9 ∷ []) photo_sent
stream_encrypt-Cuts_example =
    stream_encrypt-Cuts padding zeros [] bytes_device bytes_reads true photo_bytes photo (10 ∷ [])
      photo_sent photo_streams

-- A disk that holds one file at most for each path.
abbrev disk : Files
disk = record {
  Disk = List (Bytes × Bytes);
  open_truncated = λ d path. (true, insert path [] d);
  resize = λ d path size. (true, insert path (replicate size 0) d);
  remove = λ d path. (true, erase path d);
  exists = λ d path. elim (lookup path d) [ none ↦ false | some old ↦ true ];
  rename = λ d from to. elim (lookup from d) [
    | none ↦ (false, d)
    | some bytes ↦ (true, insert to bytes (erase from d))
  ];
  open_read_write = λ d path. (true, d);
  seek = λ d path offset. (true, d);
  write = λ d path offset bytes. elim (lookup path d) [
    | none ↦ (negsuc 0, d)
    | some old ↦ (
      pos (length bytes),
      insert path (take offset old ++ (bytes ++ drop (offset + length bytes) old)) d,
    )
  ];
}

-- A download of three bytes in chunks of two; the first chunk has arrived.
abbrev fetching : Assembler
fetching = record {
  output_path = codes "out";
  part_path = codes "out.part";
  key = [];
  context = record photo { chunk_size = pos 2 };
  next_index = 1;
  complete = false;
}

abbrev half_done : List (Bytes × Bytes)
half_done = (codes "out.part", 7 ∷ 8 ∷ 0 ∷ []) ∷ (codes "out", 1 ∷ []) ∷ []

abbrev last_ciphertext : Bytes
last_ciphertext = replicate 16 0 ++ (9 ∷ [])

-- The last chunk puts the whole file in the place of the old one.
fetching_completes :
    (accept_chunk padding zeros disk fetching half_done (pos 1) last_ciphertext (zeros []) true).2
    ≡ (codes "out", 7 ∷ 8 ∷ 9 ∷ []) ∷ []
unfolding accept_chunk decrypt valid_context finalize lookup insert erase same count_chunks
fetching_completes = refl

accept_chunk-Ended_example :
    Ended padding zeros disk fetching
      (accept_chunk padding zeros disk fetching half_done (pos 1) last_ciphertext (zeros []) false)
accept_chunk-Ended_example =
    accept_chunk-Ended padding zeros disk fetching refl half_done (pos 1) last_ciphertext (zeros [])
      false

fetching_accepts :
    (accept_chunk padding zeros disk fetching half_done (pos 1) last_ciphertext (zeros []) true).0
    ≡ none
unfolding accept_chunk decrypt valid_context finalize lookup insert erase same count_chunks
fetching_accepts = refl

accept_chunk-Verified_example :
    (is_empty (codes "out.part") ≡ false)
    × Verified padding zeros disk fetching half_done (pos 1) last_ciphertext (zeros []) true
accept_chunk-Verified_example =
    accept_chunk-Verified padding zeros disk fetching half_done (pos 1) last_ciphertext (zeros [])
      true fetching_accepts
