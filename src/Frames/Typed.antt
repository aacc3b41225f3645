-- ===== src/Frames/Typed.antt =====
-- Frames between engine and worker.
use cozmio.Prelude.{
  ℕ, zero, suc, ◌/◌, ◌%◌, ◌≤◌, ◌<◌, ◌≡◌, List, [], ◌∷◌, ◌++◌, length, take, arith, length-take-lt,
  ltb, Bool-cases, inl, inr, le→ltb_false, if◌then◌else◌,
}
use cozmio.Prelude.Results.{ok, err}
use cozmio.Frames.{
  io, too_large, build_request, read_frame, max_message_size, as_u32, split_typed_request,
}
use cozmio.Frames.Words.{
  read_len-to_be_bytes, read_len-short, read_exact-append, read_exact-short, as_u32-small,
}

-- A typed frame is read back as it was written, whatever follows it, if its payload has at most a
-- million bytes, and refused by its length if it has more (and less than four gigabytes).
pub frame_roundtrip :
    (kind : ℕ) (payload rest : List ℕ)
    → length payload < 4294967296
    → read_frame (build_request kind payload ++ rest) ≡ (
        if ltb max_message_size (length payload)
        then err (too_large (length payload))
        else ok ((kind, payload), rest))
unfolding read_frame build_request split_typed_request
frame_roundtrip kind payload rest h = rw (as_u32-small (length payload) h) (
    rw (read_len-to_be_bytes (length payload) (kind ∷ (payload ++ rest)) h)
      (elim (Bool-cases (ltb max_message_size (length payload))) [
        | inl big ↦ rw big
        | inr fits ↦ rw fits (rw (read_exact-append payload rest))
      ]))

-- A frame that the peer breaks off anywhere, its first byte included, is an error: no message is made
-- up from a part of one.
pub truncated_frame :
    (kind : ℕ) (payload : List ℕ) (k : ℕ)
    → length payload ≤ max_message_size
    → k < length (build_request kind payload)
    → read_frame (take k (build_request kind payload)) ≡ err io
unfolding read_frame build_request
truncated_frame kind payload zero h lt = rw (read_len-short [] (omega arith))
truncated_frame kind payload (suc zero) h lt =
    rw (read_len-short ((as_u32 (length payload) / 16777216 % 256) ∷ []) (omega arith))
truncated_frame kind payload (suc (suc zero)) h lt = rw (
    read_len-short
      ((as_u32 (length payload) / 16777216 % 256) ∷ (as_u32 (length payload) / 65536 % 256) ∷ [])
      (omega arith))
truncated_frame kind payload (suc (suc (suc zero))) h lt = rw (
    read_len-short
      ((as_u32 (length payload) / 16777216 % 256)
        ∷ (as_u32 (length payload) / 65536 % 256)
        ∷ (as_u32 (length payload) / 256 % 256)
        ∷ [])
      (omega arith))
truncated_frame kind payload (suc (suc (suc (suc zero)))) h lt =
    rw (as_u32-small (length payload) (omega arith)) (
      rw (read_len-to_be_bytes (length payload) [] (omega arith))
        (rw (le→ltb_false (length payload) max_message_size h)))
truncated_frame kind payload (suc (suc (suc (suc (suc k))))) h lt =
    rw (as_u32-small (length payload) (omega arith)) (
      rw (read_len-to_be_bytes (length payload) (kind ∷ take k payload) (omega arith)) (
        rw (le→ltb_false (length payload) max_message_size h) (
          rw (
            read_exact-short (length payload) (take k payload)
              (length-take-lt k payload (omega arith))))))
