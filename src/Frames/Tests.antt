-- ===== src/Frames/Tests.antt =====
-- Frames at concrete bytes, and the theorems at inputs that meet their hypotheses.
use cozmio.Prelude.{◌≡◌, refl, [], ◌∷◌, ◌++◌, arith}
use cozmio.Prelude.Results.{ok}
use cozmio.Frames.Typed.{frame_roundtrip}
use cozmio.Frames.{build_request, read_frame, split_typed_request, send_request_to_stream, read_len}

typed_bytes : build_request 103 (7 ∷ 8 ∷ []) ≡ 0 ∷ 0 ∷ 0 ∷ 2 ∷ 103 ∷ 7 ∷ 8 ∷ []
unfolding build_request
typed_bytes = refl

client_bytes : send_request_to_stream 2 (7 ∷ 8 ∷ []) ≡ 0 ∷ 0 ∷ 0 ∷ 3 ∷ 2 ∷ 7 ∷ 8 ∷ []
unfolding send_request_to_stream
client_bytes = refl

typed_read : read_frame (0 ∷ 0 ∷ 0 ∷ 1 ∷ 103 ∷ 7 ∷ 9 ∷ []) ≡ ok ((103, 7 ∷ []), 9 ∷ [])
unfolding read_frame split_typed_request read_len
typed_read = refl

frame_roundtrip_example :
    read_frame (build_request 103 (7 ∷ 8 ∷ []) ++ 9 ∷ []) ≡ ok ((103, 7 ∷ 8 ∷ []), 9 ∷ [])
frame_roundtrip_example = frame_roundtrip 103 (7 ∷ 8 ∷ []) (9 ∷ []) (omega arith)
