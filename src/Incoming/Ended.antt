-- ===== src/Incoming/Ended.antt =====
-- The message loop ends: every message takes bytes off the stream.
use cozmio.Prelude.{
  ℕ, zero, suc, ◌≤◌, ◌<◌, ◌≡◌, refl, String, true, Option, none, some, List, [], ◌∷◌, length, ltb,
  Bool-cases, Option-cases, inl, inr, arith, sym, ap,
}
use cozmio.Prelude.Results.{Result, ok, err, ◌>>=◌}
use cozmio.Frames.{
  FrameError, io, too_large, empty_frame, read_exact, read_len, read_frame, max_message_size,
  split_typed_request,
}
use cozmio.Links.{get_stream_arc}
use cozmio.Router.{InferenceResponse}
use cozmio.Incoming.{Engine, on_read, on_stream, next_message, handle_worker_messages_for_worker}

-- The number of bytes that a read leaves, 0 after an error.
abbrev left {ℓ} : {A : Type ℓ} → Result FrameError (A × List ℕ) → ℕ
left (ok (a, rest)) = length rest
left (err e) = 0

bind-left :
    {A B : Type 0} (n : ℕ) (r : Result FrameError (A × List ℕ))
    (f : A × List ℕ → Result FrameError (B × List ℕ))
    → left r ≤ n
    → ((a : A) (rest : List ℕ) → length rest ≤ n → left (f (a, rest)) ≤ n)
    → left (r >>= f) ≤ n
bind-left n (ok (a, rest)) f h k = k a rest h
bind-left n (err e) f h k = omega arith

read_exact-left : (n m : ℕ) (bytes : List ℕ) → length bytes ≤ m → left (read_exact n bytes) ≤ m
unfolding read_exact
read_exact-left zero m bytes h = h
read_exact-left (suc n) m [] h = omega arith
read_exact-left (suc n) m (b ∷ bytes) h =
    bind-left m (read_exact n bytes) (λ p. ok (b ∷ p.0, p.1))
      (read_exact-left n m bytes (omega arith)) (λ a rest g. g)

read_len-left : (b : ℕ) (bytes : List ℕ) → left (read_len (b ∷ bytes)) ≤ length bytes
unfolding read_len read_exact
read_len-left b [] = omega arith
read_len-left b (c ∷ []) = omega arith
read_len-left b (c ∷ d ∷ []) = omega arith
read_len-left b (c ∷ d ∷ e ∷ bytes) = omega arith

split-left :
    (type_byte payload rest : List ℕ) (n : ℕ)
    → length rest ≤ n
    → left {A = ℕ × List ℕ}
        (split_typed_request type_byte >>= (λ split. ok ((split.0, payload), rest)))
      ≤ n
unfolding split_typed_request
split-left [] payload rest n h = omega arith
split-left (kind ∷ bs) payload rest n h = h

read_frame-left : (b : ℕ) (bytes : List ℕ) → left (read_frame (b ∷ bytes)) ≤ length bytes
unfolding read_frame
read_frame-left b bytes =
    bind-left (length bytes) (read_len (b ∷ bytes)) _ (read_len-left b bytes) (λ len rest h.
      elim (Bool-cases (ltb max_message_size len)) [
        | inl big ↦ rw big (omega arith)
        | inr fits ↦ rw fits (
            bind-left (length bytes) (read_exact 1 rest) _ (read_exact-left 1 (length bytes) rest h)
              (λ type_byte rest' h'.
                bind-left (length bytes) (read_exact len rest') _
                  (read_exact-left len (length bytes) rest' h')
                  (λ payload rest''. split-left type_byte payload rest'' (length bytes))))
      ])

module _ (decode : List ℕ → Option InferenceResponse) where
  -- The number of bytes that a round leaves, 0 when it leaves the loop.
  abbrev remaining : Option (List ℕ) → ℕ
  remaining none = 0
  remaining (some bytes) = length bytes

  on_read-remaining :
      (id : String) (r : Result FrameError ((ℕ × List ℕ) × List ℕ)) (e : Engine)
      → remaining (on_read decode id r e).1 ≡ left r
  on_read-remaining id (ok ((kind, payload), rest)) e = refl
  on_read-remaining id (err (too_large n)) e = refl
  on_read-remaining id (err io) e = refl
  on_read-remaining id (err empty_frame) e = refl

  on_stream-remaining :
      (id : String) (b : ℕ) (bytes : List ℕ) (s : Option ℕ) (e : Engine)
      → remaining (on_stream decode id (b ∷ bytes) s e).1 ≤ length bytes
  on_stream-remaining id b bytes none e = omega arith
  on_stream-remaining id b bytes (some s) e =
      rw (on_read-remaining id (read_frame (b ∷ bytes)) e) (read_frame-left b bytes)

  on_stream-closed :
      (id : String) (s : Option ℕ) (e : Engine) → (on_stream decode id [] s e).1 ≡ none
  unfolding read_frame read_len read_exact
  on_stream-closed id none e = refl
  on_stream-closed id (some s) e = refl

  next_message-shrinks :
      (id : String) (bytes rest : List ℕ) (e : Engine)
      → (next_message decode id bytes e).1 ≡ some rest
      → length rest < length bytes
  unfolding next_message
  next_message-shrinks id [] rest e h =
      let closed = on_stream-closed id (get_stream_arc id e.session_manager) e in cc
  next_message-shrinks id (b ∷ bytes) rest e h =
      let kept = on_stream-remaining id b bytes (get_stream_arc id e.session_manager) e in
      rw (sym (ap remaining h)) (omega arith)

  -- The message loop of a worker ends on every input: a number of rounds above the number of bytes to
  -- read is enough.
  pub messages_end :
      (fuel : ℕ) (id : String) (bytes : List ℕ) (e : Engine)
      → length bytes < fuel
      → (handle_worker_messages_for_worker decode fuel id bytes e).1 ≡ true
  unfolding handle_worker_messages_for_worker
  messages_end zero id bytes e h = elim h [ ]
  messages_end (suc fuel) id bytes e h = elim (Option-cases (next_message decode id bytes e).1) [
    | inl done ↦ rw (done, handle_worker_messages_for_worker)
    | inr (rest, more) ↦
        rw (more, handle_worker_messages_for_worker)
          (let shrunk = next_message-shrinks id bytes rest e more in
            messages_end fuel id rest (next_message decode id bytes e).0 (omega arith))
  ]
