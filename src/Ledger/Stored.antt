-- ===== src/Ledger/Stored.antt =====
-- src-tauri/src/ledger.rs: what the content store gives back.
use cozmio.Prelude.{
  ℕ, ◌≤◌, String, ◌≡◌, refl, Bool, true, Option, none, some, List, arith, length, Bool-cases,
  Option-cases, ◌⊎◌, inl, inr, ◌==◌, ==_iff, ==_refl, string_key, ap, sym,
}
use cozmio.Prelude.Results.{Result, ok, err, ◌>>=◌}
use cozmio.Prelude.Maps.{lookup, insert, lookup-insert}
use cozmio.Ledger.{
  ContentRef, LedgerEvent, LedgerManager, LedgerError, Externals, invalid_utf8, or_default,
  record_event,
}
use cozmio.Ledger.Contents.{
  ResolvedContent, Surroundings, new_ref, store, record_event_with_content, slice_bytes,
  slice_lines, or_error, checked_bytes, resolve, set_content_ref,
}

module _ (x : Externals) where
  record_event-contents :
      (e : LedgerEvent) (written indexed : Bool) (m : LedgerManager)
      → (record_event x e written indexed m).0.contents ≡ m.contents
  unfolding record_event
  record_event-contents e written indexed m = ground (arith)

  stored-contents :
      (s : Surroundings) (written indexed : Bool) (e : LedgerEvent) (content : List ℕ)
      (m : LedgerManager)
      → m.has_content_store ≡ true
      → let c =
          new_ref x s content (or_default "binary" (lookup "content_type" e.metadata)) e.source in
        (record_event_with_content x s true written indexed e content m).0.contents
        ≡ insert c.path_or_key content m.contents
  unfolding record_event_with_content store
  stored-contents s written indexed e content m h = rw h (
      record_event-contents
        (set_content_ref
          (new_ref x s content (or_default "binary" (lookup "content_type" e.metadata)) e.source) e)
        written indexed _)

  -- Content that was written is resolved to its text, whether or not its event was recorded.
  pub stored-resolve :
      (s : Surroundings) (written indexed : Bool) (e : LedgerEvent) (content : List ℕ)
      (text : String) (m : LedgerManager)
      → m.has_content_store ≡ true
      → x.utf8 content ≡ some text
      → let c =
          new_ref x s content (or_default "binary" (lookup "content_type" e.metadata)) e.source in
        let r = record_event_with_content x s true written indexed e content m in
        resolve x c r.0 ≡ ok record { content_ref = s.uuid; text = text }
  unfolding resolve new_ref checked_bytes slice_bytes slice_lines
  stored-resolve s written indexed e content text m h u =
      let c =
        new_ref x s content (or_default "binary" (lookup "content_type" e.metadata)) e.source in
      rw
        (
          stored-contents s written indexed e content m h,
          lookup-insert c.path_or_key c.path_or_key content m.contents,
          ==_refl c.path_or_key,
          ==_refl (x.digest content),
          u,
        )
        refl

  -- The range lies within so many bytes.
  abbrev pub InRange : Option (ℕ × ℕ) → ℕ → Type 0
  InRange none n = Unit
  InRange (some (start, end)) n = (start ≤ end) × (end ≤ n)

  InRange-slice :
      (r : Option (ℕ × ℕ)) (bytes part : List ℕ)
      → slice_bytes r bytes ≡ ok part
      → InRange r (length bytes)
  unfolding slice_bytes
  InRange-slice none bytes part h = tt
  InRange-slice (some (start, end)) bytes part h = ground (arith, h)

  abbrev ref_of : ContentRef → Result LedgerError ResolvedContent → String
  ref_of c (ok r) = r.content_ref
  ref_of c (err e) = c.content_ref

  resolved_ref :
      (c : ContentRef) (q : Result LedgerError String) (out : ResolvedContent)
      → (q >>= λ t. ok (record { content_ref = c.content_ref; text = t })) ≡ ok out
      → out.content_ref ≡ c.content_ref
  resolved_ref c (ok t) out h = sym (ap (ref_of c) h)
  resolved_ref c (err e) out h = absurd (ground (arith, h))

  text_ref :
      (c : ContentRef) (o : Option String) (out : ResolvedContent)
      → (or_error invalid_utf8 o >>= λ text. slice_lines c.line_range text >>= λ t.
          ok (record { content_ref = c.content_ref; text = t }))
        ≡ ok out
      → out.content_ref ≡ c.content_ref
  text_ref c (some text) out h = resolved_ref c (slice_lines c.line_range text) out h
  text_ref c none out h = absurd (ground (arith, h))

  Sliced-cases :
      (r : Result LedgerError (List ℕ))
      → ((p : List ℕ) × (r ≡ ok p)) ⊎ ((e : LedgerError) × (r ≡ err e))
  Sliced-cases (ok p) = inl (p, refl)
  Sliced-cases (err e) = inr (e, refl)

  -- A reference that resolves names a file that is there, whose bytes have the hash of the
  -- reference, and its byte range lies within them.
  pub resolve_checked :
      (c : ContentRef) (m : LedgerManager) (out : ResolvedContent)
      → resolve x c m ≡ ok out
      → (bytes : List ℕ) × (lookup c.path_or_key m.contents ≡ some bytes)
        × (x.digest bytes ≡ c.content_hash)
        × InRange c.byte_range (length bytes)
        × (out.content_ref ≡ c.content_ref)
  unfolding resolve checked_bytes
  resolve_checked c m out h = elim (Bool-cases (c.storage_backend == "file")) [
    | inr b ↦ absurd (ground (arith, rw b at h))
    | inl b ↦ elim (Option-cases (lookup c.path_or_key m.contents)) [
      | inl n ↦ absurd (ground (arith, rw (b, n) at h))
      | inr (bytes, f) ↦ elim (Bool-cases (x.digest bytes == c.content_hash)) [
        | inr d ↦ absurd (ground (arith, rw (b, f, d) at h))
        | inl d ↦ elim (Sliced-cases (slice_bytes c.byte_range bytes)) [
          | inr (e, q) ↦ absurd (ground (arith, rw (b, f, d, q) at h))
          | inl (part, q) ↦ (
            bytes,
            f,
            (==_iff (x.digest bytes) c.content_hash).0 d,
            InRange-slice c.byte_range bytes part q,
            text_ref c (x.utf8 part) out (rw (b, f, d, q) at h),
          )
        ]
      ]
    ]
  ]
