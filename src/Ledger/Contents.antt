-- ===== src/Ledger/Contents.antt =====
-- src-tauri/src/ledger.rs: storing the content of an event, and resolving a reference to it.
--
-- The new UUID, the time and the directory of the year and month are arguments.
use cozmio.Prelude.{
  ℕ, ◌-◌, String, Bool, ◌||◌, Option, none, some, List, if◌then◌else◌, ltb, length, take, drop,
  ◌==◌, string_key,
}
use cozmio.Prelude.Int.{ℤ}
use cozmio.Prelude.Results.{Result, ok, err, ◌>>=◌}
use cozmio.Prelude.Maps.{lookup, insert}
use cozmio.Prelude.Text.{starts_with, lines, join_lines}
use cozmio.Experience.{◌<+>◌}
use cozmio.Ledger.{
  ContentRef, LedgerEvent, LedgerManager, LedgerError, Externals, io_error, not_configured,
  unsupported_backend, hash_mismatch, invalid_byte_range, invalid_utf8, invalid_line_range,
  or_default, record_event,
}

pub record ResolvedContent : Type 0 where
  pub content_ref : String
  pub text : String

-- What `store` reads from its surroundings.
pub record Surroundings : Type 0 where
  pub uuid : String
  pub now : ℤ
  pub directory : String

unfoldable pub extension : String → String
unfolding starts_with
extension content_type =
    if (content_type == "text")
      || (content_type == "transcript")
      || starts_with "text/" content_type
    then "txt"
    else "bin"

abbrev pub slice : {A : Type 0} → ℕ → ℕ → List A → List A
slice start end xs = take (end - start) (drop start xs)

-- `byte_range`, before the bytes are read as text.
unfoldable pub slice_bytes : Option (ℕ × ℕ) → List ℕ → Result LedgerError (List ℕ)
slice_bytes none bytes = ok bytes
slice_bytes (some (start, end)) bytes =
    if ltb end start || ltb (length bytes) end
    then err invalid_byte_range
    else ok (slice start end bytes)

-- `line_range`, on the text.
unfoldable pub slice_lines : Option (ℕ × ℕ) → String → Result LedgerError String
unfolding lines join_lines
slice_lines none text = ok text
slice_lines (some (start, end)) text =
    if ltb end start then err invalid_line_range else ok (join_lines (slice start end (lines text)))

abbrev pub or_error {ℓ} : {A : Type ℓ} → LedgerError → Option A → Result LedgerError A
or_error e none = err e
or_error e (some a) = ok a

abbrev pub set_content_ref : ContentRef → LedgerEvent → LedgerEvent
set_content_ref c e = record e { content_ref = some c }

module _ (x : Externals) where
  unfoldable pub new_ref : Surroundings → List ℕ → String → String → ContentRef
  unfolding extension
  new_ref s content content_type producer = record {
    content_ref = s.uuid;
    content_type = content_type;
    storage_backend = "file";
    path_or_key = s.directory <+> "/" <+> s.uuid <+> "." <+> extension content_type;
    content_hash = x.digest content;
    created_at = s.now;
    producer = producer;
    byte_range = none;
    line_range = none;
  }

  -- `ContentStoreWriter::store`, with the outcome of its file system calls.
  unfoldable pub store :
      Surroundings
      → Bool
      → List ℕ
      → String
      → String
      → LedgerManager
      → LedgerManager × Result LedgerError ContentRef
  unfolding new_ref
  store s written content content_type producer m =
      let c = new_ref s content content_type producer in
      if written
      then (record m { contents = insert c.path_or_key content m.contents }, ok c)
      else (m, err io_error)

  abbrev pub record_stored :
      LedgerEvent
      → Bool
      → Bool
      → LedgerManager × Result LedgerError ContentRef
      → LedgerManager × Result LedgerError (LedgerEvent × ContentRef)
  record_stored e written indexed (m, err err') = (m, err err')
  record_stored e written indexed (m, ok c) =
      let r = record_event x (set_content_ref c e) written indexed m in
      (r.0, r.1 >>= λ _. ok (set_content_ref c e, c))

  -- The content first, then the event with its reference.
  unfoldable pub record_event_with_content :
      Surroundings
      → Bool
      → Bool
      → Bool
      → LedgerEvent
      → List ℕ
      → LedgerManager
      → LedgerManager × Result LedgerError (LedgerEvent × ContentRef)
  unfolding store record_event
  record_event_with_content s stored written indexed e content m =
      if m.has_content_store
      then record_stored e written indexed (
          store s stored content (or_default "binary" (lookup "content_type" e.metadata)) e.source
            m)
      else (m, err not_configured)

  -- The bytes of a file, checked against the hash of the reference.
  unfoldable pub checked_bytes : ContentRef → Option (List ℕ) → Result LedgerError (List ℕ)
  checked_bytes c none = err io_error
  checked_bytes c (some bytes) =
      if x.digest bytes == c.content_hash then ok bytes else err (hash_mismatch c.content_ref)

  unfoldable pub resolve : ContentRef → LedgerManager → Result LedgerError ResolvedContent
  unfolding checked_bytes slice_bytes slice_lines
  resolve c m =
      if c.storage_backend == "file"
      then (checked_bytes c (lookup c.path_or_key m.contents) >>= λ bytes.
          slice_bytes c.byte_range bytes >>= λ part. or_error invalid_utf8 (x.utf8 part) >>= λ text.
          slice_lines c.line_range text >>= λ out.
          ok record { content_ref = c.content_ref; text = out })
      else err (unsupported_backend c.storage_backend)
