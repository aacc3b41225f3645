-- ===== src/Ledger/Queries.antt =====
-- src-tauri/src/ledger.rs: the queries of the table. Rows of the same timestamp come in the order of
-- the table; limits and offsets are below 2^63.
use cozmio.Prelude.{
  ℕ, String, Bool, false, not, ◌&&◌, Option, none, some, List, filter, take, drop, map, ◌==◌,
  string_key,
}
use cozmio.Prelude.Int.{ℤ, ltb_ℤ}
use cozmio.Prelude.Sorting.{sort_by}
use cozmio.Ledger.{LedgerEvent, Externals, Row, LedgerManager, row_to_event}

abbrev pub newer : Row → Row → Bool
newer a b = not (ltb_ℤ a.timestamp b.timestamp)

abbrev pub older : Row → Row → Bool
older a b = not (ltb_ℤ b.timestamp a.timestamp)

abbrev pub is_text : String → Option String → Bool
is_text s none = false
is_text s (some t) = t == s

abbrev pub within : ℤ → ℤ → Row → Bool
within start end r = not (ltb_ℤ r.timestamp start) && not (ltb_ℤ end r.timestamp)

-- The rows that each query selects, in its order.
unfoldable pub timeline_rows : ℕ → ℕ → List Row → List Row
unfolding sort_by
timeline_rows limit offset rows = take limit (drop offset (sort_by newer rows))

unfoldable pub trace_rows : String → List Row → List Row
unfolding sort_by
trace_rows trace_id rows = sort_by older (filter (λ r. is_text trace_id r.trace_id) rows)

unfoldable pub session_rows : String → List Row → List Row
unfolding sort_by
session_rows session_id rows = sort_by older (filter (λ r. is_text session_id r.session_id) rows)

unfoldable pub type_rows : String → ℕ → List Row → List Row
unfolding sort_by
type_rows event_type limit rows =
    take limit (sort_by newer (filter (λ r. r.event_type == event_type) rows))

unfoldable pub range_rows : ℤ → ℤ → List Row → List Row
unfolding sort_by
range_rows start end rows = sort_by newer (filter (within start end) rows)

module _ (x : Externals) where
  unfoldable pub get_timeline : ℕ → ℕ → LedgerManager → List LedgerEvent
  unfolding timeline_rows row_to_event
  get_timeline limit offset m = map (row_to_event x) (timeline_rows limit offset m.rows)

  unfoldable pub get_trace : String → LedgerManager → List LedgerEvent
  unfolding trace_rows row_to_event
  get_trace trace_id m = map (row_to_event x) (trace_rows trace_id m.rows)

  unfoldable pub get_session : String → LedgerManager → List LedgerEvent
  unfolding session_rows row_to_event
  get_session session_id m = map (row_to_event x) (session_rows session_id m.rows)

  unfoldable pub query_by_event_type : String → ℕ → LedgerManager → List LedgerEvent
  unfolding type_rows row_to_event
  query_by_event_type event_type limit m = map (row_to_event x) (type_rows event_type limit m.rows)

  unfoldable pub get_by_date_range : ℤ → ℤ → LedgerManager → List LedgerEvent
  unfolding range_rows row_to_event
  get_by_date_range start end m = map (row_to_event x) (range_rows start end m.rows)
