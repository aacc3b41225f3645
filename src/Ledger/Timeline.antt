-- ===== src/Ledger/Timeline.antt =====
-- src-tauri/src/ledger.rs: the order and the extent of what the queries give.
use cozmio.Prelude.{
  ℕ, ◌≤◌, ◌≡◌, refl, true, false, not, ◌↔◌, List, [], ◌∷◌, arith, filter, drop, length, In, All,
}
use cozmio.Prelude.Int.{ℤ, pos, negsuc, ltb_ℤ}
use cozmio.Prelude.Sorting.{
  sort_by, IsOrdered, sort_by-IsOrdered, take-IsOrdered, drop-IsOrdered, length-take-le,
}
use cozmio.Prelude.Members.{In-sort_by, In-filter}
use cozmio.Ledger.{Row}
use cozmio.Ledger.Queries.{newer, within, timeline_rows, range_rows}

ltb_ℤ-asym : (a b : ℤ) → not (ltb_ℤ a b) ≡ false → not (ltb_ℤ b a) ≡ true
ltb_ℤ-asym (pos a) (pos b) h = ground (arith, h)
ltb_ℤ-asym (pos a) (negsuc b) h = ground (arith, h)
ltb_ℤ-asym (negsuc a) (pos b) h = refl
ltb_ℤ-asym (negsuc a) (negsuc b) h = ground (arith, h)

newer-total : (a b : Row) → newer a b ≡ false → newer b a ≡ true
newer-total a b h = ltb_ℤ-asym a.timestamp b.timestamp h

-- The timeline is cut to its limit, and no row in it is newer than the one before.
pub timeline-IsOrdered :
    (limit offset : ℕ) (rows : List Row)
    → (length (timeline_rows limit offset rows) ≤ limit)
      × IsOrdered newer (timeline_rows limit offset rows)
unfolding timeline_rows
timeline-IsOrdered limit offset rows = (
  length-take-le limit (drop offset (sort_by newer rows)),
  take-IsOrdered newer limit (drop offset (sort_by newer rows))
      (drop-IsOrdered newer offset (sort_by newer rows) (sort_by-IsOrdered newer newer-total rows)),
)

-- The order of signed integers.
infix 4 ◌≤ℤ◌
abbrev pub ◌≤ℤ◌ : ℤ → ℤ → Type 0
pos a ≤ℤ pos b = a ≤ b
pos a ≤ℤ negsuc b = ⊥
negsuc a ≤ℤ pos b = Unit
negsuc a ≤ℤ negsuc b = b ≤ a

≤ℤ_iff : (a b : ℤ) → (not (ltb_ℤ b a) ≡ true) ↔ (a ≤ℤ b)
≤ℤ_iff (pos a) (pos b) = (λ h. ground (arith, h), λ h. ground (arith, h))
≤ℤ_iff (pos a) (negsuc b) = (λ h. absurd (ground arith), λ h. elim h [ ])
≤ℤ_iff (negsuc a) (pos b) = (λ h. tt, λ h. refl)
≤ℤ_iff (negsuc a) (negsuc b) = (λ h. ground (arith, h), λ h. ground (arith, h))

≤ℤ_trans : (a b c : ℤ) → a ≤ℤ b → b ≤ℤ c → a ≤ℤ c
≤ℤ_trans (pos a) (pos b) (pos c) h k = omega arith
≤ℤ_trans (pos a) (pos b) (negsuc c) h k = k
≤ℤ_trans (pos a) (negsuc b) c h k = elim h [ ]
≤ℤ_trans (negsuc a) b (pos c) h k = tt
≤ℤ_trans (negsuc a) (pos b) (negsuc c) h k = elim k [ ]
≤ℤ_trans (negsuc a) (negsuc b) (negsuc c) h k = omega arith

-- No row is later than any row before it.
abbrev pub IsLatestFirst : List Row → Type 0
IsLatestFirst [] = Unit
IsLatestFirst (r ∷ rs) = All (λ q. q.timestamp ≤ℤ r.timestamp) rs × IsLatestFirst rs

below :
    (t : ℤ) (q : Row) (qs : List Row)
    → q.timestamp ≤ℤ t
    → IsOrdered newer (q ∷ qs)
    → All (λ p. p.timestamp ≤ℤ t) (q ∷ qs)
below t q [] h o = (h, tt)
below t q (p ∷ qs) h o = (
  h,
  below t p qs (≤ℤ_trans p.timestamp q.timestamp t ((≤ℤ_iff p.timestamp q.timestamp).0 o.0) h) o.1,
)

latest_first : (rs : List Row) → IsOrdered newer rs → IsLatestFirst rs
latest_first [] o = tt
latest_first (r ∷ []) o = (tt, tt)
latest_first (r ∷ q ∷ qs) o =
    (below r.timestamp q qs ((≤ℤ_iff q.timestamp r.timestamp).0 o.0) o.1, latest_first (q ∷ qs) o.1)

within_iff :
    (start end : ℤ) (r : Row)
    → (within start end r ≡ true) ↔ ((start ≤ℤ r.timestamp) × (r.timestamp ≤ℤ end))
within_iff start end r = (
  λ h. (
    (≤ℤ_iff start r.timestamp).0 (ground (arith, h)),
    (≤ℤ_iff r.timestamp end).0 (ground (arith, h)),
  ),
  λ h. ground (arith, (≤ℤ_iff start r.timestamp).1 h.0, (≤ℤ_iff r.timestamp end).1 h.1),
)

-- A date range gives exactly the rows of the table whose timestamps lie between its ends, both ends
-- included, and no row in it is later than any row before it.
pub range_exact :
    (start end : ℤ) (rows : List Row) (r : Row)
    → (In r (range_rows start end rows)
        ↔ (In r rows × (start ≤ℤ r.timestamp) × (r.timestamp ≤ℤ end)))
      × IsLatestFirst (range_rows start end rows)
unfolding range_rows
range_exact start end rows r =
    let chosen = In-filter (within start end) r rows in
    let sorted = In-sort_by newer r (filter (within start end) rows) in
    (
      (
        λ h.
            let found = chosen.0 (sorted.0 h) in
            let bounds = (within_iff start end r).0 found.1 in (found.0, bounds.0, bounds.1),
        λ h. sorted.1 (chosen.1 (h.0, (within_iff start end r).1 (h.1, h.2))),
      ),
      latest_first _ (sort_by-IsOrdered newer newer-total (filter (within start end) rows)),
    )
