-- ===== src/Windows/Buffer.antt =====
-- src-tauri/src/window_monitor.rs: the bounded buffer keeps the latest entries.
use cozmio.Prelude.{
  ◌-◌, ◌≤◌, ◌≡◌, true, false, List, [], ◌∷◌, ◌++◌, arith, leb, length, length-append, drop,
  Bool-cases, inl, inr, ap, sym, ◌∙◌,
}
use cozmio.Prelude.Tails.{
  tail_of, drop-append, append-nil, append-one, length-tail_of, tail_of_short, tail_of_again,
}
use cozmio.Windows.{BufferedEntry, ProcessBuffer, push}

abbrev pub push_all : List BufferedEntry → ProcessBuffer → ProcessBuffer
push_all [] b = b
push_all (e ∷ es) b = push_all es (push e b)

push-tail_of :
    (e : BufferedEntry) (b : ProcessBuffer)
    → 1 ≤ b.capacity
    → length b.entries ≤ b.capacity
    → (push e b).entries ≡ tail_of b.capacity (b.entries ++ e ∷ [])
unfolding push
push-tail_of e b c h = elim (Bool-cases (leb b.capacity (length b.entries))) [
  | inl k ↦ rw k (
      sym (drop-append 1 b.entries (e ∷ []) (omega (arith, c, full k)))
      ∙ ap (λ n. drop n (b.entries ++ e ∷ [])) (one k))
  | inr k ↦ rw k (sym (tail_of_short b.capacity (b.entries ++ e ∷ []) (room k)))
]
  where
    full : leb b.capacity (length b.entries) ≡ true → b.capacity ≤ length b.entries
    full k = ground (arith, k)

    one : leb b.capacity (length b.entries) ≡ true → 1 ≡ length (b.entries ++ e ∷ []) - b.capacity
    one k = omega (arith, full k, h, length-append b.entries (e ∷ []))

    room : leb b.capacity (length b.entries) ≡ false → length (b.entries ++ e ∷ []) ≤ b.capacity
    room k = ground (arith, k, length-append b.entries (e ∷ []))

-- A buffer of some capacity that is not over it shows, after any number of pushes, the latest of its
-- entries and those pushed, as many as its capacity.
pub push_all_keeps_latest :
    (es : List BufferedEntry) (b : ProcessBuffer)
    → 1 ≤ b.capacity
    → length b.entries ≤ b.capacity
    → (push_all es b).entries ≡ tail_of b.capacity (b.entries ++ es)
unfolding push
push_all_keeps_latest [] b c h =
    sym (ap (tail_of b.capacity) (append-nil b.entries) ∙ tail_of_short b.capacity b.entries h)
push_all_keeps_latest (e ∷ es) b c h =
    push_all_keeps_latest es (push e b) c short
    ∙ ap (λ xs. tail_of b.capacity (xs ++ es)) pushed
    ∙ tail_of_again b.capacity (b.entries ++ e ∷ []) es
    ∙ ap (tail_of b.capacity) (append-one b.entries e es)
  where
    pushed : (push e b).entries ≡ tail_of b.capacity (b.entries ++ e ∷ [])
    pushed = push-tail_of e b c h

    short : length (push e b).entries ≤ b.capacity
    short = rw pushed (length-tail_of b.capacity (b.entries ++ e ∷ []))
