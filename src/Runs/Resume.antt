-- ===== src/Runs/Resume.antt =====
-- What an observer of a run and a reader of its logs see: src/harness-runs/operations/queries.mjs.
use sandking.Base.{
  ℕ, zero, suc, ◌+◌, ◌≤◌, ◌<◌, ◌≡◌, refl, ap, false, List, [], ◌∷◌, ◌++◌, none, some, ok, arith,
  min, length, take, drop, last?, ◌==◌, length-take, length-drop, take-append-drop, if◌then◌else◌,
}
use sandking.Runs.Types.{Run, Event}
use sandking.Runs.History.{Sequenced}
use sandking.Runs.Query.{
  observe, sequence_or_zero, first?, skips, resync_reason, ObserveMode, ResyncReason, later_than,
  LogRange, read_logs,
}

later_than-all :
    (after n : ℕ) (es : List Event) → Sequenced n es → after ≤ n → later_than after es ≡ es
later_than-all after n [] s h = refl
later_than-all after n (e ∷ es) s h = ground (arith, later_than-all after (suc n) es s.1)

-- In a gapless history, the events behind a cursor are those that the cursor has not counted.
later_than-drop : (n k : ℕ) (es : List Event) → Sequenced n es → later_than (n + k) es ≡ drop k es
later_than-drop n zero es s = later_than-all (n + 0) n es s (omega arith)
later_than-drop n (suc k) [] s = refl
later_than-drop n (suc k) (e ∷ es) s =
    let rest : later_than (suc n + k) es ≡ drop k es = later_than-drop (suc n) k es s.1 in
    let same : n + suc k ≡ suc n + k = omega arith in rw same (ground (arith, rest))

last-Sequenced :
    (n : ℕ) (es : List Event)
    → Sequenced n es
    → sequence_or_zero (last? es) ≡ (if length es == 0 then 0 else n + length es)
last-Sequenced n [] s = refl
last-Sequenced n (e ∷ []) s = omega (arith, s.0)
last-Sequenced n (e ∷ e' ∷ es) s = ground (arith, last-Sequenced (suc n) (e' ∷ es) s.1)

maximum : (es : List Event) → Sequenced 0 es → sequence_or_zero (last? es) ≡ length es
maximum es s = ground (arith, last-Sequenced 0 es s)

first-drop :
    (n k : ℕ) (es : List Event)
    → Sequenced n es
    → k < length es
    → skips (n + k) (first? (drop k es)) ≡ false
first-drop n zero [] s h = absurd (omega arith)
first-drop n (suc k) [] s h = absurd (omega arith)
first-drop n zero (e ∷ es) s h = ground (arith, s.0)
first-drop n (suc k) (e ∷ es) s h =
    let rest : skips (suc n + k) (first? (drop k es)) ≡ false =
      first-drop (suc n) k es s.1 (omega arith) in
    let same : n + suc k ≡ suc n + k = omega arith in rw same rest

resync_reason-none :
    (after : ℕ) (es : List Event)
    → Sequenced 0 es
    → after ≤ length es
    → resync_reason after es ≡ none
unfolding resync_reason
resync_reason-none after es s h =
    ground (arith, maximum es s, later_than-drop 0 after es s, first-drop 0 after es s)

-- An observer that has seen the first events of a run, and resumes behind them, gets the others, each
-- once and in order; no gap is ever reported.
pub observe_resumes :
    (after : ℕ) (run : Run)
    → Sequenced 0 run.events
    → after ≤ length run.events
    → (take after run.events ++ (observe after run).events ≡ run.events)
      × ((observe after run).reason ≡ none)
      × ((observe after run).next_sequence ≡ length run.events)
unfolding observe
observe_resumes after run s h =
    let fine : resync_reason after run.events ≡ none = resync_reason-none after run.events s h in
    (
      ground (arith, fine, later_than-drop 0 after run.events s, take-append-drop after run.events),
      ground (arith, fine),
      maximum run.events s,
    )

-- A cursor past the last event is answered with the whole history, marked as a new start.
pub observe_resyncs :
    (after : ℕ) (run : Run)
    → Sequenced 0 run.events
    → length run.events < after
    → ((observe after run).mode ≡ ObserveMode.resync_required)
      × ((observe after run).reason ≡ some ResyncReason.cursor_incompatible)
      × ((observe after run).events ≡ run.events)
      × ((observe after run).next_sequence ≡ length run.events)
unfolding observe resync_reason
observe_resyncs after run s h = ground (arith, maximum run.events s)

module _ {ℓ} {A : Type ℓ} where
  take-drop-take : (n m : ℕ) (xs : List A) → n ≤ m → take n xs ++ drop n (take m xs) ≡ take m xs
  take-drop-take zero m xs h = refl
  take-drop-take (suc n) zero xs h = absurd (omega arith)
  take-drop-take (suc n) (suc m) [] h = refl
  take-drop-take (suc n) (suc m) (x ∷ xs) h = ap (◌∷◌ x) (take-drop-take n m xs (omega arith))

  -- A range of the log that is asked for within the bounds is what follows the offset: behind the
  -- bytes before it, it makes up the log to its end, stays within the limit and the durable bytes,
  -- and it is not empty before the end of them.
  pub read_logs_ok :
      (state_end : ℕ) (available : List A) (offset limit : ℕ)
      → 1 ≤ limit
      → limit ≤ 16384
      → (range : LogRange A) × (read_logs state_end available offset limit ≡ ok range)
        × (take range.start available ++ range.bytes ≡ take range.end available)
        × (length range.bytes ≤ limit)
        × (range.available_end ≡ min state_end (length available))
        × (range.end ≤ range.available_end)
        × (offset < range.available_end → range.start < range.end)
        × (offset ≤ range.available_end → range.start ≡ offset)
  unfolding read_logs
  read_logs_ok state_end available offset limit low high =
      let durable = min state_end (length available) in
      let start = min offset durable in
      let end = min (start + limit) durable in
      (
        record {
          start = start;
          end = end;
          available_end = durable;
          eof = end == durable;
          bytes = drop start (take end available);
        },
        ground arith,
        take-drop-take start end available (omega arith),
        omega (arith, length-drop start (take end available), length-take end available),
        refl,
        omega arith,
        (λ h. omega arith),
        (λ h. omega arith),
      )
