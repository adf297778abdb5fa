-- ===== src/Host/Lock/Exclusive.antt =====
-- When src/private-state-lock.mjs excludes.
use sandking.Base.{ℕ, ◌≡◌, Bool, true, false, not, ◌&&◌, ◌||◌, Option, none, some}
use sandking.Host.Lock.Turns.{
  File, Files, Phase, writing, holding, checking, releasing, marking, confirming, removing,
  clearing, owned_by, System,
}

abbrev has_lock : Phase → Bool
has_lock writing = true
has_lock holding = true
has_lock (checking again) = true
has_lock (releasing again) = true
has_lock _ = false

abbrev recovers : Phase → Bool
recovers marking = true
recovers confirming = true
recovers removing = true
recovers clearing = true
recovers _ = false

abbrev removes : Phase → Bool
removes removing = true
removes _ = false

-- The process that has created the lock does not run.
abbrev is_condemned : Files → Option File → Bool
is_condemned m none = false
is_condemned m (some f) = not (m.running f.writer)

-- What a call may rely on: the lock that it has created, or its marker, and that a lock which it is about
-- to remove is nobody's.
abbrev fits : Files → ℕ → Phase → Bool
fits m i p =
    (not (has_lock p) || owned_by i m.lock)
    && (not (recovers p) || owned_by i m.recovery)
    && (not (removes p) || is_condemned m m.lock)

-- Every running call finds what it relies on.
unfoldable IsFit : System → Type 0
IsFit s = (j : ℕ) → s.files.running j ≡ true → fits s.files j (s.phase j) ≡ true
