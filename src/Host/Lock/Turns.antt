-- ===== src/Host/Lock/Turns.antt =====
-- `withPrivateStateLock` of src/private-state-lock.mjs, an access to the file system at a time. A call is
-- told by a number, which stands for its process and its `lockId`. A call that has met its deadline takes
-- no more turns.
use sandking.Base.{
  ℕ, ◌==◌, ◌≡◌, Bool, true, false, not, ◌&&◌, Option, none, some, is_none, if◌then◌else◌,
}

-- The lock or the recovery marker: who has created it, and whether it has been written.
pub record File : Type 0 where
  pub writer : ℕ
  pub complete : Bool

-- The two files, and which processes run.
pub record Files : Type 0 where
  pub lock : Option File
  pub recovery : Option File
  pub running : ℕ → Bool

-- In front of which access a call is. The operation that throws EEXIST makes its call go `again`.
pub data Phase : Type 0 where
  looking discarding opening writing holding : Phase
  checking releasing : Bool → Phase
  inspecting suspecting marking confirming removing clearing done : Phase

-- A complete file is stale where its process is seen not to run; `choice` is false where a process that
-- has ended is still seen. An incomplete file names no process: it is stale once it is more than a second
-- old, which is what `choice` says of it.
unfoldable pub is_stale : Bool → Files → File → Bool
is_stale choice m f = if f.complete then choice && not (m.running f.writer) else choice

abbrev pub owned_by : ℕ → Option File → Bool
owned_by i none = false
owned_by i (some f) = f.writer == i

-- Writing and closing a file that one has created.
abbrev completed : ℕ → Option File → Option File
completed i none = none
completed i (some f) = some (if f.writer == i then record f { complete = true } else f)

abbrev created : ℕ → Option File
created i = some record { writer = i; complete = false }

-- Behind the operation: its result is returned or thrown, but EEXIST is taken for a lock that exists.
abbrev left : Bool → Phase
left again = if again then inspecting else done

look : Bool → Files → Option File → Phase
unfolding is_stale
look seen m none = opening
look seen m (some f) = if is_stale seen m f then discarding else looking

open_lock : ℕ → Files → Option File → Files × Phase
open_lock i m none = (record m { lock = created i }, writing)
open_lock i m (some f) = (m, inspecting)

-- `releaseOwnedLock` up to its removal.
check_owner : ℕ → Bool → Option File → Phase
check_owner i again none = left again
check_owner i again (some f) = if f.complete && f.writer == i then releasing again else left again

-- A lock that is gone has no owner, who is not running.
inspect : Bool → Files → Option File → Phase
unfolding is_stale
inspect seen m none = suspecting
inspect seen m (some f) = if is_stale seen m f then suspecting else looking

open_recovery : ℕ → Files → Option File → Files × Phase
open_recovery i m none = (record m { recovery = created i }, marking)
open_recovery i m (some f) = (m, looking)

confirm : Bool → Files → Option File → Phase
unfolding is_stale
confirm seen m none = removing
confirm seen m (some f) = if is_stale seen m f then removing else clearing

-- The next access of a call. `choice` is what it sees of a process or of a file's age, or whether its
-- operation throws EEXIST.
unfoldable pub turn : Bool → ℕ → Files → Phase → Files × Phase
unfolding look open_lock check_owner inspect open_recovery confirm
turn choice i m looking = (m, look choice m m.recovery)
turn choice i m discarding = (record m { recovery = none }, looking)
turn choice i m opening = open_lock i m m.lock
turn choice i m writing = (record m { lock = completed i m.lock }, holding)
turn choice i m holding = (m, checking choice)
turn choice i m (checking again) = (m, check_owner i again m.lock)
turn choice i m (releasing again) = (record m { lock = none }, left again)
turn choice i m inspecting = (m, inspect choice m m.lock)
turn choice i m suspecting = open_recovery i m m.recovery
turn choice i m marking = (record m { recovery = completed i m.recovery }, confirming)
turn choice i m confirming = (m, confirm choice m m.lock)
turn choice i m removing = (record m { lock = none }, clearing)
turn choice i m clearing = (record m { recovery = none }, looking)
turn choice i m done = (m, done)

pub record System : Type 0 where
  pub files : Files
  pub phase : ℕ → Phase

abbrev pub put_phase : ℕ → Phase → (ℕ → Phase) → ℕ → Phase
put_phase i p phases j = if j == i then p else phases j

-- A call takes its turn.
unfoldable pub take_turn : Bool → ℕ → System → System
take_turn choice i s =
    let (m, p) = turn choice i s.files (s.phase i) in
    record { files = m; phase = put_phase i p s.phase }

-- A process ends, wherever it is, and leaves its files.
unfoldable pub crash : ℕ → System → System
crash i s = record s {
  files = record s.files { running = λ j. if j == i then false else s.files.running j };
}

-- The removal of a marker that was found stale, which may be another one by then, and the confirmation
-- of a lock that is gone, which may be there again when it is removed.
abbrev pub is_blind : Files → Phase → Bool
is_blind m discarding = true
is_blind m confirming = is_none m.lock
is_blind m _ = false

-- The file is incomplete while the process that writes it runs.
abbrev is_being_written : Files → Option File → Bool
is_being_written m none = false
is_being_written m (some f) = not f.complete && m.running f.writer

-- A file that a running process still writes is taken for more than a second old.
abbrev pub is_hasty : Bool → Files → Phase → Bool
is_hasty choice m looking = choice && is_being_written m m.recovery
is_hasty choice m inspecting = choice && is_being_written m m.lock
is_hasty choice m confirming = choice && is_being_written m m.lock
is_hasty choice m _ = false

-- Turns and crashes in any order, without blind or hasty turns.
pub data Step : System → System → Type 0 where
  moves :
      {s : System} (choice : Bool) (i : ℕ)
      → s.files.running i ≡ true
      → is_blind s.files (s.phase i) ≡ false
      → is_hasty choice s.files (s.phase i) ≡ false
      → Step s (take_turn choice i s)
  crashes : {s : System} (i : ℕ) → Step s (crash i s)

pub data Reaches : System → System → Type 0 where
  here : {s : System} → Reaches s s
  then_step : {s t u : System} → Reaches s t → Step t u → Reaches s u

-- Every call is at its beginning, and there are no files.
unfoldable pub initial : System
initial = record {
  files = record { lock = none; recovery = none; running = λ i. true };
  phase = λ i. looking;
}
