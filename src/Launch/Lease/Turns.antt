-- ===== src/Launch/Lease/Turns.antt =====
-- The turns that the acquisitions, the releases and the cleanups of a project's lease have in
-- src/harness-runs/operations/launch.mjs, in any order. The mutation lock admits one acquisition.
use sandking.Base.{ℕ, ◌≡◌, ◌<◌, Bool, true, some}
use sandking.Launch.Lease.Holders.{
  Lease, Provider, idle, preparing, begin_acquire, prepared, preparation_failed, release,
  release_again, rollback_succeeded, rollback_failed, retry,
}

pub data Turn : Provider → Provider → Type 0 where
  begins : {p : Provider} → p.phase ≡ idle → Turn p (begin_acquire p)
  prepares :
      {p : Provider} (joined : Bool) → p.phase ≡ preparing joined → Turn p (prepared joined p)
  fails :
      {p : Provider} (joined : Bool)
      → p.phase ≡ preparing joined
      → Turn p (preparation_failed joined p)
  releases : {p : Provider} → 0 < p.holding → Turn p (release p)
  releases_again : {p : Provider} (id : ℕ) → Turn p (release_again id p)
  rolls_back :
      {p : Provider} (l : Lease)
      → p.active ≡ some l
      → l.cleaning ≡ true
      → Turn p (rollback_succeeded l p)
  rolls_not_back :
      {p : Provider} (transient : Bool) (l : Lease)
      → p.active ≡ some l
      → l.cleaning ≡ true
      → Turn p (rollback_failed transient l p)
  retries :
      {p : Provider} (l : Lease) → p.active ≡ some l → l.retry_timer ≡ true → Turn p (retry l p)

pub data Reaches : Provider → Provider → Type 0 where
  here : {p : Provider} → Reaches p p
  then_turn : {p p' p'' : Provider} → Reaches p p' → Turn p' p'' → Reaches p p''
