-- ===== src/Launch/Lease/Counted.antt =====
-- A preparation of src/harness-runs/operations/launch.mjs is not cleaned up while a launch holds it.
use sandking.Base.{
  ℕ, ◌+◌, ◌==◌, ◌≡◌, ◌<◌, refl, inl, inr, Bool, true, false, not, ◌&&◌, ◌||◌, List, [], ◌∷◌, Option,
  none, some, ltb, any, all, Option-cases, arith,
}
use sandking.Launch.Lease.Holders.{
  Lease, Provider, Phase, idle, waiting, preparing, no_provider, schedule_cleanup, cleanup_lease,
  begin_acquire, prepared, drop_holder, preparation_failed, release, release_again,
  rollback_succeeded, rollback_failed, retry,
}
use sandking.Launch.Lease.Turns.{
  Turn, begins, prepares, fails, releases, releases_again, rolls_back, rolls_not_back, retries,
  Reaches, here, then_turn,
}

abbrev joining : Phase → ℕ
joining (preparing true) = 1
joining _ = 0

abbrev is_waiting : Phase → Bool
is_waiting waiting = true
is_waiting _ = false

abbrev is_preparing_own : Phase → Bool
is_preparing_own (preparing false) = true
is_preparing_own _ = false

-- The lease counts its holders and the launch that is joining it; it is cleaned up only without any;
-- its preparation is newer than every one that was rolled back.
abbrev pub lease_agrees : Option Lease → Provider → Bool
lease_agrees none p = p.holding == 0 && joining p.phase == 0 && not (is_waiting p.phase)
lease_agrees (some l) p =
    l.count == p.holding + joining p.phase
    && (not l.cleaning || l.count == 0)
    && (not (is_waiting p.phase) || l.cleaning)
    && not (is_preparing_own p.phase)
    && ltb l.preparation_id p.next_preparation_id
    && not (any (λ id. id == l.preparation_id) p.rolled_back)

-- Every preparation that was rolled back is an earlier one.
abbrev pub are_past : Provider → Bool
are_past p = all (λ id. ltb id p.next_preparation_id) p.rolled_back

pub record IsCounted (p : Provider) : Type 0 where
  pub agrees : lease_agrees p.active p ≡ true
  pub past : are_past p ≡ true

pub no_provider-IsCounted : IsCounted no_provider
unfolding no_provider
no_provider-IsCounted = record { agrees = refl; past = refl }

fresh_id :
    (n : ℕ) (ids : List ℕ) → all (λ id. ltb id n) ids ≡ true → any (λ id. id == n) ids ≡ false
fresh_id n [] h = refl
fresh_id n (id ∷ ids) h = ground (arith, fresh_id n ids (ground arith))

all-later :
    (n : ℕ) (ids : List ℕ) → all (λ id. ltb id n) ids ≡ true → all (λ id. ltb id (n + 1)) ids ≡ true
all-later n [] h = refl
all-later n (id ∷ ids) h = ground (arith, all-later n ids (ground arith))

begin_acquire-IsCounted :
    (p : Provider) → p.phase ≡ idle → IsCounted p → IsCounted (begin_acquire p)
unfolding begin_acquire cleanup_lease
begin_acquire-IsCounted p e h = elim (Option-cases p.active) [
  | inl none_ ↦ record { agrees = ground (arith, h.agrees); past = ground (arith, h.past) }
  | inr (l, active) ↦ record { agrees = ground (arith, h.agrees); past = ground (arith, h.past) }
]

prepared-IsCounted :
    (joined : Bool) (p : Provider)
    → p.phase ≡ preparing joined
    → IsCounted p
    → IsCounted (prepared joined p)
unfolding prepared
prepared-IsCounted true p e h = elim (Option-cases p.active) [
  | inl none_ ↦ record { agrees = ground (arith, h.agrees); past = ground (arith, h.past) }
  | inr (l, active) ↦ record { agrees = ground (arith, h.agrees); past = ground (arith, h.past) }
]
prepared-IsCounted false p e h = elim (Option-cases p.active) [
  | inl none_ ↦ record {
    agrees = ground (arith, h.agrees, fresh_id p.next_preparation_id p.rolled_back h.past);
    past = all-later p.next_preparation_id p.rolled_back h.past;
  }
  | inr (l, active) ↦ absurd (ground (arith, h.agrees))
]

preparation_failed-IsCounted :
    (joined : Bool) (p : Provider)
    → p.phase ≡ preparing joined
    → IsCounted p
    → IsCounted (preparation_failed joined p)
unfolding preparation_failed drop_holder cleanup_lease
preparation_failed-IsCounted true p e h = elim (Option-cases p.active) [
  | inl none_ ↦ absurd (ground (arith, h.agrees))
  | inr (l, active) ↦ record { agrees = ground (arith, h.agrees); past = ground (arith, h.past) }
]
preparation_failed-IsCounted false p e h = elim (Option-cases p.active) [
  | inl none_ ↦ record { agrees = ground (arith, h.agrees); past = ground (arith, h.past) }
  | inr (l, active) ↦ absurd (ground (arith, h.agrees))
]

release-IsCounted : (p : Provider) → 0 < p.holding → IsCounted p → IsCounted (release p)
unfolding release drop_holder cleanup_lease
release-IsCounted p held h = elim (Option-cases p.active) [
  | inl none_ ↦ absurd (ground (arith, h.agrees))
  | inr (l, active) ↦ record { agrees = ground (arith, h.agrees); past = ground (arith, h.past) }
]

release_again-IsCounted : (id : ℕ) (p : Provider) → IsCounted p → IsCounted (release_again id p)
unfolding release_again cleanup_lease
release_again-IsCounted id p h = elim (Option-cases p.active) [
  | inl none_ ↦ record { agrees = ground (arith, h.agrees); past = ground (arith, h.past) }
  | inr (l, active) ↦ record { agrees = ground (arith, h.agrees); past = ground (arith, h.past) }
]

rollback_succeeded-IsCounted :
    (l : Lease) (p : Provider)
    → p.active ≡ some l
    → l.cleaning ≡ true
    → IsCounted p
    → IsCounted (rollback_succeeded l p)
unfolding rollback_succeeded
rollback_succeeded-IsCounted l p active e h = record {
  agrees = ground (arith, h.agrees);
  past = ground (arith, h.past, h.agrees);
}

rollback_failed-IsCounted :
    (transient : Bool) (l : Lease) (p : Provider)
    → p.active ≡ some l
    → l.cleaning ≡ true
    → IsCounted p
    → IsCounted (rollback_failed transient l p)
unfolding rollback_failed schedule_cleanup
rollback_failed-IsCounted transient l p active e h = record {
  agrees = ground (arith, h.agrees);
  past = ground (arith, h.past);
}

retry-IsCounted :
    (l : Lease) (p : Provider) → p.active ≡ some l → IsCounted p → IsCounted (retry l p)
unfolding retry cleanup_lease
retry-IsCounted l p active h = record {
  agrees = ground (arith, h.agrees);
  past = ground (arith, h.past);
}

Turn-IsCounted : {p p' : Provider} → Turn p p' → IsCounted p → IsCounted p'
Turn-IsCounted (begins {p} e) h = begin_acquire-IsCounted p e h
Turn-IsCounted (prepares {p} joined e) h = prepared-IsCounted joined p e h
Turn-IsCounted (fails {p} joined e) h = preparation_failed-IsCounted joined p e h
Turn-IsCounted (releases {p} held) h = release-IsCounted p held h
Turn-IsCounted (releases_again {p} id) h = release_again-IsCounted id p h
Turn-IsCounted (rolls_back {p} l active e) h = rollback_succeeded-IsCounted l p active e h
Turn-IsCounted (rolls_not_back {p} transient l active e) h =
    rollback_failed-IsCounted transient l p active e h
Turn-IsCounted (retries {p} l active e) h = retry-IsCounted l p active h

-- In every order of acquisitions, releases and cleanups, the lease of a project counts the launches
-- that hold its preparation and the one that joins them, it is cleaned up only when there are none, and
-- no preparation that is active was rolled back before.
pub Reaches-IsCounted : {p p' : Provider} → Reaches p p' → IsCounted p → IsCounted p'
Reaches-IsCounted here h = h
Reaches-IsCounted (then_turn r t) h = Turn-IsCounted t (Reaches-IsCounted r h)
