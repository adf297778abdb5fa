-- ===== src/Projects/Repeated.antt =====
-- A resolution of src/project-registration/resolution.mjs under the same key.
use sandking.Base.{
  ℕ, zero, suc, length, ◌≡◌, ◌-◌, ◌==◌, refl, sym, ap, subst, ◌∙◌, Bool, true, false, List, [], ◌∷◌,
  ◌++◌, Option, none, some, ok, if◌then◌else◌, arith, find, drop, length-append, find-append,
  drop-append-le,
}
use sandking.Projects.Types.{
  Project, Registration, Answer, Response, answered, Outcome, State, FailureCode, ResultCode,
  is_active,
}
use sandking.Projects.Location.{Location, LocationFailure, Candidate}
use sandking.Projects.Requests.{Surroundings, find_project, find_outcome, push_outcome, replay}
use sandking.Projects.Resolution.{
  ResolveRequest, Contract, Action, forget, restore, resolve_conflict, Resolved, contract,
  contract_of, set_active, names_some, move_active, is_found, reject, conclude, forget_project,
  keep_conflict, restore_conflicting, restore_at, restore_moved, restore_project, select_project,
  resolve_found, resolve_project, carry_out, address, resolve_new, resolve_existing,
  apply_project_registration_resolution, conflict_of,
}

either_holds :
    (P : Resolved → Type 0) (b : Bool) {x y : Resolved} → P x → P y → P (if b then x else y)
either_holds P true h k = h
either_holds P false h k = k

-- A new request ends by being concluded, rejected, or retained as a conflict.
module _ (s : State) (r : ResolveRequest) (w : Surroundings) (k : Contract) (P : Resolved → Type 0)
    (concluded : (code : ResultCode) (p : Project) (ps : List Project)
      → P (conclude s r w k code p ps))
    (rejected : (code : FailureCode) (retryable : Bool) (revision : ℕ)
        (rs : Option (List Registration))
      → P (reject s r w code retryable revision rs))
    (kept : (p : Project) (ps : List Project) (f : Option LocationFailure)
      → P (keep_conflict s r w k p ps f)) where
  restore_conflicting_holds :
      (p : Project) (change : Project → Project) (f : Option LocationFailure)
      → P (restore_conflicting s r w k p change f)
  unfolding restore_conflicting
  restore_conflicting_holds p change none = rejected _ _ _ _
  restore_conflicting_holds p change (some f) = kept p _ _

  restore_at_holds :
      (p : Project) (change : Project → Project) (location : Location)
      → P (restore_at s r w k p change location)
  unfolding restore_at
  restore_at_holds p change location =
      either_holds P (is_found p.project_id location) (concluded _ _ _)
        (restore_conflicting_holds p change (conflict_of location))

  restore_moved_holds :
      (p : Project) (location : Location) (c : Option Candidate)
      → P (restore_moved s r w k p location c)
  unfolding restore_moved
  restore_moved_holds p location none = restore_at_holds p set_active location
  restore_moved_holds p location (some c) = restore_at_holds p (move_active c.canonical_path) _

  select_project_holds :
      (p : Project) (cs : List Project) (f : LocationFailure) (path : Option ℕ)
      → P (select_project s r w k p cs f path)
  unfolding select_project
  select_project_holds p cs f none = rejected _ _ _ _
  select_project_holds p cs f (some path) = either_holds P _ (concluded _ _ _) (rejected _ _ _ _)

  resolve_found_holds :
      (p : Project) (location : Location) (found : Option (List Project × LocationFailure))
      → P (resolve_found s r w k p location found)
  unfolding resolve_found
  resolve_found_holds p location none = rejected _ _ _ _
  resolve_found_holds p location (some (cs, f)) =
      select_project_holds p cs f f.selected_canonical_path

  carry_out_holds : (action : Action) (p : Project) → P (carry_out action s r w k p)
  unfolding carry_out forget_project restore_project resolve_project
  carry_out_holds forget p = either_holds P (is_active p) (concluded _ _ _) (rejected _ _ _ _)
  carry_out_holds restore p =
      either_holds P (is_active p) (rejected _ _ _ _) (restore_moved_holds p _ _)
  carry_out_holds resolve_conflict p = resolve_found_holds p _ _

  address_holds : (p : Option Project) → P (address s r w k p)
  unfolding address
  address_holds none = rejected _ _ _ _
  address_holds (some p) =
      either_holds P (k.expected_revision == p.revision) (carry_out_holds k.action p)
        (rejected _ _ _ _)

-- What an answered request retains.
IsRetained : State → ResolveRequest → ℕ → Resolved → Type 0
IsRetained s r hash (ok (s', answered a)) =
    s'.registration_outcomes
    ≡ (push_outcome hash r.envelope.request_fingerprint (answered a) s).registration_outcomes
IsRetained s r hash _ = true ≡ true

conclude-IsRetained :
    (s : State) (r : ResolveRequest) (w : Surroundings) (k : Contract) (code : ResultCode)
    (p : Project) (ps : List Project)
    → IsRetained s r k.idempotency_key_hash (conclude s r w k code p ps)
unfolding IsRetained conclude
conclude-IsRetained s r w k code p ps = refl

keep_conflict-IsRetained :
    (s : State) (r : ResolveRequest) (w : Surroundings) (k : Contract) (p : Project)
    (ps : List Project) (f : Option LocationFailure)
    → IsRetained s r k.idempotency_key_hash (keep_conflict s r w k p ps f)
unfolding IsRetained keep_conflict
keep_conflict-IsRetained s r w k p ps none = refl
keep_conflict-IsRetained s r w k p ps (some f) =
    either_holds (IsRetained s r k.idempotency_key_hash) (names_some p.project_id f.registrations)
      {x = _} {y = _} refl refl

contract_of-hash :
    (r : ResolveRequest) (hash : Option ℕ) (action : Option Action) (id revision : Option ℕ)
    (k : Contract)
    → contract_of r hash action id revision ≡ some k
    → hash ≡ some k.idempotency_key_hash
contract_of-hash r none action id revision k h = ground arith
contract_of-hash r (some hash) none id revision k h = ground arith
contract_of-hash r (some hash) (some action) none revision k h = ground arith
contract_of-hash r (some hash) (some action) (some id) none k h = ground arith
contract_of-hash r (some hash) (some action) (some id) (some revision) k h = ground arith

resolve_new-IsRetained :
    (s : State) (r : ResolveRequest) (w : Surroundings) (hash : ℕ) (k : Option Contract)
    → r.envelope.idempotency_key_hash ≡ some hash
    → contract r ≡ k
    → IsRetained s r hash (resolve_new s r w k)
unfolding resolve_new IsRetained
resolve_new-IsRetained s r w hash none h e = refl
resolve_new-IsRetained s r w hash (some k) h e =
    subst (λ x. IsRetained s r x (address s r w k (find_project k.project_id s.projects)))
      {x = k.idempotency_key_hash} {y = hash}
      (ground (
        arith,
        contract_of-hash r r.envelope.idempotency_key_hash r.action r.project_id
            r.envelope.expected_revision k e,
      ))
      (address_holds s r w k (IsRetained s r k.idempotency_key_hash) (conclude-IsRetained s r w k)
        (λ code retryable revision rs. refl) (keep_conflict-IsRetained s r w k)
        (find_project k.project_id s.projects))

-- The retained outcome is found under its key.
find_outcome-drop :
    (hash : ℕ) (os : List Outcome) (n : ℕ)
    → find (λ o. o.idempotency_key_hash == hash) os ≡ none
    → find (λ o. o.idempotency_key_hash == hash) (drop n os) ≡ none
find_outcome-drop hash os zero h = h
find_outcome-drop hash [] (suc n) h = refl
find_outcome-drop hash (o ∷ os) (suc n) h = ground (arith, find_outcome-drop hash os n)

find_outcome-push :
    (hash fingerprint : ℕ) (response : Response) (s : State)
    → find_outcome (some hash) s.registration_outcomes ≡ none
    → find_outcome (some hash) (push_outcome hash fingerprint response s).registration_outcomes
      ≡ some record {
        idempotency_key_hash = hash;
        request_fingerprint = fingerprint;
        response = response;
      }
find_outcome-push hash fingerprint response s h =
    let o : Outcome = record {
      idempotency_key_hash = hash;
      request_fingerprint = fingerprint;
      response = response;
    } in
    let n = length (s.registration_outcomes ++ o ∷ []) - 256 in
    rw
      (drop-append-le n s.registration_outcomes (o ∷ [])
        (omega (arith, length-append s.registration_outcomes (o ∷ []))))
      (find-append (λ p. p.idempotency_key_hash == hash) (drop n s.registration_outcomes) o
        (find_outcome-drop hash s.registration_outcomes n h) (ground arith))

apply-IsRetained :
    (s : State) (r : ResolveRequest) (w : Surroundings) (hash : ℕ)
    → r.envelope.idempotency_key_hash ≡ some hash
    → find_outcome (some hash) s.registration_outcomes ≡ none
    → IsRetained s r hash (apply_project_registration_resolution s r w)
unfolding apply_project_registration_resolution resolve_existing
apply-IsRetained s r w hash key new =
    subst (λ o. IsRetained s r hash (resolve_existing s r w o))
      (sym (ap (λ k. find_outcome k s.registration_outcomes) key ∙ new))
      (resolve_new-IsRetained s r w hash (contract r) key refl)

retained_outcome :
    (s s' : State) (r : ResolveRequest) (hash : ℕ) (a : Answer)
    → find_outcome (some hash) s.registration_outcomes ≡ none
    → IsRetained s r hash (ok (s', answered a))
    → find_outcome (some hash) s'.registration_outcomes
      ≡ some record {
        idempotency_key_hash = hash;
        request_fingerprint = r.envelope.request_fingerprint;
        response = answered a;
      }
unfolding IsRetained
retained_outcome s s' r hash a new h =
    ap (find_outcome (some hash)) h
    ∙ find_outcome-push hash r.envelope.request_fingerprint (answered a) s new

-- A request with a key under which no outcome is retained, and that is answered, is carried out once: a
-- request with that key and the same fingerprint gets the answer again, as a replay under its own id, and
-- changes nothing.
pub resolution-resolution :
    (s s' : State) (r r' : ResolveRequest) (w w' : Surroundings) (hash : ℕ) (a : Answer)
    → r.envelope.idempotency_key_hash ≡ some hash
    → r'.envelope.idempotency_key_hash ≡ some hash
    → r'.envelope.request_fingerprint ≡ r.envelope.request_fingerprint
    → find_outcome (some hash) s.registration_outcomes ≡ none
    → apply_project_registration_resolution s r w ≡ ok (s', answered a)
    → apply_project_registration_resolution s' r' w' ≡ ok (s', replay r'.envelope (answered a))
unfolding apply_project_registration_resolution resolve_existing
resolution-resolution s s' r r' w w' hash a key key' same new e =
    let found =
      retained_outcome s s' r hash a new
        (subst (IsRetained s r hash) e (apply-IsRetained s r w hash key new)) in
    rw key' (rw found (ground arith))
