-- ===== src/Projects/Bundled.antt =====
-- The registered harnesses of src/project-registration/registry.mjs.
use sandking.Base.{
  ℕ, ◌≡◌, ◌≤◌, ◌==◌, ◌&&◌, refl, Bool, true, false, List, [], ◌∷◌, ◌++◌, Option, none, some,
  if◌then◌else◌, arith, Result, ok, err, count, count-append,
}
use sandking.Projects.Types.{AdapterId, conformance, sandcastle, Harness, FailureCode}
use sandking.Projects.Requests.{Surroundings}
use sandking.Projects.Preparing.{is_sandcastle}
use sandking.Projects.Harnesses.{
  HarnessState, HarnessRequest, HarnessCode, HarnessResult, Making, HarnessOutcome, same_adapter,
  of_adapter, retain_harness, make_harness, register_or_reuse, register_sound, register_answered,
  register_bundled_harness, read_registered_harness, find_answer,
}

-- The state behind an operation. One that throws writes nothing.
abbrev pub left_by : HarnessState → HarnessResult → HarnessState
left_by s (err e) = s
left_by s (ok (s', response)) = s'

-- A harness that is registered for an adapter stays, and there is one at most.
pub record Keeps (s s' : HarnessState) : Type 0 where
  pub stays :
      (a : AdapterId) (h : Harness)
      → read_registered_harness a s ≡ some h
      → read_registered_harness a s' ≡ some h
  pub single :
      (a : AdapterId)
      → count (λ h. same_adapter h.adapter_id a) s.harnesses ≤ 1
      → count (λ h. same_adapter h.adapter_id a) s'.harnesses ≤ 1

same-Keeps : (s : HarnessState) → Keeps s s
same-Keeps s = record { stays = λ a h e. e; single = λ a h. h }

find-append-some :
    (a : AdapterId) (hs : List Harness) (g h : Harness)
    → of_adapter a hs ≡ some h
    → of_adapter a (hs ++ g ∷ []) ≡ some h
find-append-some a [] g h e = ground arith
find-append-some a (f ∷ hs) g h e = ground (arith, find-append-some a hs g h)

adapters_agree :
    (x a b : AdapterId)
    → same_adapter x b ≡ true
    → same_adapter a b ≡ true
    → same_adapter x a ≡ true
adapters_agree sandcastle sandcastle b h k = refl
adapters_agree conformance conformance b h k = refl
adapters_agree sandcastle conformance b h k = ground arith
adapters_agree conformance sandcastle b h k = ground arith

count-none :
    (a b : AdapterId) (hs : List Harness)
    → of_adapter a hs ≡ none
    → same_adapter a b ≡ true
    → count (λ h. same_adapter h.adapter_id b) hs ≡ 0
count-none a b [] e same = refl
count-none a b (h ∷ hs) e same = ground (arith, adapters_agree h.adapter_id a b, count-none a b hs)

either-Keeps :
    (s : HarnessState) (b : Bool) (x y : HarnessResult)
    → Keeps s (left_by s x)
    → Keeps s (left_by s y)
    → Keeps s (left_by s (if b then x else y))
either-Keeps s true x y h k = h
either-Keeps s false x y h k = k

module _ (s : HarnessState) (r : HarnessRequest) (w : Surroundings) where
  retain_harness-Keeps :
      (hash expected : ℕ) (code : HarnessCode) (h : Harness)
      → Keeps s (left_by s (retain_harness s r w hash expected code h s.harnesses))
  unfolding retain_harness read_registered_harness
  retain_harness-Keeps hash expected code h = record { stays = λ a g e. e; single = λ a g. g }

  make_harness-Keeps :
      (id hash expected : ℕ) (made : Result (Option FailureCode) ℕ)
      → of_adapter r.adapter_id s.harnesses ≡ none
      → Keeps s (left_by s (make_harness s r w id hash expected made))
  unfolding make_harness retain_harness read_registered_harness
  make_harness-Keeps id hash expected (ok revision) new = record {
    stays = λ a g e. find-append-some a s.harnesses _ g e;
    single = λ a few. ground (
      arith,
      count-append (λ h. same_adapter h.adapter_id a) s.harnesses
          (record {
            harness_id = id;
            revision = 1;
            adapter_id = r.adapter_id;
            immutable_revision = revision;
          }
            ∷ []),
      count-none r.adapter_id a s.harnesses new,
    );
  }
  make_harness-Keeps id hash expected (err (some code)) new = same-Keeps s
  make_harness-Keeps id hash expected (err none) new =
      either-Keeps s (is_sandcastle r.adapter_id) _ _ (same-Keeps s) (same-Keeps s)

  register_or_reuse-Keeps :
      (making : Making) (hash expected : ℕ) (registered : Option Harness)
      → of_adapter r.adapter_id s.harnesses ≡ registered
      → Keeps s (left_by s (register_or_reuse s r w making hash expected registered))
  unfolding register_or_reuse
  register_or_reuse-Keeps making hash expected (some h) e =
      retain_harness-Keeps hash expected HarnessCode.harness_registration_reused h
  register_or_reuse-Keeps making hash expected none e =
      make_harness-Keeps making.harness_id hash expected making.made e

  register_sound-Keeps :
      (making : Making) (hash expected : Option ℕ)
      → Keeps s (
          left_by s
            (register_sound s r w making hash expected (of_adapter r.adapter_id s.harnesses)))
  unfolding register_sound
  register_sound-Keeps making none expected = same-Keeps s
  register_sound-Keeps making (some hash) none = same-Keeps s
  register_sound-Keeps making (some hash) (some expected) =
      either-Keeps s (r.envelope.authorized && r.names_it) _ _
        (either-Keeps s (expected == _) _ _ (register_or_reuse-Keeps making hash expected _ refl)
          (same-Keeps s))
        (same-Keeps s)

  register_answered-Keeps :
      (making : Making) (o : Option HarnessOutcome)
      → Keeps s (left_by s (register_answered s r w making o))
  unfolding register_answered
  register_answered-Keeps making none = register_sound-Keeps making _ _
  register_answered-Keeps making (some o) =
      either-Keeps s (o.request_fingerprint == r.envelope.request_fingerprint) _ _ (same-Keeps s)
        (same-Keeps s)

-- Whatever the registration of a harness answers or throws, a harness that was registered for an adapter
-- stays the registered one, and an adapter with at most one harness still has at most one.
pub register_bundled_harness-Keeps :
    (s : HarnessState) (r : HarnessRequest) (w : Surroundings) (making : Making)
    → Keeps s (left_by s (register_bundled_harness s r w making))
unfolding register_bundled_harness
register_bundled_harness-Keeps s r w making =
    register_answered-Keeps s r w making
      (find_answer r.envelope.idempotency_key_hash s.registration_outcomes)
