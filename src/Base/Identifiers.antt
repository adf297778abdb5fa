-- ===== src/Base/Identifiers.antt =====
-- The shapes of durable identities: src/common/identifiers.mjs, and the digests of
-- src/harness-runs/schemas.mjs. A text is the list of its characters.
use Prim.Native.Char.{code}
use Prim.Native.Nat.{ℕ}
use Prim.Native.String.{String}
use mathlib.Core.Bool.{Bool, false, ◌&&◌, ◌||◌}
use mathlib.Core.List.{List, [], ◌∷◌}
use sandking.Base.Tests.{leb, ◌==◌}
use sandking.Base.Lists.{length, all}

abbrev pub codes : String → List ℕ
codes String.[] = []
codes (String.◌∷◌ c s) = code c ∷ codes s

-- `[a-f0-9]`.
abbrev pub is_hex : ℕ → Bool
is_hex c = (leb b'a' c && leb c b'f') || (leb b'0' c && leb c b'9')

-- `^prefix[a-f0-9]{n}$`.
abbrev pub is_tagged_hex : List ℕ → ℕ → List ℕ → Bool
is_tagged_hex [] n text = length text == n && all is_hex text
is_tagged_hex (p ∷ ps) n [] = false
is_tagged_hex (p ∷ ps) n (c ∷ text) = p == c && is_tagged_hex ps n text

unfoldable pub is_harness_run_id : String → Bool
is_harness_run_id s = is_tagged_hex (codes "harness-run-") 24 (codes s)

unfoldable pub is_project_id : String → Bool
is_project_id s = is_tagged_hex (codes "project-") 24 (codes s)

unfoldable pub is_controller_id : String → Bool
is_controller_id s = is_tagged_hex (codes "runtime-") 24 (codes s)

unfoldable pub is_controller_session_id : String → Bool
is_controller_session_id s = is_tagged_hex (codes "controller-session-") 24 (codes s)

unfoldable pub is_digest : String → Bool
is_digest s = is_tagged_hex (codes "sha256:") 64 (codes s)
