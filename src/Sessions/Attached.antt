-- ===== src/Sessions/Attached.antt =====
-- Which sockets are attached to a session of src/controller-sessions.mjs: each one once, as the writer
-- or as a reader.
use sandking.Base.{
  has, add, delete, ℕ, suc, ◌+◌, ◌≤◌, ◌==◌, ◌≡◌, refl, true, false, not, ◌&&◌, List, [], ◌∷◌, leb,
  count, count-append, if◌then◌else◌, Bool-cases, inl, inr, arith,
}
use sandking.Sessions.Terminal.{Session, holds}
use sandking.Sessions.Attach.{Role, writer, reader, take_role, detach}

abbrev pub count_of : ℕ → List ℕ → ℕ
count_of k = count (λ j. j == k)

pub has-count_of : (k : ℕ) (ks : List ℕ) → has k ks ≡ leb 1 (count_of k ks)
has-count_of k [] = refl
has-count_of k (j ∷ js) = ground (arith, has-count_of k js)

pub count_of-delete :
    (k j : ℕ) (ks : List ℕ) → count_of k (delete j ks) ≡ (if j == k then 0 else count_of k ks)
count_of-delete k j [] = ground arith
count_of-delete k j (i ∷ is) = ground (arith, count_of-delete k j is)

pub count_of-add :
    (k j : ℕ) (ks : List ℕ)
    → count_of k (add j ks)
      ≡ (if j == k && not (has j ks) then suc (count_of k ks) else count_of k ks)
count_of-add k j ks = elim (Bool-cases (has j ks)) [
  | inl e ↦ ground arith
  | inr e ↦ ground (arith, count-append (λ i. i == k) ks (j ∷ []))
]

-- How often a socket is attached.
unfoldable pub attachments : ℕ → Session → ℕ
attachments k s = count_of k s.read_only_sockets + (if holds s.writable_socket k then 1 else 0)

pub take_role-attachments :
    (role : Role) (j k : ℕ) (s : Session)
    → attachments k s ≤ 1
    → attachments k (take_role role j s) ≤ 1
unfolding attachments take_role
take_role-attachments writer j k s h = ground (arith, count_of-delete k j s.read_only_sockets)
take_role-attachments reader j k s h =
    ground (arith, count_of-add k j s.read_only_sockets, has-count_of k s.read_only_sockets)

pub detach-attachments :
    (j k : ℕ) (s : Session) → attachments k s ≤ 1 → attachments k (detach j s) ≤ 1
unfolding attachments detach
detach-attachments j k s h = ground (arith, count_of-delete k j s.read_only_sockets)

-- Other sockets are in a set as before.
pub has-delete : (k j : ℕ) (ks : List ℕ) → (j == k) ≡ false → has k (delete j ks) ≡ has k ks
has-delete k j ks d =
    ground (arith, has-count_of k ks, has-count_of k (delete j ks), count_of-delete k j ks)

pub has-add : (k j : ℕ) (ks : List ℕ) → (j == k) ≡ false → has k (add j ks) ≡ has k ks
has-add k j ks d = ground (arith, has-count_of k ks, has-count_of k (add j ks), count_of-add k j ks)

pub has-add_same : (k : ℕ) (ks : List ℕ) → has k (add k ks) ≡ true
has-add_same k ks =
    ground (arith, has-count_of k ks, has-count_of k (add k ks), count_of-add k k ks)
