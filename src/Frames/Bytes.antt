-- ===== src/Frames/Bytes.antt =====
-- The big-endian integers of Node's `Buffer`, as src/protocol.mjs writes and reads them.
use sandking.Base.{ℕ, ◌+◌, ◌*◌, ◌/◌, ◌%◌, ◌≤◌, ◌≡◌, refl, List, [], ◌∷◌, ◌++◌, length, arith}

abbrev pub Bytes : Type 0
Bytes = List ℕ

-- `writeUInt16BE(n, 0)`, for a number in range.
unfoldable pub u16_be : ℕ → Bytes
u16_be n = (n / 256) ∷ (n % 256) ∷ []

-- `writeUInt32BE(n, 0)`, for a number in range.
unfoldable pub u32_be : ℕ → Bytes
u32_be n = (n / 16777216) ∷ (n / 65536 % 256) ∷ (n / 256 % 256) ∷ (n % 256) ∷ []

-- `readUInt16BE(0)`; the callers have checked that the bytes are there.
unfoldable pub read_u16_be : Bytes → ℕ
read_u16_be (a ∷ b ∷ rest) = a * 256 + b
read_u16_be _ = 0

-- `readUInt32BE(0)`; the callers have checked that the bytes are there.
unfoldable pub read_u32_be : Bytes → ℕ
read_u32_be (a ∷ b ∷ c ∷ d ∷ rest) = a * 16777216 + b * 65536 + c * 256 + d
read_u32_be _ = 0

pub read_u16_be-u16_be : (n : ℕ) (rest : Bytes) → read_u16_be (u16_be n ++ rest) ≡ n
unfolding read_u16_be u16_be
read_u16_be-u16_be n rest = omega arith

pub read_u32_be-u32_be : (n : ℕ) (rest : Bytes) → read_u32_be (u32_be n ++ rest) ≡ n
unfolding read_u32_be u32_be
read_u32_be-u32_be n rest = omega arith

-- Four bytes decide the number that is read.
pub read_u32_be-append : (b c : Bytes) → 4 ≤ length b → read_u32_be (b ++ c) ≡ read_u32_be b
unfolding read_u32_be
read_u32_be-append (w ∷ x ∷ y ∷ z ∷ b) c h = refl
read_u32_be-append _ c h = absurd (omega arith)

pub length-u32_be : (n : ℕ) → length (u32_be n) ≡ 4
unfolding u32_be
length-u32_be n = refl
