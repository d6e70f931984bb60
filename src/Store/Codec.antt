-- ===== src/Store/Codec.antt =====
-- The blob of an embedding: vec_f32_to_bytes and bytes_to_vec_f32 of crates/storage/src/sqlite.rs
-- and blob_to_f32 of crates/storage/src/sqlite_helpers.rs. An `f32` is its bit pattern, a number
-- below 2^32.
use mathlib.Core.Path.{ap₂}
use merkur_db.Base.{
  ℕ, ◌+◌, ◌*◌, ◌/◌, ◌%◌, ◌^◌, ◌<◌, ◌≡◌, refl, List, [], ◌∷◌, ◌++◌, All, length, arith,
}

-- `f32::to_le_bytes`
abbrev pub to_le_bytes : ℕ → List ℕ
to_le_bytes w = w % 256 ∷ w / 256 % 256 ∷ w / 65536 % 256 ∷ w / 16777216 % 256 ∷ []

-- `f32::from_le_bytes`
abbrev pub from_le_bytes : ℕ → ℕ → ℕ → ℕ → ℕ
from_le_bytes a b c d = a + 256 * b + 65536 * c + 16777216 * d

unfoldable pub vec_f32_to_bytes : List ℕ → List ℕ
vec_f32_to_bytes [] = []
vec_f32_to_bytes (w ∷ ws) = to_le_bytes w ++ vec_f32_to_bytes ws

-- `as_chunks::<4>().0`: the bytes behind the last whole chunk are dropped.
unfoldable pub blob_to_f32 : List ℕ → List ℕ
blob_to_f32 (a ∷ b ∷ c ∷ d ∷ bytes) = from_le_bytes a b c d ∷ blob_to_f32 bytes
blob_to_f32 (a ∷ b ∷ c ∷ []) = []
blob_to_f32 (a ∷ b ∷ []) = []
blob_to_f32 (a ∷ []) = []
blob_to_f32 [] = []

unfoldable pub bytes_to_vec_f32 : List ℕ → List ℕ
unfolding blob_to_f32
bytes_to_vec_f32 bytes = blob_to_f32 bytes

abbrev pub IsWord : ℕ → Type 0
IsWord w = w < 2 ^ 32

abbrev pub IsByte : ℕ → Type 0
IsByte b = b < 256

-- A vector of 32-bit patterns takes four bytes for each, and is read back from its blob exactly,
-- whatever bytes were appended that make up no whole chunk.
pub blob_to_f32-vec_f32_to_bytes :
    (ws rest : List ℕ)
    → All IsWord ws
    → length rest < 4
    → (blob_to_f32 (vec_f32_to_bytes ws ++ rest) ≡ ws)
      × (length (vec_f32_to_bytes ws) ≡ 4 * length ws)
unfolding blob_to_f32 vec_f32_to_bytes
blob_to_f32-vec_f32_to_bytes [] [] h k = (refl, omega arith)
blob_to_f32-vec_f32_to_bytes [] (a ∷ []) h k = (refl, omega arith)
blob_to_f32-vec_f32_to_bytes [] (a ∷ b ∷ []) h k = (refl, omega arith)
blob_to_f32-vec_f32_to_bytes [] (a ∷ b ∷ c ∷ []) h k = (refl, omega arith)
blob_to_f32-vec_f32_to_bytes [] (a ∷ b ∷ c ∷ d ∷ rest) h k = absurd (omega arith)
blob_to_f32-vec_f32_to_bytes (w ∷ ws) rest h k =
    let (back, len) = blob_to_f32-vec_f32_to_bytes ws rest h.1 k in
    (ap₂ ◌∷◌ (omega arith) back, omega (arith, len))
