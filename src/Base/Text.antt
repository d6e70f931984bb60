-- ===== src/Base/Text.antt =====
-- A Rust string as the list of its code points: equality, the order of `str::cmp` (UTF-8 keeps the
-- order of code points), the length in bytes, `trim`, `split_whitespace` and `split`.
use Prim.Native.Char.{code}
use Prim.Native.Nat.{ℕ, ◌+◌, ◌*◌, ◌≤◌}
use Prim.Native.String.{String}
use mathlib.Core.Bool.{Bool, true, false, ◌&&◌, ◌||◌}
use mathlib.Core.List.{List, [], ◌∷◌, reverse}
use mathlib.Core.Path.{◌≡◌, refl, ap₂}
use native.Mathlib.Decide.{ℕ_discrete}
use native.Mathlib.Omega.{arith}
use mathlib.Core.Logic.{inl, inr}
use mathlib.Core.Option.{Option, none, some}
use merkur_db.Base.Lists.{length, any, In}
use merkur_db.Base.Tests.{ltb, leb, ◌==◌, if◌then◌else◌, holds, Bool-cases}

abbrev pub Text : Type 0
Text = List ℕ

abbrev pub codes : String → Text
codes String.[] = []
codes (String.◌∷◌ c s) = code c ∷ codes s

unfoldable pub text_dec : Discrete Text
unfolding ℕ_discrete
text_dec [] [] = yes refl
text_dec [] (y ∷ b) = no (λ e. cc)
text_dec (x ∷ a) [] = no (λ e. cc)
text_dec (x ∷ a) (y ∷ b) = elim (ℕ_discrete x y) [
  | yes p ↦ elim (text_dec a b) [ yes q ↦ yes (ap₂ ◌∷◌ p q) | no q ↦ no (λ e. q (cc)) ]
  | no p ↦ no (λ e. p (cc))
]

abbrev pub text_eq : Text → Text → Bool
text_eq a b = holds (text_dec a b)

pub text_eq_refl : (a : Text) → text_eq a a ≡ true
text_eq_refl a = ground arith

pub text_eq-In : (t : Text) (ids : List Text) → any (text_eq t) ids ≡ true → In t ids
text_eq-In t [] h = absurd (ground arith)
text_eq-In t (id ∷ ids) h = elim (Bool-cases (text_eq t id)) [
  | inl e ↦ inl (ground (arith, e))
  | inr e ↦ inr (text_eq-In t ids (ground (arith, h, e)))
]

-- `a <= b` on strings.
unfoldable pub text_le : Text → Text → Bool
text_le [] b = true
text_le (x ∷ a) [] = false
text_le (x ∷ a) (y ∷ b) = if ltb x y then true else if ltb y x then false else text_le a b

pub text_le_total : (a b : Text) → text_le a b ≡ false → text_le b a ≡ true
unfolding text_le
text_le_total [] b h = absurd (ground arith)
text_le_total (x ∷ a) [] h = refl
text_le_total (x ∷ a) (y ∷ b) h = ground (arith, text_le_total a b)

pub text_le_trans : (a b c : Text) → text_le a b ≡ true → text_le b c ≡ true → text_le a c ≡ true
unfolding text_le
text_le_trans [] b c h k = refl
text_le_trans (x ∷ a) [] c h k = absurd (ground arith)
text_le_trans (x ∷ a) (y ∷ b) [] h k = absurd (ground arith)
text_le_trans (x ∷ a) (y ∷ b) (z ∷ c) h k = ground (arith, text_le_trans a b c)

pub text_le_antisymm : (a b : Text) → text_le a b ≡ true → text_le b a ≡ true → a ≡ b
unfolding text_le
text_le_antisymm [] [] h k = refl
text_le_antisymm [] (y ∷ b) h k = absurd (ground arith)
text_le_antisymm (x ∷ a) [] h k = absurd (ground arith)
text_le_antisymm (x ∷ a) (y ∷ b) h k = ground (arith, text_le_antisymm a b)

-- `str::len`: bytes of UTF-8.
abbrev pub utf8_len : ℕ → ℕ
utf8_len c = if ltb c 0x80 then 1 else if ltb c 0x800 then 2 else if ltb c 0x10000 then 3 else 4

abbrev pub byte_len : Text → ℕ
byte_len [] = 0
byte_len (c ∷ s) = utf8_len c + byte_len s

pub byte_len_bounds : (s : Text) → (length s ≤ byte_len s) × (byte_len s ≤ 4 * length s)
byte_len_bounds [] = (omega arith, omega arith)
byte_len_bounds (c ∷ s) = ground (arith, byte_len_bounds s)

-- `str::strip_prefix`
unfoldable pub strip_prefix : Text → Text → Option Text
strip_prefix [] s = some s
strip_prefix (c ∷ p) [] = none
strip_prefix (c ∷ p) (d ∷ s) = if c == d then strip_prefix p s else none

-- `char::is_whitespace` (the Unicode property White_Space).
unfoldable pub is_whitespace : ℕ → Bool
is_whitespace c =
    (leb 0x9 c && leb c 0xd)
    || c == 0x20
    || c == 0x85
    || c == 0xa0
    || c == 0x1680
    || (leb 0x2000 c && leb c 0x200a)
    || c == 0x2028
    || c == 0x2029
    || c == 0x202f
    || c == 0x205f
    || c == 0x3000

unfoldable pub trim_start : Text → Text
trim_start [] = []
trim_start (c ∷ s) = if is_whitespace c then trim_start s else c ∷ s

unfoldable pub trim_end : Text → Text
trim_end [] = []
trim_end (c ∷ s) = elim (trim_end s) [
  | [] ↦ if is_whitespace c then [] else c ∷ []
  | x ∷ rest ↦ c ∷ x ∷ rest
]

unfoldable pub trim : Text → Text
unfolding trim_start trim_end is_whitespace
trim s = trim_end (trim_start s)

-- The pieces between the characters that pass a test; `piece` is the one in progress, reversed.
unfoldable pub split_on : (ℕ → Bool) → Text → Text → List Text
split_on p piece [] = reverse piece ∷ []
split_on p piece (c ∷ s) =
    let cut = reverse piece ∷ split_on p [] s in
    let more = split_on p (c ∷ piece) s in if p c then cut else more
