-- ===== src/Core/Float.antt =====
-- `f64` as the operations that the program uses. The library has no floats, so a type with these
-- operations is a parameter of every definition that computes with scores; what is documented of
-- their order (IEEE 754, `f64::total_cmp`) is the record of laws.
use mathlib.Core.HLevel.{hedberg}
use merkur_db.Base.{ℕ, Bool, true, false, ◌≡◌, arith, inl, inr, Bool-cases}

pub record Float (F : Type 0) : Type 0 where
  -- a decimal literal: `lit 92 2` is 0.92
  pub lit : ℕ → ℕ → F
  -- `n as f64`
  pub of_nat : ℕ → F
  pub ln_2 : F
  pub add : F → F → F
  pub mul : F → F → F
  pub div : F → F → F
  pub neg : F → F
  pub exp : F → F
  pub ln : F → F
  pub sqrt : F → F
  -- `powi(n)`
  pub powi : F → ℕ → F
  -- `f64::min`, `f64::max`
  pub fmin : F → F → F
  pub fmax : F → F → F
  -- `<` and `>=`; both fail on a NaN
  pub lt : F → F → Bool
  pub ge : F → F → Bool
  -- `==`
  pub feq : F → F → Bool
  -- `a.total_cmp(&b) != Greater`
  pub total_le : F → F → Bool

-- What the order tests of `f64` keep.
pub record FloatLaws {F : Type 0} (f : Float F) : Type 0 where
  pub total_le_refl : (a : F) → f.total_le a a ≡ true
  pub total_le_trans :
      (a b c : F) → f.total_le a b ≡ true → f.total_le b c ≡ true → f.total_le a c ≡ true
  pub total_le_total : (a b : F) → f.total_le a b ≡ false → f.total_le b a ≡ true
  pub total_le_antisymm : (a b : F) → f.total_le a b ≡ true → f.total_le b a ≡ true → a ≡ b
  pub lt_trans : (a b c : F) → f.lt a b ≡ true → f.lt b c ≡ true → f.lt a c ≡ true
  pub ge_of_lt : (a b : F) → f.lt a b ≡ true → f.ge a b ≡ false

module _ {F : Type 0} {f : Float F} (l : FloatLaws f) where
  float_dec : Discrete F
  float_dec a b = elim (Bool-cases (f.total_le a b)) [
    | inr h ↦ no (λ e. ground (arith, l.total_le_refl a))
    | inl h ↦ elim (Bool-cases (f.total_le b a)) [
      | inr k ↦ no (λ e. ground (arith, l.total_le_refl a))
      | inl k ↦ yes (l.total_le_antisymm a b h k)
    ]
  ]

  -- Numbers that `total_cmp` decides form a set.
  pub Float-set : IsSet F
  Float-set = hedberg float_dec
