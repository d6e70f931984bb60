-- ===== src/Tests/Numbers.antt =====
-- Fixed-point numbers with one decimal, as an instance of the operations on `f64`.
use merkur_db.Base.{
  ℕ, zero, suc, ◌+◌, ◌*◌, ◌/◌, ◌^◌, min, max, ltb, leb, ◌==◌, arith, if◌then◌else◌,
}
use merkur_db.Core.Float.{Float, FloatLaws}

abbrev power : ℕ → ℕ → ℕ
power a zero = 10
power a (suc n) = a * power a n / 10

abbrev pub tenths : Float ℕ
tenths = record {
  lit = λ n d. n * 10 / 10 ^ d;
  of_nat = λ n. n * 10;
  ln_2 = 7;
  add = λ a b. a + b;
  mul = λ a b. a * b / 10;
  div = λ a b. if b == 0 then 0 else a * 10 / b;
  neg = λ a. 0;
  exp = λ a. 10;
  ln = λ a. a;
  sqrt = λ a. a;
  powi = power;
  fmin = λ a b. min a b;
  fmax = λ a b. max a b;
  lt = ltb;
  ge = λ a b. leb b a;
  feq = λ a b. a == b;
  total_le = leb;
}

pub tenths_lawful : FloatLaws tenths
tenths_lawful = record {
  total_le_refl = λ a. ground arith;
  total_le_trans = λ a b c h k. ground arith;
  total_le_total = λ a b h. ground arith;
  total_le_antisymm = λ a b h k. ground arith;
  lt_trans = λ a b c h k. ground arith;
  ge_of_lt = λ a b h. ground arith;
}
