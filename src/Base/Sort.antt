-- ===== src/Base/Sort.antt =====
-- The stable sort of the standard library (`sort_by`), by a test that says "not after", and the
-- facts that fix its result: it is sorted, a permutation, and the only one if the order is total.
use Prim.Native.Nat.{ℕ, zero, suc}
use mathlib.Core.Bool.{Bool, true, false}
use mathlib.Core.List.Perm
use mathlib.Core.List.{
  List, [], ◌∷◌, Mem, Perm, mem-cons_self, not-mem-nil, eq-or-mem_of_mem-cons, mem-cons_of_mem,
}
use mathlib.Core.Logic.Or
use mathlib.Core.Logic.{inl, inr}
use mathlib.Core.Path.{◌≡◌, refl, sym, ap, ap₂, ◌∙◌, subst}
use native.Mathlib.Omega.{arith}
use merkur_db.Base.Lists.{length, take, any, All}
use merkur_db.Base.Tests.{if◌then◌else◌, Bool-cases}

module _ {ℓ} {A : Type ℓ} (le : A → A → Bool) where
  unfoldable pub insert_by : A → List A → List A
  insert_by x [] = x ∷ []
  insert_by x (y ∷ ys) = if le x y then x ∷ y ∷ ys else y ∷ insert_by x ys

  unfoldable pub sort_by : List A → List A
  unfolding insert_by
  sort_by [] = []
  sort_by (x ∷ xs) = insert_by x (sort_by xs)

  -- Each element comes no later than any behind it.
  abbrev pub IsSorted : List A → Type 0
  IsSorted [] = Unit
  IsSorted (x ∷ xs) = All (λ y. le x y ≡ true) xs × IsSorted xs

module _ {ℓ} {A : Type ℓ} (le : A → A → Bool) where
  pub length-insert_by : (x : A) (ys : List A) → length (insert_by le x ys) ≡ suc (length ys)
  unfolding insert_by
  length-insert_by x [] = refl
  length-insert_by x (y ∷ ys) = ground (arith, length-insert_by x ys)

  pub length-sort_by : (xs : List A) → length (sort_by le xs) ≡ length xs
  unfolding sort_by
  length-sort_by [] = refl
  length-sort_by (x ∷ xs) = omega (arith, length-insert_by x (sort_by le xs), length-sort_by xs)

  pub insert_by-perm : (x : A) (ys : List A) → Perm (insert_by le x ys) (x ∷ ys)
  unfolding insert_by
  insert_by-perm x [] = Perm.rfl
  insert_by-perm x (y ∷ ys) = elim (Bool-cases (le x y)) [
    | inl h ↦ rw h Perm.rfl
    | inr h ↦ rw h (Perm.trans (Perm.cons y (insert_by-perm x ys)) (Perm.swap x y ys))
  ]

  pub sort_by-perm : (xs : List A) → Perm (sort_by le xs) xs
  unfolding sort_by
  sort_by-perm [] = Perm.rfl
  sort_by-perm (x ∷ xs) =
      Perm.trans (insert_by-perm x (sort_by le xs)) (Perm.cons x (sort_by-perm xs))

  module _ {κ} (P : A → Type κ) where
    pub All-insert_by : (x : A) (ys : List A) → P x → All P ys → All P (insert_by le x ys)
    unfolding insert_by
    All-insert_by x [] p h = (p, tt)
    All-insert_by x (y ∷ ys) p h = ground (arith, All-insert_by x ys p h.1)

    pub All-sort_by : (xs : List A) → All P xs → All P (sort_by le xs)
    unfolding sort_by
    All-sort_by [] h = tt
    All-sort_by (x ∷ xs) h = All-insert_by x (sort_by le xs) h.0 (All-sort_by xs h.1)

  module _ {κ} (P : A → Type κ) where
    All-of_insert_by : (x : A) (ys : List A) → All P (insert_by le x ys) → P x × All P ys
    unfolding insert_by
    All-of_insert_by x [] h = h
    All-of_insert_by x (y ∷ ys) h = elim (Bool-cases (le x y)) [
      | inl e ↦ (rw e at h)
      | inr e ↦ let k = All-of_insert_by x ys (rw e at h).1 in (k.0, ((rw e at h).0, k.1))
    ]

    -- What holds of all of the sorted list holds of all of the list.
    pub All-of_sort_by : (xs : List A) → All P (sort_by le xs) → All P xs
    unfolding sort_by
    All-of_sort_by [] h = tt
    All-of_sort_by (x ∷ xs) h =
        let k = All-of_insert_by x (sort_by le xs) h in (k.0, All-of_sort_by xs k.1)

  -- To keep the first `n`, the first `n` before an insertion are all that matter.
  pub take-insert_by-take :
      (n : ℕ) (x : A) (ys : List A)
      → take n (insert_by le x (take n ys)) ≡ take n (insert_by le x ys)
  unfolding insert_by
  take-insert_by-take zero x ys = refl
  take-insert_by-take (suc n) x [] = refl
  take-insert_by-take (suc n) x (y ∷ ys) = elim (Bool-cases (le x y)) [
    | inl h ↦ rw h (ap (◌∷◌ x) (take-cons n y ys))
    | inr h ↦ rw h (ap (◌∷◌ y) (take-insert_by-take n x ys))
  ]
    where
      take-take : (m : ℕ) (zs : List A) → take m (take m zs) ≡ take m zs
      take-take zero zs = refl
      take-take (suc m) [] = refl
      take-take (suc m) (z ∷ zs) = ap (◌∷◌ z) (take-take m zs)

      take-cons : (m : ℕ) (z : A) (zs : List A) → take m (z ∷ take m zs) ≡ take m (z ∷ zs)
      take-cons zero z zs = refl
      take-cons (suc m) z [] = refl
      take-cons (suc m) z (w ∷ zs) = ap (◌∷◌ z) (take-cons m w zs)

  module _ (trans : (a b c : A) → le a b ≡ true → le b c ≡ true → le a c ≡ true)
      (total : (a b : A) → le a b ≡ false → le b a ≡ true) where
    pub All-le_trans :
        (x y : A) (zs : List A)
        → le x y ≡ true
        → All (λ z. le y z ≡ true) zs
        → All (λ z. le x z ≡ true) zs
    All-le_trans x y [] h k = tt
    All-le_trans x y (z ∷ zs) h k = (trans x y z h k.0, All-le_trans x y zs h k.1)

    pub insert_by-IsSorted :
        (x : A) (ys : List A) → IsSorted le ys → IsSorted le (insert_by le x ys)
    unfolding insert_by
    insert_by-IsSorted x [] s = (tt, tt)
    insert_by-IsSorted x (y ∷ ys) s = elim (Bool-cases (le x y)) [
      | inl h ↦ rw h ((h, All-le_trans x y ys h s.0), s)
      | inr h ↦
          rw h
            (All-insert_by (λ z. le y z ≡ true) x ys (total x y h) s.0, insert_by-IsSorted x ys s.1)
    ]

    pub sort_by-IsSorted : (xs : List A) → IsSorted le (sort_by le xs)
    unfolding sort_by
    sort_by-IsSorted [] = tt
    sort_by-IsSorted (x ∷ xs) = insert_by-IsSorted x (sort_by le xs) (sort_by-IsSorted xs)

  pub All-mem :
      (x y : A) (zs : List A) → IsSet A → All (λ z. le x z ≡ true) zs → Mem y zs → le x y ≡ true
  All-mem x y [] s h m = absurd (not-mem-nil m)
  All-mem x y (z ∷ zs) s h m =
      Or.elim (hlevel) (eq-or-mem_of_mem-cons m) (λ e. subst (λ w. le x w ≡ true) (sym e) h.0)
        (All-mem x y zs s h.1)

  -- Two sorted lists with the same elements are one, if the order decides between any two.
  pub IsSorted-eq_of_perm :
      IsSet A
      → ((a : A) → le a a ≡ true)
      → ((a b : A) → le a b ≡ true → le b a ≡ true → a ≡ b)
      → (xs ys : List A) → IsSorted le xs
      → IsSorted le ys
      → Perm xs ys
      → xs ≡ ys
  IsSorted-eq_of_perm st r anti [] ys s t p = Perm.nil-eq p
  IsSorted-eq_of_perm st r anti (x ∷ xs) [] s t p = Perm.eq-nil p
  IsSorted-eq_of_perm st r anti (x ∷ xs) (y ∷ ys) s t p =
      let below = λ (a b : A) (zs : List A) (h : All (λ z. le a z ≡ true) zs) (m : Mem b (a ∷ zs)).
        All-mem a b (a ∷ zs) st (r a, h) m in
      let heads =
        anti x y (below x y xs s.0 ((Perm.mem_iff p).1 mem-cons_self))
          (below y x ys t.0 ((Perm.mem_iff p).0 mem-cons_self)) in
      let tails = Perm.cons_inv (Perm.trans p (Perm.symm (Perm.cons' heads Perm.rfl))) in
      ap₂ ◌∷◌ heads (IsSorted-eq_of_perm st r anti xs ys s.1 t.1 tails)

module _ {ℓ} {A : Type ℓ} (p : A → Bool) where
  any_of_mem : (x : A) (xs : List A) → Mem x xs → p x ≡ true → any p xs ≡ true
  any_of_mem x [] m h = absurd (not-mem-nil m)
  any_of_mem x (y ∷ ys) m h = elim (Bool-cases (p y)) [
    | inl e ↦ rw e refl
    | inr e ↦ rw e (
        Or.elim (hlevel) (eq-or-mem_of_mem-cons m)
          (λ same. absurd (true-false (sym h ∙ ap p same ∙ e))) (λ later. any_of_mem x ys later h))
  ]
    where
      true-false : true ≡ false → ⊥
      true-false e = ground arith

  -- A test that passes on an element of a list passes on one of any rearrangement of it.
  pub any-perm : (xs ys : List A) → Perm xs ys → any p xs ≡ true → any p ys ≡ true
  any-perm xs ys r h = let (x, m, e) = found xs h in any_of_mem x ys ((Perm.mem_iff r).0 m) e
    where
      found : (xs : List A) → any p xs ≡ true → (x : A) × Mem x xs × (p x ≡ true)
      found [] h = absurd (ground arith)
      found (x ∷ xs) h = elim (Bool-cases (p x)) [
        | inl e ↦ (x, mem-cons_self, e)
        | inr e ↦ let (y, m, k) = found xs (rw e at h) in (y, mem-cons_of_mem x m, k)
      ]
