-- ===== src/VectorIndex/Slots.antt =====
-- What can be read after a write, a swap, a push and a pop on a vector.
use merkur_db.Base.{
  ℕ, zero, suc, ◌-◌, ◌<◌, ◌≤◌, ◌≡◌, refl, ap, List, [], ◌∷◌, ◌++◌, none, some, arith, ltb, ◌==◌,
  if◌then◌else◌, length, get_elem?, length-append, get_elem?_lt,
}
use merkur_db.VectorIndex.{set?, swap?, pop}

module _ {A : Type 0} where
  -- A write in range succeeds, keeps the length, and changes the one slot.
  pub set?_lem :
      (xs : List A) (i : ℕ) (a : A)
      → i < length xs
      → (ys : List A) × (set? xs i a ≡ some ys)
        × (length ys ≡ length xs)
        × ((j : ℕ) → get_elem? ys j ≡ (if j == i then some a else get_elem? xs j))
  unfolding set?
  set?_lem [] i a h = absurd (omega arith)
  set?_lem (x ∷ xs) zero a h = (a ∷ xs, refl, refl, read)
    where
      read : (j : ℕ) → get_elem? (a ∷ xs) j ≡ (if j == 0 then some a else get_elem? (x ∷ xs) j)
      read zero = refl
      read (suc j) = ground arith
  set?_lem (x ∷ xs) (suc i) a h =
      let (ys, e, len, read) = set?_lem xs i a (omega arith) in
      (x ∷ ys, rw e, ap suc len, λ j. step ys read j)
    where
      step :
          (ys : List A)
          → ((j : ℕ) → get_elem? ys j ≡ (if j == i then some a else get_elem? xs j))
          → (j : ℕ) → get_elem? (x ∷ ys) j ≡ (if j == suc i then some a else get_elem? (x ∷ xs) j)
      step ys read zero = ground arith
      step ys read (suc j) = ground (arith, read j)

  pub get_elem?-push :
      (xs : List A) (a : A) (j : ℕ)
      → get_elem? (xs ++ a ∷ []) j ≡ (if j == length xs then some a else get_elem? xs j)
  get_elem?-push [] a zero = refl
  get_elem?-push [] a (suc j) = ground arith
  get_elem?-push (x ∷ xs) a zero = ground arith
  get_elem?-push (x ∷ xs) a (suc j) = ground (arith, get_elem?-push xs a j)

  pub length-push : (xs : List A) (a : A) → length (xs ++ a ∷ []) ≡ suc (length xs)
  length-push xs a = omega (arith, length-append xs (a ∷ []))

  pub length-pop : (xs : List A) → length (pop xs) ≡ length xs - 1
  unfolding pop
  length-pop [] = refl
  length-pop (x ∷ []) = refl
  length-pop (x ∷ y ∷ xs) = omega (arith, length-pop (y ∷ xs))

  pub get_elem?-pop :
      (xs : List A) (j : ℕ)
      → get_elem? (pop xs) j ≡ (if ltb (suc j) (length xs) then get_elem? xs j else none)
  unfolding pop
  get_elem?-pop [] j = ground arith
  get_elem?-pop (x ∷ []) zero = refl
  get_elem?-pop (x ∷ []) (suc j) = ground arith
  get_elem?-pop (x ∷ y ∷ xs) zero = ground arith
  get_elem?-pop (x ∷ y ∷ xs) (suc j) = ground (arith, get_elem?-pop (y ∷ xs) j)

  get_elem?-none : (xs : List A) (j : ℕ) → length xs ≤ j → get_elem? xs j ≡ none
  get_elem?-none [] j h = refl
  get_elem?-none (x ∷ xs) zero h = absurd (omega arith)
  get_elem?-none (x ∷ xs) (suc j) h = get_elem?-none xs j (omega arith)

  -- Swapping a slot with the last and popping moves the last element into the slot.
  pub swap?-pop :
      (xs : List A) (i last : ℕ)
      → i < last
      → suc last ≡ length xs
      → (ys : List A) × (swap? xs i last ≡ some ys)
        × (length ys ≡ length xs)
        × (get_elem? ys i ≡ get_elem? xs last)
        × ((j : ℕ)
            → get_elem? (pop ys) j
              ≡ (if j == i then get_elem? xs last else if ltb j last then get_elem? xs j else none))
  unfolding swap?
  swap?-pop xs i last h e =
      let (a, ea) = get_elem?_lt xs i (omega arith) in
      let (b, eb) = get_elem?_lt xs last (omega arith) in
      let (ys, ey, ly, ry) = set?_lem xs i b (omega arith) in
      let (zs, ez, lz, rz) = set?_lem ys last a (omega arith) in
      (
        zs,
        ground arith,
        omega arith,
        ground (arith, rz i, ry i),
        λ j. ground (arith, get_elem?-pop zs j, rz j, ry j),
      )
