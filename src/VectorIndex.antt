-- ===== src/VectorIndex.antt =====
-- crates/storage/src/vector_index.rs: the in-memory index, parallel vectors with a map from ids to
-- positions. `none` is a panic: an index out of range, or the length of an empty vector less one.
pub mod Slots
pub mod Invariant
pub mod Removal
pub mod TopK
pub mod Complete
use merkur_db.Base.Sort.{insert_by, sort_by}
use merkur_db.Base.Text.{Text, text_eq}
use merkur_db.Base.{
  ℕ, zero, suc, ◌+◌, ◌-◌, Bool, true, false, not, ◌||◌, ◌&&◌, List, [], ◌∷◌, ◌++◌, map, Option,
  none, some, ltb, leb, ◌==◌, if◌then◌else◌, length, get_elem?,
}
use merkur_db.Core.Float.{Float}
use merkur_db.Core.Types.{Map}

infixl 5 ◌>>=◌
abbrev pub ◌>>=◌ {ℓ κ} : {A : Type ℓ} {B : Type κ} → Option A → (A → Option B) → Option B
none >>= f = none
some a >>= f = f a

module _ {ℓ} {A : Type ℓ} where
  -- `v[i] = a`
  unfoldable pub set? : List A → ℕ → A → Option (List A)
  set? [] i a = none
  set? (x ∷ xs) zero a = some (a ∷ xs)
  set? (x ∷ xs) (suc i) a = do ys ← set? xs i a; some (x ∷ ys)

  -- `v.swap(i, j)`
  unfoldable pub swap? : List A → ℕ → ℕ → Option (List A)
  unfolding set?
  swap? xs i j = do a ← get_elem? xs i; b ← get_elem? xs j; ys ← set? xs i b; set? ys j a

  -- `v.pop()`, its result dropped
  unfoldable pub pop : List A → List A
  pop [] = []
  pop (x ∷ []) = []
  pop (x ∷ y ∷ xs) = x ∷ pop (y ∷ xs)

-- The hash map from ids to positions, as its lookup function.
abbrev pub Positions : Type 0
Positions = Text → Option ℕ

abbrev pub put : Text → ℕ → Positions → Positions
put k i m q = if text_eq q k then some i else m q

abbrev pub erase : Text → Positions → Positions
erase k m q = if text_eq q k then none else m q

pub record Inner (F : Type 0) : Type 0 where
  pub ids : List Text
  pub vectors : List (List F)
  pub norms : List F
  pub index_of : Positions

unfoldable pub new : {F : Type 0} → Inner F
new = record { ids = []; vectors = []; norms = []; index_of = λ q. none }

module _ {F : Type 0} where
  -- The swap of the removed slot with the last, and the new position of the moved id.
  swap_last : ℕ → ℕ → Inner F → Option (Inner F)
  unfolding swap?
  swap_last idx last s = do
    ids ← swap? s.ids idx last
    vectors ← swap? s.vectors idx last
    norms ← swap? s.norms idx last
    moved_id ← get_elem? ids idx
    some (record {
      ids = ids;
      vectors = vectors;
      norms = norms;
      index_of = put moved_id idx s.index_of;
    })

  drop_last : Inner F → Inner F
  unfolding pop
  drop_last s = record s { ids = pop s.ids; vectors = pop s.vectors; norms = pop s.norms }

  unfoldable pub remove : Text → Inner F → Option (Inner F)
  unfolding swap_last drop_last
  remove id s = elim (s.index_of id) [
    | none ↦ some s
    | some idx ↦
        if length s.ids == 0
        then none
        else let last = length s.ids - 1 in
          let s' = record s { index_of = erase id s.index_of } in
          do t ← if idx == last then some s' else swap_last idx last s'; some (drop_last t)
  ]

  -- `inner.ids[i].to_string()` for each pair.
  pub name_all : List Text → List (F × ℕ) → Option (List (Text × F))
  name_all ids [] = some []
  name_all ids ((score, i) ∷ heap) = do
    id ← get_elem? ids i
    rest ← name_all ids heap
    some ((id, score) ∷ rest)

  -- The abstract content of the index: the vector that is stored under an id.
  unfoldable pub vector_of : Inner F → Text → Option (List F)
  vector_of s id = do idx ← s.index_of id; get_elem? s.vectors idx

module _ {F : Type 0} (f : Float F) where
  -- `iter().sum()` on floats starts from -0.0.
  unfoldable pub sum : List F → F
  sum xs = go (f.neg (f.of_nat 0)) xs
    where
      go : F → List F → F
      go acc [] = acc
      go acc (y ∷ ys) = go (f.add acc y) ys

  unfoldable pub l2_norm : List F → F
  unfolding sum
  l2_norm v = f.sqrt (sum (map (λ x. f.mul x x) v))

  unfoldable pub products : List F → List F → List F
  products (x ∷ xs) (y ∷ ys) = f.mul x y ∷ products xs ys
  products _ _ = []

  unfoldable pub cosine_similarity : List F → List F → F → F → F
  unfolding sum products
  cosine_similarity a b norm_a norm_b =
      if not (length a == length b) || f.feq norm_a (f.of_nat 0) || f.feq norm_b (f.of_nat 0)
      then f.of_nat 0
      else f.div (sum (products a b)) (f.mul norm_a norm_b)

  unfoldable pub upsert : Text → List F → Inner F → Option (Inner F)
  unfolding set? l2_norm
  upsert id vec s = elim (s.index_of id) [
    | some idx ↦ do
      vectors ← set? s.vectors idx vec
      norms ← set? s.norms idx (l2_norm vec)
      some (record s { vectors = vectors; norms = norms })
    | none ↦ some (record {
      ids = s.ids ++ id ∷ [];
      vectors = s.vectors ++ vec ∷ [];
      norms = s.norms ++ l2_norm vec ∷ [];
      index_of = put id (length s.ids) s.index_of;
    })
  ]

  unfoldable pub upsert_all : List (Text × List F) → Inner F → Option (Inner F)
  unfolding upsert
  upsert_all [] s = some s
  upsert_all ((id, vec) ∷ all) s = do t ← upsert id vec s; upsert_all all t

  unfoldable pub rebuild : List (Text × List F) → Inner F → Option (Inner F)
  unfolding upsert_all new
  rebuild all s = upsert_all all new

  -- `(TotalF64, usize)`: by score, then by position. The heap holds `Reverse`d pairs, so `pop`
  -- takes the least pair; here it is the list of its pairs, the greatest first.
  abbrev pub not_less : F × ℕ → F × ℕ → Bool
  not_less (a, i) (b, j) =
      if f.total_le b a then (if f.total_le a b then leb j i else true) else false

  heap_push : ℕ → F × ℕ → List (F × ℕ) → List (F × ℕ)
  unfolding pop insert_by
  heap_push limit p heap =
      let pushed = insert_by not_less p heap in
      if ltb limit (length pushed) then pop pushed else pushed

  -- The loop over the stored vectors, from position `i` on.
  scan : List F → F → ℕ → ℕ → List (List F) → List F → List (F × ℕ) → Option (List (F × ℕ))
  unfolding heap_push cosine_similarity
  scan query query_norm limit i [] norms heap = some heap
  scan query query_norm limit i (vec ∷ vectors) [] heap = none
  scan query query_norm limit i (vec ∷ vectors) (norm ∷ norms) heap =
      scan query query_norm limit (suc i) vectors norms
        (heap_push limit (cosine_similarity query vec query_norm norm, i) heap)

  abbrev pub best_first : {A : Type 0} → (A × F) → (A × F) → Bool
  best_first a b = f.total_le b.1 a.1

  unfoldable pub search : List F → ℕ → Inner F → Option (List (Text × F))
  unfolding scan name_all l2_norm sort_by
  search query limit s = if limit == 0 then some [] else do
    heap ← scan query (l2_norm query) limit 0 s.vectors s.norms []
    results ← name_all s.ids heap
    some (sort_by best_first results)
