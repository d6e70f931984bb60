-- ===== src/Tests/VectorIndex.antt =====
-- Runs of the in-memory vector index.
use merkur_db.Base.{ℕ, [], ◌∷◌, arith}
use merkur_db.Tests.Numbers.{tenths, tenths_lawful}
use merkur_db.Tests.Sample.{alice, bob}
use merkur_db.VectorIndex.Invariant.{
  IsValid, Stores, with_vector, without_vector, new-IsValid, upsert-Stores,
}
use merkur_db.VectorIndex.Removal.{remove-Stores}
use merkur_db.VectorIndex.TopK.{IsTopK, search-IsTopK}
use merkur_db.VectorIndex.{Inner, new, upsert, remove}

one_stored :
    Stores tenths
      (upsert tenths alice (10 ∷ 20 ∷ []) new)
      (with_vector tenths new alice (10 ∷ 20 ∷ []))
one_stored = upsert-Stores tenths alice (10 ∷ 20 ∷ []) new (new-IsValid tenths)

abbrev two : Inner ℕ
two =
    (upsert-Stores tenths bob (20 ∷ 10 ∷ [])
      (upsert-Stores tenths alice (10 ∷ 20 ∷ []) new (new-IsValid tenths)).0
      (upsert-Stores tenths alice (10 ∷ 20 ∷ []) new (new-IsValid tenths)).2).0

two-IsValid : IsValid tenths two
two-IsValid =
    (upsert-Stores tenths bob (20 ∷ 10 ∷ [])
      (upsert-Stores tenths alice (10 ∷ 20 ∷ []) new (new-IsValid tenths)).0
      (upsert-Stores tenths alice (10 ∷ 20 ∷ []) new (new-IsValid tenths)).2).2

upsert-Stores_example :
    Stores tenths (upsert tenths alice (30 ∷ []) two) (with_vector tenths two alice (30 ∷ []))
upsert-Stores_example = upsert-Stores tenths alice (30 ∷ []) two two-IsValid

remove-Stores_example : Stores tenths (remove alice two) (without_vector tenths two alice)
remove-Stores_example = remove-Stores tenths alice two two-IsValid

search-IsTopK_example : IsTopK tenths tenths_lawful (10 ∷ 0 ∷ []) 1 two
search-IsTopK_example =
    search-IsTopK tenths tenths_lawful (10 ∷ 0 ∷ []) 1 two two-IsValid (omega arith)
