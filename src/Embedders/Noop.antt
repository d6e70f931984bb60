-- ===== src/Embedders/Noop.antt =====
-- crates/embedders/src/noop.rs: NoopEmbedder. `seed` is the random generator of a text: the number
-- at each position of its vector, which for the deterministic embedder is a function of the text. The
-- random one, whose numbers differ from call to call, is outside.
use merkur_db.Base.Text.{Text}
use merkur_db.Base.{ℕ, zero, suc, List, [], ◌∷◌, map, ◌==◌, if◌then◌else◌}
use merkur_db.Core.Float.{Float}
use merkur_db.Core.Http.{then_}
use merkur_db.Core.Storage.{Embedder}
use merkur_db.Core.Types.{MerkurResult, ok}
use merkur_db.Embedders.{failed}

module _ {F : Type 0} (f : Float F) where
  -- `(0..dim).map(..)`: the numbers from a position on.
  unfoldable pub numbers : (ℕ → F) → ℕ → ℕ → List F
  numbers gen i zero = []
  numbers gen i (suc n) = gen i ∷ numbers gen (suc i) n

  unfoldable pub squares : F → List F → F
  squares acc [] = acc
  squares acc (x ∷ v) = squares (f.add acc (f.mul x x)) v

  unfoldable pub zeros : ℕ → List F
  zeros zero = []
  zeros (suc n) = f.of_nat 0 ∷ zeros n

  -- The canonical unit vector in place of a zero vector.
  unfoldable pub fallback : ℕ → List F
  unfolding zeros
  fallback zero = []
  fallback (suc n) = f.of_nat 1 ∷ zeros n

  unfoldable pub normalized : ℕ → List F → List F
  unfolding squares fallback
  normalized dim vec =
      let norm = f.sqrt (squares (f.of_nat 0) vec) in
      if f.lt (f.of_nat 0) norm then map (λ x. f.div x norm) vec else fallback dim

  module _ (seed : Text → ℕ → F) where
    unfoldable pub make_vector : ℕ → Text → MerkurResult (List F)
    unfolding normalized numbers
    make_vector dim text =
        if dim == 0 then failed else ok (normalized dim (numbers (seed text) 0 dim))

    unfoldable pub noop_encode_batch : ℕ → List Text → MerkurResult (List (List F))
    unfolding make_vector
    noop_encode_batch dim [] = ok []
    noop_encode_batch dim (t ∷ texts) =
        then_ (make_vector dim t)
          (λ vec. then_ (noop_encode_batch dim texts) (λ vecs. ok (vec ∷ vecs)))

    unfoldable pub noop_embedder : ℕ → Embedder F
    unfolding make_vector noop_encode_batch
    noop_embedder dim = record {
      dim = dim;
      encode = make_vector dim;
      encode_batch = noop_encode_batch dim;
    }
