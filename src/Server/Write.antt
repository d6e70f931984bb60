-- ===== src/Server/Write.antt =====
-- crates/server/src/handlers/write.rs: writing one memory and a batch of memories. The elapsed
-- time in the answers is left out.
pub mod Batch
use merkur_db.Base.Text.{Text, byte_len}
use merkur_db.Base.{
  ℕ, suc, Bool, true, false, List, [], ◌∷◌, ◌++◌, map, length, Option, none, some, ltb,
  if◌then◌else◌, ◌&&◌, not,
}
use merkur_db.Core.Storage.{Act, Storage, Embedder, pure, raise, ◌>>=◌, ◌>>◌}
use merkur_db.Core.Types.{
  Map, Json, NewMemory, WriteItem, MerkurResult, MerkurError, bad_request, ok, err,
  max_content_bytes, max_batch_items,
}
use merkur_db.Store.Insert.{unwrap_or}

-- `config.write`
pub record WriteConfig (F : Type 0) : Type 0 where
  pub dedup_threshold : F
  pub dedup_enabled : Bool
  pub adjudication : Text

-- What an item of a batch failed at, beside its index.
pub data ItemFailure : Type 0 where
  bad_content embed_failed write_failed : ItemFailure

pub data StatusCode : Type 0 where
  created multi_status : StatusCode

pub record BatchResponse : Type 0 where
  pub status : StatusCode
  pub ids : List Text
  pub requested : ℕ
  pub errors : List (ℕ × ItemFailure)

abbrev pub is_empty {ℓ} : {A : Type ℓ} → List A → Bool
is_empty [] = true
is_empty (x ∷ xs) = false

-- `check_content`: the content is not empty and within the limit, in bytes.
unfoldable pub is_valid_content : Text → Bool
is_valid_content content = not (is_empty content) && not (ltb max_content_bytes (byte_len content))

-- The eligible items with their indices, and the errors of the others.
unfoldable pub check_items : ℕ → List WriteItem → List (ℕ × WriteItem) × List (ℕ × ItemFailure)
unfolding is_valid_content
check_items i [] = ([], [])
check_items i (item ∷ items) =
    let rest = check_items (suc i) items in
    if is_valid_content item.content
    then ((i, item) ∷ rest.0, rest.1)
    else (rest.0, (i, bad_content) ∷ rest.1)

unfoldable pub texts_of : List (ℕ × WriteItem) → List Text
texts_of = map λ e. e.1.content

unfoldable pub new_memory : {F : Type 0} → Text → WriteItem → List F → NewMemory F
new_memory namespace item embedding = record {
  content = item.content;
  category = none;
  context = unwrap_or item.context [];
  metadata = unwrap_or item.metadata [];
  embedding = some embedding;
  namespace = namespace;
}

abbrev pub failed_item : ℕ × WriteItem → ℕ × ItemFailure
failed_item item = (item.0, embed_failed)

-- The status of a finished batch.
abbrev pub status_of : List Text → List (ℕ × ItemFailure) → StatusCode
status_of [] (e ∷ errors) = multi_status
status_of [] [] = created
status_of (id ∷ ids) errors = created

module _ {S F : Type 0} (storage : Storage S F) (embedder : Embedder F) (config : WriteConfig F)
    (namespace : Text) where
  unfoldable pub insert_new : NewMemory F → Act S Text
  insert_new mem =
      if config.dedup_enabled
      then storage.insert_memory_dedup mem config.dedup_threshold
      else storage.insert_memory mem

  unfoldable pub write : WriteItem → Act S Text
  unfolding is_valid_content new_memory insert_new
  write req =
      if is_valid_content req.content
      then (do
        embedding ← λ s. (embedder.encode req.content, s)
        insert_new (new_memory namespace req embedding))
      else raise (bad_request [])

  -- An insertion adds its id or its error.
  unfoldable pub recorded :
      ℕ
      → MerkurResult Text
      → List Text × List (ℕ × ItemFailure)
      → List Text × List (ℕ × ItemFailure)
  recorded i (ok id) done = (id ∷ done.0, done.1)
  recorded i (err e) done = (done.0, (i, write_failed) ∷ done.1)

  -- The loop over the items zipped with the embeddings, which ends with the shorter list.
  unfoldable pub insert_items :
      List (ℕ × WriteItem) → List (List F) → S → (List Text × List (ℕ × ItemFailure)) × S
  unfolding recorded new_memory insert_new
  insert_items [] vecs s = (([], []), s)
  insert_items (e ∷ items) [] s = (([], []), s)
  insert_items (e ∷ items) (vec ∷ vecs) s =
      let one = insert_new (new_memory namespace e.1 vec) s in
      let rest = insert_items items vecs one.1 in (recorded e.0 one.0 rest.0, rest.1)

  -- `Vec::new()` for no texts, otherwise one call.
  unfoldable pub embed_all : List Text → MerkurResult (List (List F))
  embed_all [] = ok []
  embed_all (t ∷ texts) = embedder.encode_batch (t ∷ texts)

  unfoldable pub finish_batch :
      ℕ
      → List (ℕ × WriteItem)
      → List (ℕ × ItemFailure)
      → MerkurResult (List (List F))
      → Act S BatchResponse
  unfolding insert_items
  finish_batch requested eligible errors (ok vecs) s =
      let out = insert_items eligible vecs s in
      let all = errors ++ out.0.1 in
      (
        ok (record {
          status = status_of out.0.0 all;
          ids = out.0.0;
          requested = requested;
          errors = all;
        }),
        out.1,
      )
  finish_batch requested eligible errors (err e) s = (
    ok (record {
      status = created;
      ids = [];
      requested = requested;
      errors = errors ++ map failed_item eligible;
    }),
    s,
  )

  unfoldable pub write_batch : List WriteItem → Act S BatchResponse
  unfolding check_items texts_of embed_all finish_batch
  write_batch items =
      let checked = check_items 0 items in
      if ltb max_batch_items (length items)
      then raise (bad_request [])
      else finish_batch (length items) checked.0 checked.1 (embed_all (texts_of checked.0))
