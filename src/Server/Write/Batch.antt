-- ===== src/Server/Write/Batch.antt =====
-- What write and write_batch of crates/server/src/handlers/write.rs answer.
use merkur_db.Base.Text.{Text}
use merkur_db.Base.{
  ℕ, suc, ◌+◌, ◌≡◌, refl, ◌∙◌, true, false, List, [], ◌∷◌, map, length, arith, ltb, length-append,
  length-map,
}
use merkur_db.Core.Storage.{Storage, Embedder}
use merkur_db.Core.Types.{WriteItem, MerkurResult, bad_request, ok, err, max_batch_items}
use merkur_db.Server.Write.{
  WriteConfig, ItemFailure, BatchResponse, check_items, texts_of, insert_items, insert_new,
  new_memory, recorded, embed_all, failed_item, finish_batch, write_batch,
}

check_items_accounts :
    (i : ℕ) (items : List WriteItem)
    → length (check_items i items).0 + length (check_items i items).1 ≡ length items
unfolding check_items
check_items_accounts i [] = omega arith
check_items_accounts i (item ∷ items) = ground (arith, check_items_accounts (suc i) items)

module _ {S F : Type 0} (storage : Storage S F) (embedder : Embedder F) (config : WriteConfig F)
    (namespace : Text) where
  -- The embedder answers a batch with one vector per text.
  abbrev pub AnswersEach : Type 0
  AnswersEach =
      (texts : List Text) (vecs : List (List F))
      → embedder.encode_batch texts ≡ ok vecs
      → length vecs ≡ length texts

  recorded_one :
      (i : ℕ) (out : MerkurResult Text) (done : List Text × List (ℕ × ItemFailure))
      → length (recorded storage embedder config namespace i out done).0
          + length (recorded storage embedder config namespace i out done).1
        ≡ suc (length done.0 + length done.1)
  unfolding recorded
  recorded_one i (ok id) done = omega arith
  recorded_one i (err e) done = omega arith

  insert_items_accounts :
      (items : List (ℕ × WriteItem)) (vecs : List (List F)) (s : S)
      → length vecs ≡ length items
      → length (insert_items storage embedder config namespace items vecs s).0.0
          + length (insert_items storage embedder config namespace items vecs s).0.1
        ≡ length items
  unfolding insert_items
  insert_items_accounts [] vecs s h = omega arith
  insert_items_accounts (e ∷ items) [] s h = absurd (omega arith)
  insert_items_accounts (e ∷ items) (vec ∷ vecs) s h =
      let one = insert_new storage embedder config namespace (new_memory namespace e.1 vec) s in
      let rest = insert_items storage embedder config namespace items vecs one.1 in
      omega
        (arith, recorded_one e.0 one.0 rest.0, insert_items_accounts items vecs one.1 (omega arith))

  -- Every item of a batch is accounted for.
  abbrev pub Accounts : ℕ → MerkurResult BatchResponse × S → Type 0
  Accounts n out =
      (r : BatchResponse) × (t : S) × (out ≡ (ok r, t))
      × (length r.ids + length r.errors ≡ n)
      × (r.requested ≡ n)

  finish_batch-Accounts :
      (n : ℕ) (eligible : List (ℕ × WriteItem)) (errors : List (ℕ × ItemFailure))
      (vecs : MerkurResult (List (List F))) (s : S)
      → length eligible + length errors ≡ n
      → ((all : List (List F)) → vecs ≡ ok all → length all ≡ length eligible)
      → Accounts n (finish_batch storage embedder config namespace n eligible errors vecs s)
  unfolding finish_batch
  finish_batch-Accounts n eligible errors (ok vecs) s h each =
      let out = insert_items storage embedder config namespace eligible vecs s in
      (
        _,
        out.1,
        refl,
        omega (
          arith,
          length-append errors out.0.1,
          insert_items_accounts eligible vecs s (each vecs refl),
        ),
        refl,
      )
  finish_batch-Accounts n eligible errors (err e) s h each = (
    _,
    s,
    refl,
    omega (
      arith,
      h,
      length-append errors (map failed_item eligible),
      length-map failed_item eligible,
    ),
    refl,
  )

  embed_all-Answers :
      AnswersEach
      → (texts : List Text) (all : List (List F))
      → embed_all storage embedder config namespace texts ≡ ok all
      → length all ≡ length texts
  unfolding embed_all
  embed_all-Answers each [] all e = cc e
  embed_all-Answers each (t ∷ texts) all e = each (t ∷ texts) all e

  -- A batch within the limit is answered, whatever the embedder and the store do: the ids and the
  -- errors together are as many as the items. The embedder answers one vector per text.
  pub write_batch-Accounts :
      (each : AnswersEach) (items : List WriteItem) (s : S)
      → ltb max_batch_items (length items) ≡ false
      → Accounts (length items) (write_batch storage embedder config namespace items s)
  unfolding write_batch texts_of
  write_batch-Accounts each items s within = rw within (
      finish_batch-Accounts (length items) (check_items 0 items).0 (check_items 0 items).1
        (embed_all storage embedder config namespace (texts_of (check_items 0 items).0)) s
        (check_items_accounts 0 items)
        λ all e.
          embed_all-Answers each (texts_of (check_items 0 items).0) all e
          ∙ length-map (λ item. item.1.content) (check_items 0 items).0)

  -- A batch over the limit is refused before anything is written.
  pub write_batch_rejects :
      (items : List WriteItem) (s : S)
      → ltb max_batch_items (length items) ≡ true
      → write_batch storage embedder config namespace items s ≡ (err (bad_request []), s)
  unfolding write_batch
  write_batch_rejects items s over = rw over refl
