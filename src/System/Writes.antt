-- ===== src/System/Writes.antt =====
-- The writing handlers of crates/server/src/handlers/write.rs and trigger.rs preserve what the
-- store preserves.
use merkur_db.Base.Text.{Text, text_eq}
use merkur_db.Base.{
  ℕ, suc, Bool, true, false, List, [], ◌∷◌, Option, none, some, length, Bool-cases, inl, inr, ltb,
}
use merkur_db.Core.Preserves.{Preserves, Leaves, bind-Leaves}
use merkur_db.Core.Storage.{Storage, Embedder, ◌>>=◌}
use merkur_db.Core.Types.{
  NewMemory, WriteItem, MerkurResult, MerkurError, ok, err, max_batch_items, memory_not_found,
}
use merkur_db.Server.Relate.{
  RelateRequest, EdgeFailure, edge_of, check_edge, id_pool, validate_edge, relate, attempt,
  relate_each, relate_batch, outcome, found_or,
}
use merkur_db.Server.Write.{
  WriteConfig, ItemFailure, is_valid_content, new_memory, insert_new, write, insert_items,
  finish_batch, write_batch, check_items, embed_all, texts_of,
}

module _ {S F : Type 0} (storage : Storage S F) (P : S → Type 0) (keeps : Preserves storage P) where
  module _ (embedder : Embedder F) (config : WriteConfig F) (ns : Text) where
    insert_new-Leaves : (mem : NewMemory F) → Leaves P (insert_new storage embedder config ns mem)
    unfolding insert_new
    insert_new-Leaves mem s v = elim (Bool-cases config.dedup_enabled) [
      | inl h ↦ rw h (keeps.insert_memory_dedup_leaves mem config.dedup_threshold s v)
      | inr h ↦ rw h (keeps.insert_memory_leaves mem s v)
    ]

    pub write-Leaves : (req : WriteItem) → Leaves P (write storage embedder config ns req)
    unfolding write
    write-Leaves req s v = elim (Bool-cases (is_valid_content req.content)) [
      | inr h ↦ rw h v
      | inl h ↦ rw h (
          bind-Leaves P (λ s. (embedder.encode req.content, s)) _ (λ s v. v)
            (λ vec. insert_new-Leaves (new_memory ns req vec)) s v)
    ]

    insert_items_leaves :
        (items : List (ℕ × WriteItem)) (vecs : List (List F)) (s : S)
        → P s
        → P (insert_items storage embedder config ns items vecs s).1
    unfolding insert_items
    insert_items_leaves [] vecs s v = v
    insert_items_leaves (e ∷ items) [] s v = v
    insert_items_leaves (e ∷ items) (vec ∷ vecs) s v =
        insert_items_leaves items vecs _ (insert_new-Leaves (new_memory ns e.1 vec) s v)

    finish_batch-Leaves :
        (n : ℕ) (items : List (ℕ × WriteItem)) (errors : List (ℕ × ItemFailure))
        (vecs : MerkurResult (List (List F)))
        → Leaves P (finish_batch storage embedder config ns n items errors vecs)
    unfolding finish_batch
    finish_batch-Leaves n items errors (ok vecs) s v = insert_items_leaves items vecs s v
    finish_batch-Leaves n items errors (err e) s v = v

    pub write_batch-Leaves :
        (items : List WriteItem) → Leaves P (write_batch storage embedder config ns items)
    unfolding write_batch
    write_batch-Leaves items s v = elim (Bool-cases (ltb max_batch_items (length items))) [
      | inl h ↦ rw h v
      | inr h ↦ rw h (
          finish_batch-Leaves (length items) (check_items 0 items).0 (check_items 0 items).1
            (embed_all storage embedder config ns (texts_of (check_items 0 items).0)) s v)
    ]

  found_or-Leaves : (e : MerkurError) (b : Bool) → Leaves P (found_or storage e b)
  found_or-Leaves e true s v = v
  found_or-Leaves e false s v = v

  validate_edge-Leaves : (src dst : Text) → Leaves P (validate_edge storage src dst)
  unfolding validate_edge
  validate_edge-Leaves src dst s v = elim (Bool-cases (text_eq src dst)) [
    | inl h ↦ rw h v
    | inr h ↦ rw h (
        bind-Leaves P (storage.memory_exists src >>= found_or storage (memory_not_found src)) _
          (bind-Leaves P (storage.memory_exists src) _ (keeps.memory_exists_leaves src)
            (found_or-Leaves _))
          (λ u.
            bind-Leaves P (storage.memory_exists dst) _ (keeps.memory_exists_leaves dst)
              (found_or-Leaves _))
          s v)
  ]

  pub relate-Leaves : (req : RelateRequest F) → Leaves P (relate storage req)
  unfolding relate
  relate-Leaves req =
      bind-Leaves P (validate_edge storage req.source_id req.target_id) _
        (validate_edge-Leaves req.source_id req.target_id)
        λ u. keeps.insert_edge_leaves (edge_of req)

  attempt_leaves :
      (failed : Option EdgeFailure) (r : RelateRequest F) (s : S)
      → P s
      → P (attempt storage failed r s).1
  unfolding attempt
  attempt_leaves (some e) r s v = v
  attempt_leaves none r s v =
      go (storage.insert_edge (edge_of r) s) (keeps.insert_edge_leaves (edge_of r) s v)
    where
      go : (out : MerkurResult (Unit {0}) × S) → P out.1 → P (outcome storage out).1
      go (ok u, t) w = w
      go (err e, t) w = w

  relate_each_leaves :
      (existing : List Text) (i : ℕ) (rs : List (RelateRequest F)) (s : S)
      → P s
      → P (relate_each storage existing i rs s).1
  unfolding relate_each
  relate_each_leaves existing i [] s v = v
  relate_each_leaves existing i (r ∷ rs) s v =
      relate_each_leaves existing (suc i) rs _ (attempt_leaves (check_edge existing r) r s v)

  pub relate_batch-Leaves : (edges : List (RelateRequest F)) → Leaves P (relate_batch storage edges)
  unfolding relate_batch
  relate_batch-Leaves edges s v = elim (Bool-cases (ltb max_batch_items (length edges))) [
    | inl h ↦ rw h v
    | inr h ↦ rw h (
        bind-Leaves P (storage.memory_exists_batch (id_pool edges)) _
          (keeps.memory_exists_batch_leaves (id_pool edges))
          (λ existing s v. relate_each_leaves existing 0 edges s v) s v)
  ]
