-- ===== src/Store/Insert.antt =====
-- insert_memory, update_memory, insert_edge, insert_context_tag and log_consolidation of
-- crates/storage/src/sqlite.rs and sqlite_helpers.rs.
use merkur_db.Base.Int.{pos}
use merkur_db.Base.Text.{Text, text_eq, codes, trim}
use merkur_db.Base.{
  ℕ, suc, Bool, true, ◌&&◌, List, [], ◌∷◌, ◌++◌, Option, none, some, map, any, if◌then◌else◌,
}
use merkur_db.Core.Float.{Float}
use merkur_db.Core.Storage.{Act, pure, raise, ◌>>=◌, ◌>>◌}
use merkur_db.Core.Types.{
  Map, NewMemory, NewEdge, ConsolidationReport, default_namespace, MerkurError, memory_not_found,
  ok, err,
}
use merkur_db.Store.Rows.{has_id, exists_row, update_where}
use merkur_db.Store.Write.{set_index}
use merkur_db.Store.{MemoryRow, EdgeRow, TagRow, Db, access}
use merkur_db.VectorIndex.{upsert, remove}

abbrev pub unwrap_or {ℓ} : {A : Type ℓ} → Option A → A → A
unwrap_or none d = d
unwrap_or (some a) d = a

-- A statement that breaks a constraint of its table fails.
abbrev pub constraint_failed : MerkurError
constraint_failed = MerkurError.storage []

-- An empty or blank namespace is the default one.
unfoldable pub effective_namespace : Text → Text
unfolding trim
effective_namespace namespace = elim (trim namespace) [ [] ↦ default_namespace | c ∷ s ↦ namespace ]

abbrev pub tag_rows : Text → Map Text → List TagRow
tag_rows id = map λ e. record { memory_id = id; key = e.0; value = e.1 }

module _ {F : Type 0} where
  -- Both ends of an edge must be rows (`FOREIGN KEY`); a triple that is there is left (`IGNORE`).
  abbrev pub same_edge : NewEdge F → Text → EdgeRow F → Bool
  same_edge e relation r =
      text_eq r.source_id e.source_id
      && text_eq r.target_id e.target_id
      && text_eq r.relation relation

  unfoldable pub add_tag : TagRow → Act (Db F) (Unit {0})
  add_tag t s =
      if exists_row t.memory_id s.memories
      then (ok tt, record s { tags = s.tags ++ t ∷ [] })
      else (err constraint_failed, s)

  unfoldable pub insert_context_tag : Text → Text → Text → Act (Db F) (Unit {0})
  unfolding access add_tag
  insert_context_tag memory_id key value = do
    access
    add_tag (record { memory_id = memory_id; key = key; value = value })

  unfoldable pub log_consolidation : ℕ → ℕ → ConsolidationReport F → Act (Db F) (Unit {0})
  unfolding access
  log_consolidation started_at finished_at report = do
    access
    λ s. (
      ok tt,
      record s {
        log =
            s.log
            ++ (record {
              id = s.next_log_id;
              started_at = started_at;
              finished_at = finished_at;
              memories_processed = report.memories_processed;
              edges_created = report.edges_created;
              errors = report.errors;
              absorptions = report.absorptions;
              invalidations = report.invalidations;
            })
              ∷ [];
        next_log_id = suc s.next_log_id;
      },
    )

module _ {F : Type 0} (f : Float F) where
  unfoldable pub new_row : Text → NewMemory F → ℕ → MemoryRow F
  unfolding effective_namespace
  new_row id mem now = record {
    id = id;
    content = mem.content;
    abstract_ = some [];
    category = unwrap_or mem.category (codes "general");
    weight = f.of_nat 1;
    level = pos 2;
    pending_consolidation = true;
    embedding = mem.embedding;
    metadata = mem.metadata;
    created_at = now;
    updated_at = now;
    accessed_at = now;
    access_count = 0;
    namespace = effective_namespace mem.namespace;
    importance = f.lit 5 1;
    valid_at = now;
    invalid_at = none;
  }

  -- The transaction of `insert_memory`; the id is the primary key.
  unfoldable pub insert_row : Text → NewMemory F → Act (Db F) (Unit {0})
  unfolding new_row
  insert_row id mem s = if exists_row id s.memories then (err constraint_failed, s) else (
    ok tt,
    record s {
      memories = s.memories ++ new_row id mem s.clock ∷ [];
      tags = s.tags ++ tag_rows id mem.context;
    },
  )

  unfoldable pub set_vector : Text → Option (List F) → Act (Db F) (Unit {0})
  unfolding set_index
  set_vector id none s = (ok tt, s)
  set_vector id (some vec) s = set_index (upsert f id vec s.vector_index) s

  -- `uuid n` is the text of the n-th `Uuid::new_v4()`.
  module _ (uuid : ℕ → Text) where
    unfoldable pub new_id : Act (Db F) Text
    new_id s = (ok (codes "mem_" ++ uuid s.next_uuid), record s { next_uuid = suc s.next_uuid })

    unfoldable pub insert_memory : NewMemory F → Act (Db F) Text
    unfolding new_id access insert_row set_vector
    insert_memory mem = do
      id ← new_id
      access
      insert_row id mem
      set_vector id mem.embedding
      pure id

  unfoldable pub replace_vector : Text → Option (List F) → Act (Db F) (Unit {0})
  unfolding set_index
  replace_vector id none s = set_index (remove id s.vector_index) s
  replace_vector id (some vec) s = set_index (upsert f id vec s.vector_index) s

  unfoldable pub update_memory : Text → Text → Option (List F) → Act (Db F) (Unit {0})
  unfolding access replace_vector
  update_memory id content embedding = do
    access
    λ s.
        if exists_row id s.memories
        then replace_vector id embedding (record s {
          memories =
              update_where (has_id id)
                (λ r. record r {
                  content = content;
                  embedding = embedding;
                  pending_consolidation = true;
                  updated_at = s.clock;
                })
                s.memories;
        })
        else raise (memory_not_found id) s

  unfoldable pub add_edge : NewEdge F → Act (Db F) (Unit {0})
  add_edge e s =
      let relation = unwrap_or e.relation (codes "related") in
      if any (same_edge e relation) s.edges
      then (ok tt, s)
      else if exists_row e.source_id s.memories && exists_row e.target_id s.memories
      then (
        ok tt,
        record s {
          edges =
              s.edges
              ++ (record {
                id = s.next_edge_id;
                source_id = e.source_id;
                target_id = e.target_id;
                weight = unwrap_or e.weight (f.of_nat 1);
                relation = relation;
                edge_type = e.edge_type;
              })
                ∷ [];
          next_edge_id = suc s.next_edge_id;
        },
      )
      else (err constraint_failed, s)

  unfoldable pub insert_edge : NewEdge F → Act (Db F) (Unit {0})
  unfolding access add_edge
  insert_edge e = do access; add_edge e
