-- ===== src/System/Handlers.antt =====
-- The handlers of crates/server/src/handlers/memory.rs, memories.rs, status.rs and admin.rs, get_graph
-- of trigger.rs and the gate before them preserve what the store preserves.
use merkur_db.Base.Text.{Text}
use merkur_db.Base.{ℕ, Bool, true, false, [], ◌∷◌, Option, none, some, Bool-cases, inl, inr}
use merkur_db.Config.{AuthConfig}
use merkur_db.Core.Float.{Float}
use merkur_db.Core.Preserves.{Preserves, Leaves, bind-Leaves, or_else-Leaves}
use merkur_db.Core.Storage.{Storage, Embedder, pure, ◌>>◌, or_else}
use merkur_db.Core.Types.{Memory, MerkurResult, ok, err}
use merkur_db.Server.Errors.{Handler, responded}
use merkur_db.Server.Gate.{authorizes, require_auth, check_rate_limit, protected}
use merkur_db.Server.Graph.{GraphQuery, GraphConfig, nodes_of, get_graph}
use merkur_db.Server.Memories.{
  ListQuery, list_filter, page_of, list_memories_handler, found_memory, get_memory_handler,
  update_memory_handler, delete_memory_handler, status, health, consolidation_log,
}

module _ {S : Type 0} (P : S → Type 0) where
  pub responded_leaves : {A : Type 0} (out : MerkurResult A × S) → P out.1 → P (responded out).1
  responded_leaves (ok a, s) v = v
  responded_leaves (err e, s) v = v

  -- What a handler preserves it preserves behind the gate.
  pub protected_leaves :
      {A : Type 0} (limit : Option Bool) (auth : AuthConfig) (header : Option Text)
      (next : Handler S A)
      → ((s : S) → P s → P (next s).1)
      → (s : S) → P s
      → P (protected limit auth header next s).1
  unfolding protected check_rate_limit require_auth
  protected_leaves limit auth header next h s v = go limit
    where
      authed : P (require_auth auth header next s).1
      authed = elim (Bool-cases (authorizes auth header)) [ inl e ↦ rw e (h s v) | inr e ↦ rw e v ]

      go : (l : Option Bool) → P (check_rate_limit l (require_auth auth header next) s).1
      go none = authed
      go (some true) = authed
      go (some false) = v

module _ {S F : Type 0} (storage : Storage S F) (P : S → Type 0) (keeps : Preserves storage P) where
  pub list_memories_leaves :
      (ns : Text) (params : ListQuery) (s : S)
      → P s
      → P (list_memories_handler storage ns params s).1
  unfolding list_memories_handler
  list_memories_leaves ns params s v = responded_leaves P _ (
      bind-Leaves P (storage.list_memories (list_filter ns params))
        (λ found. pure (page_of storage (list_filter ns params) found))
        (keeps.list_memories_leaves (list_filter ns params)) (λ found s v. v) s v)

  pub get_memory_leaves : (id : Text) (s : S) → P s → P (get_memory_handler storage id s).1
  unfolding get_memory_handler
  get_memory_leaves id s v = go (storage.get_memory id s) (keeps.get_memory_leaves id s v)
    where
      go :
          (out : MerkurResult (Option (Memory F)) × S) → P out.1 → P (found_memory storage id out).1
      go (ok none, t) w = w
      go (ok (some m), t) w = w
      go (err e, t) w = w

  pub update_memory_leaves :
      (embedder : Embedder F) (id content : Text) (s : S)
      → P s
      → P (update_memory_handler storage embedder id content s).1
  unfolding update_memory_handler
  update_memory_leaves embedder id [] s v = v
  update_memory_leaves embedder id (c ∷ rest) s v = responded_leaves P _ (
      bind-Leaves P (λ s. (embedder.encode (c ∷ rest), s))
        (λ embedding. storage.update_memory id (c ∷ rest) (some embedding) >> pure id) (λ s v. v)
        (λ embedding.
          bind-Leaves P (storage.update_memory id (c ∷ rest) (some embedding)) (λ u. pure id)
            (keeps.update_memory_leaves id (c ∷ rest) (some embedding)) (λ u s v. v))
        s v)

  pub delete_memory_leaves : (id : Text) (s : S) → P s → P (delete_memory_handler storage id s).1
  unfolding delete_memory_handler
  delete_memory_leaves id s v = responded_leaves P _ (
      bind-Leaves P (storage.delete_memory id) (λ u. pure id) (keeps.delete_memory_leaves id)
        (λ u s v. v) s v)

  pub status_leaves : (started_at now : ℕ) (s : S) → P s → P (status storage started_at now s).1
  unfolding status
  status_leaves started_at now s v =
      responded_leaves P _ (bind-Leaves P storage.stats _ keeps.stats_leaves (λ stats s v. v) s v)

  pub health_leaves : (embedder : Embedder F) (s : S) → P s → P (health storage embedder s).1
  unfolding health
  health_leaves embedder s v = keeps.stats_leaves s v

  pub consolidation_log_leaves :
      (limit : Option ℕ) (s : S) → P s → P (consolidation_log storage limit s).1
  unfolding consolidation_log
  consolidation_log_leaves limit s v =
      responded_leaves P _ (keeps.get_consolidation_log_leaves _ s v)

  module _ (f : Float F) (config : GraphConfig) (ns : Text) where
    pub get_graph-Leaves :
        (id : Text) (params : GraphQuery) → Leaves P (get_graph f storage config ns id params)
    unfolding get_graph
    get_graph-Leaves id params =
        bind-Leaves P (storage.bfs_expand_ns _ _ _ _) _ (keeps.bfs_expand_ns_leaves _ _ _ _) λ out.
          bind-Leaves P (or_else (storage.get_edges_batch (nodes_of id out)) []) _
            (or_else-Leaves P (storage.get_edges_batch (nodes_of id out)) []
              (keeps.get_edges_batch_leaves (nodes_of id out)))
            λ by_node s v. v
