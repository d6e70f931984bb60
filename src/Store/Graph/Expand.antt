-- ===== src/Store/Graph/Expand.antt =====
-- What bfs_expand of crates/storage/src/sqlite_helpers.rs answers.
use mathlib.Core.Path.{subst}
use merkur_db.Base.Sort.{sort_by, All-sort_by}
use merkur_db.Base.Text.{Text, text_eq}
use merkur_db.Base.{
  All-self, ℕ, zero, suc, ◌≤◌, ◌<◌, ◌≡◌, refl, ap, Bool, true, false, ◌&&◌, List, [], ◌∷◌, Option,
  some, map, any, All, All-take, All-imp, All-map, inl, inr, arith, length, length-take, length-map,
  Bool-cases, Option-cases, min, ltb, ltb→lt,
}
use merkur_db.Core.Float.{Float}
use merkur_db.Core.Types.{Map, ScoredMemory, MerkurResult, ok, max_bfs_depth, max_bfs_degree}
use merkur_db.Store.Graph.Trails.{Trail, Traced, layers-Traced, seed_rows-Traced}
use merkur_db.Store.Graph.{
  Hop, in_bucket, layers, seed_rows, visible, nearer, bfs_rows, first_of_each, contexts_of,
  diffused, bfs_query, expand,
}
use merkur_db.Store.Rows.{row_of, is_live, get_context_tags}
use merkur_db.Store.Search.{read_quiet}
use merkur_db.Store.{MemoryRow, Db}

abbrev pub Distinct : List Text → Type 0
Distinct [] = Unit
Distinct (x ∷ xs) = All (λ y. text_eq y x ≡ false) xs × Distinct xs

module _ {F : Type 0} where
  abbrev Fresh : List Text → Hop F × MemoryRow F → Type 0
  Fresh seen h = any (text_eq h.0.id) seen ≡ false

  abbrev hop_ids : List (Hop F × MemoryRow F) → List Text
  hop_ids = map λ h. h.0.id

  first_of_each-All :
      (P : Hop F × MemoryRow F → Type 0) (seen : List Text) (hs : List (Hop F × MemoryRow F))
      → All P hs
      → All P (first_of_each seen hs)
  unfolding first_of_each
  first_of_each-All P seen [] a = tt
  first_of_each-All P seen (h ∷ hs) a =
      ground (arith, first_of_each-All P seen hs a.1, first_of_each-All P (h.0.id ∷ seen) hs a.1)

  length-first_of_each :
      (seen : List Text) (hs : List (Hop F × MemoryRow F))
      → length (first_of_each seen hs) ≤ length hs
  unfolding first_of_each
  length-first_of_each seen [] = omega arith
  length-first_of_each seen (h ∷ hs) =
      ground (arith, length-first_of_each seen hs, length-first_of_each (h.0.id ∷ seen) hs)

  drop_seen :
      (id : Text) (seen : List Text) (h : Hop F × MemoryRow F) → Fresh (id ∷ seen) h → Fresh seen h
  drop_seen id seen h k = ground arith

  first_of_each-Fresh :
      (seen : List Text) (hs : List (Hop F × MemoryRow F))
      → All (Fresh seen) (first_of_each seen hs)
  unfolding first_of_each
  first_of_each-Fresh seen [] = tt
  first_of_each-Fresh seen (h ∷ hs) = elim (Bool-cases (any (text_eq h.0.id) seen)) [
    | inl e ↦ rw e (first_of_each-Fresh seen hs)
    | inr e ↦ rw e (e, All-imp (drop_seen h.0.id seen) _ (first_of_each-Fresh (h.0.id ∷ seen) hs))
  ]

  other_id :
      (id : Text) (seen : List Text) (h : Hop F × MemoryRow F)
      → Fresh (id ∷ seen) h
      → text_eq h.0.id id ≡ false
  other_id id seen h k = ground arith

  first_of_each-Distinct :
      (seen : List Text) (hs : List (Hop F × MemoryRow F))
      → Distinct (hop_ids (first_of_each seen hs))
  unfolding first_of_each
  first_of_each-Distinct seen [] = tt
  first_of_each-Distinct seen (h ∷ hs) = elim (Bool-cases (any (text_eq h.0.id) seen)) [
    | inl e ↦ rw e (first_of_each-Distinct seen hs)
    | inr e ↦ rw e (
      All-map (λ y. text_eq y h.0.id ≡ false) (λ (k : Hop F × MemoryRow F). k.0.id) _
          (All-imp (other_id h.0.id seen) _ (first_of_each-Fresh (h.0.id ∷ seen) hs)),
      first_of_each-Distinct (h.0.id ∷ seen) hs,
    )
  ]

all_three : (a b c : Bool) → (a && b && c) ≡ true → (a ≡ true) × (b ≡ true) × (c ≡ true)
all_three a b c h = ground arith

module _ {F : Type 0} (f : Float F) (ns : Option Text) (s : Db F) (seeds : List (Text × F)) where
  -- A row of the query: a walk that ends in a live row of the bucket.
  abbrev Ends : ℕ → Hop F × MemoryRow F → Type 0
  Ends n h =
      Traced f ns s seeds n h.0
      × (0 < h.0.d)
      × (row_of h.0.id s.memories ≡ some h.1)
      × (is_live h.1 ≡ true)
      × (in_bucket ns h.1 ≡ true)

  visible-Ends :
      (n : ℕ) (hs : List (Hop F))
      → All (Traced f ns s seeds n) hs
      → All (Ends n) (visible f ns s.memories hs)
  unfolding visible
  visible-Ends n [] a = tt
  visible-Ends n (h ∷ hs) a = elim (Option-cases (row_of h.id s.memories)) [
    | inl e ↦ rw (e, visible) (visible-Ends n hs a.1)
    | inr (r, e) ↦
        rw (e, visible)
          (elim (Bool-cases (ltb 0 h.d && is_live r && in_bucket ns r)) [
            | inr k ↦ rw k (visible-Ends n hs a.1)
            | inl k ↦ rw k (
              let (x, y, z) = all_three (ltb 0 h.d) (is_live r) (in_bucket ns r) k in
                  (a.0, ltb→lt 0 h.d x, e, y, z),
              visible-Ends n hs a.1,
            )
          ])
  ]

  -- A result: the live row of the bucket in which a walk of one to `n` steps ends, under the weight
  -- of that walk halved at each step.
  abbrev pub IsReached : ℕ → ScoredMemory F → Type 0
  IsReached n m =
      (ids : List Text) × (r : MemoryRow F) × Trail f ns s seeds (m.id ∷ ids) m.weight
      × (0 < length ids)
      × (length ids ≤ n)
      × (m.score ≡ f.mul (f.powi (f.lit 5 1) (length ids)) m.weight)
      × (row_of m.id s.memories ≡ some r)
      × (is_live r ≡ true)
      × (in_bucket ns r ≡ true)

  diffused-IsReached :
      (n : ℕ) (contexts : Map (Map Text)) (h : Hop F × MemoryRow F)
      → Ends n h
      → IsReached n (diffused f contexts h)
  unfolding diffused
  diffused-IsReached n contexts h ((ids, trail, len, path, bound), far, row, live, bucket) =
      (ids, h.1, trail, omega (arith, len), omega (arith, len), rw len refl, row, live, bucket)

  contexts_quiet :
      (ids : List Text) → s.faults ≡ [] → (m : Map (Map Text)) × (contexts_of ids s ≡ (ok m, s))
  unfolding contexts_of
  contexts_quiet [] quiet = ([], refl)
  contexts_quiet (id ∷ ids) quiet =
      (_, read_quiet (λ t. map (λ i. (i, get_context_tags i t.tags)) (id ∷ ids)) s quiet)

  bfs_rows-Ends : (depth limit : ℕ) → All (Ends depth) (bfs_rows f seeds ns depth limit s)
  unfolding bfs_rows
  bfs_rows-Ends depth limit =
      let seeded = seed_rows-Traced f ns s seeds seeds [] (All-self seeds) tt in
      let hops = layers f depth ns s (seed_rows f seeds []) in
      All-take (Ends depth) limit _ (
        All-sort_by (nearer f) (Ends depth) (visible f ns s.memories hops) (
          visible-Ends depth hops (
            subst (λ n. All (Traced f ns s seeds n) hops) (omega arith)
              (layers-Traced f ns s seeds depth 0 (seed_rows f seeds []) seeded))))

  length-bfs_rows : (depth limit : ℕ) → length (bfs_rows f seeds ns depth limit s) ≤ limit
  unfolding bfs_rows
  length-bfs_rows depth limit = omega (
    arith,
    length-take limit
        (sort_by (nearer f) (visible f ns s.memories (layers f depth ns s (seed_rows f seeds [])))),
  )

  -- The answer of a walk of at most `depth` steps with at most `limit` results.
  abbrev pub Reaches : ℕ → ℕ → MerkurResult (List (ScoredMemory F)) × Db F → Type 0
  Reaches depth limit answer =
      (out : List (ScoredMemory F)) × (answer ≡ (ok out, s))
      × All (IsReached (min depth max_bfs_depth)) out
      × Distinct (map (λ (m : ScoredMemory F). m.id) out)
      × (length out ≤ min limit max_bfs_degree)

  diffused_ids :
      (contexts : Map (Map Text)) (hs : List (Hop F × MemoryRow F))
      → map (λ (m : ScoredMemory F). m.id) (map (diffused f contexts) hs) ≡ hop_ids hs
  unfolding diffused
  diffused_ids contexts [] = refl
  diffused_ids contexts (h ∷ hs) = ap (λ ids. h.0.id ∷ ids) (diffused_ids contexts hs)

  bfs_query-Reaches :
      (depth limit : ℕ) → s.faults ≡ [] → Reaches depth limit (bfs_query f seeds ns depth limit s)
  unfolding bfs_query
  bfs_query-Reaches depth limit quiet =
      let rows = bfs_rows f seeds ns (min depth max_bfs_depth) (min limit max_bfs_degree) s in
      let found = first_of_each [] rows in
      let (contexts, e) = contexts_quiet (hop_ids found) quiet in
      (
        map (diffused f contexts) found,
        rw
            (read_quiet (bfs_rows f seeds ns (min depth max_bfs_depth) (min limit max_bfs_degree)) s
              quiet)
            (rw e refl),
        All-map (IsReached (min depth max_bfs_depth)) (diffused f contexts) found (
            All-imp (diffused-IsReached (min depth max_bfs_depth) contexts) found (
              first_of_each-All (Ends (min depth max_bfs_depth)) [] rows
                (bfs_rows-Ends (min depth max_bfs_depth) (min limit max_bfs_degree)))),
        rw (diffused_ids contexts found) (first_of_each-Distinct [] rows),
        omega (
          arith,
          length-map (diffused f contexts) found,
          length-first_of_each [] rows,
          length-bfs_rows (min depth max_bfs_depth) (min limit max_bfs_degree),
        ),
      )

module _ {F : Type 0} (f : Float F) (ns : Option Text) (s : Db F) where
  -- The expansion of a graph from its seeds, in a store without faults, ends and changes nothing.
  -- Each result is a live row of the bucket at the end of a walk from a seed: of one to `depth`
  -- steps, five at most, along edges in a direction that they lead, through no id twice and, in a
  -- bucket, only through rows of the bucket that are not invalidated. Its score is the seed's
  -- times the weights of the walk's edges, halved at each step; no id is served twice, and there
  -- are no more results than the limit and one hundred.
  pub expand-Reaches :
      (seeds : List (Text × F)) (depth limit : ℕ)
      → s.faults ≡ []
      → Reaches f ns s seeds depth limit (expand f seeds ns depth limit s)
  unfolding expand
  expand-Reaches [] depth limit quiet = ([], refl, tt, tt, omega arith)
  expand-Reaches (g ∷ seeds) zero limit quiet = ([], refl, tt, tt, omega arith)
  expand-Reaches (g ∷ seeds) (suc depth) limit quiet =
      bfs_query-Reaches f ns s (g ∷ seeds) (suc depth) limit quiet
