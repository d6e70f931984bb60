-- ===== src/Store/Graph/Trails.antt =====
-- The walks along which bfs_expand of crates/storage/src/sqlite_helpers.rs goes, and that the
-- recursive query finds no others.
use merkur_db.Base.Text.{Text, text_eq}
use merkur_db.Base.{
  ℕ, zero, suc, ◌+◌, ◌≤◌, ◌≡◌, refl, sym, ap, ◌∙◌, Bool, true, false, not, ◌&&◌, List, [], ◌∷◌,
  ◌++◌, Option, any, keep, All, All-append, All-imp, All-map, keep-In, In, inl, inr, arith, length,
  Bool-cases,
}
use merkur_db.Core.Float.{Float}
use merkur_db.Store.Graph.Cycles.{path_text, on_path-path_text}
use merkur_db.Store.Graph.{
  Hop, joins, other_end, on_path, may_enter, leads_on, extended, same_hop, add_new, next_layer,
  layers, add_seed, seed_rows,
}
use merkur_db.Store.{EdgeRow, Db}

-- A walk from a seed, its ids the last first: each step follows an edge in a direction that it
-- leads, to an id that the walk has not visited and that the bucket lets in. The weight is the
-- seed's score times the weights of the edges.
pub data Trail {F : Type 0} (f : Float F) (ns : Option Text) (s : Db F) (seeds : List (Text × F))
    : List Text → F → Type 0 where
  start : (id : Text) (w : F) → In (id, w) seeds → Trail f ns s seeds (id ∷ []) w
  step :
      (id j : Text) (ids : List Text) (w v : F) (e : EdgeRow F)
      → Trail f ns s seeds (id ∷ ids) w
      → In e s.edges
      → joins e id ≡ true
      → j ≡ other_end e id
      → ¬ (In j (id ∷ ids))
      → may_enter ns s.memories j ≡ true
      → v ≡ f.mul w e.weight
      → Trail f ns s seeds (j ∷ id ∷ ids) v

and_parts : (a b c : Bool) → (a && not b && c) ≡ true → (a ≡ true) × (b ≡ false) × (c ≡ true)
and_parts a b c h = ground arith

eq_of_text_eq : (a b : Text) → text_eq a b ≡ true → a ≡ b
eq_of_text_eq a b h = ground arith

module _ {F : Type 0} (f : Float F) (ns : Option Text) (s : Db F) (seeds : List (Text × F)) where
  -- A row of the recursive table that a walk of at most `n` steps explains.
  abbrev pub Traced : ℕ → Hop F → Type 0
  Traced n h =
      (ids : List Text) × Trail f ns s seeds (h.id ∷ ids) h.w
      × (length ids ≡ h.d)
      × (h.path ≡ path_text (h.id ∷ ids))
      × (h.d ≤ n)

  leads_on_parts :
      (h : Hop F) (e : EdgeRow F)
      → leads_on f ns s.memories h e ≡ true
      → (joins e h.id ≡ true)
        × (on_path (other_end e h.id) h.path ≡ false)
        × (may_enter ns s.memories (other_end e h.id) ≡ true)
  leads_on_parts h e l = and_parts (joins e h.id) _ _ l

  not_visited :
      (id : Text) (ids : List Text) (path : Text)
      → path ≡ path_text ids
      → on_path id path ≡ false
      → ¬ (In id ids)
  not_visited id ids path p h m = cc (sym h ∙ ap (on_path id) p ∙ on_path-path_text id ids m)

  extended-Traced :
      (n : ℕ) (h : Hop F) (e : EdgeRow F)
      → Traced n h
      → In e s.edges × (leads_on f ns s.memories h e ≡ true)
      → Traced (suc n) (extended f h e)
  unfolding extended
  extended-Traced n h e (ids, trail, len, path, bound) (m, l) =
      let (joined, fresh, open_) = leads_on_parts h e l in
      (
        h.id ∷ ids,
        Trail.step h.id (other_end e h.id) ids h.w (f.mul h.w e.weight) e trail m joined refl
            (not_visited (other_end e h.id) (h.id ∷ ids) h.path path fresh) open_ refl,
        ap suc len,
        ap (λ (p : Text). p ++ other_end e h.id ++ 44 ∷ []) path,
        omega arith,
      )

  add_new-All :
      (P : Hop F → Type 0) (hs ks : List (Hop F)) → All P hs → All P ks → All P (add_new f hs ks)
  unfolding add_new
  add_new-All P hs [] a b = a
  add_new-All P hs (k ∷ ks) a b = elim (Bool-cases (any (same_hop f k) hs)) [
    | inl e ↦ rw e (add_new-All P hs ks a b.1)
    | inr e ↦ rw e (add_new-All P (hs ++ k ∷ []) ks (All-append P hs (k ∷ []) a (b.0, tt)) b.1)
  ]

  next_layer-Traced :
      (n : ℕ) (hs out : List (Hop F))
      → All (Traced n) hs
      → All (Traced (suc n)) out
      → All (Traced (suc n)) (next_layer f ns s hs out)
  unfolding next_layer
  next_layer-Traced n [] out a b = b
  next_layer-Traced n (h ∷ hs) out a b = next_layer-Traced n hs _ a.1 (
      add_new-All (Traced (suc n)) out _ b (
        All-map (Traced (suc n)) (extended f h) (keep (leads_on f ns s.memories h) s.edges) (
          All-imp (λ e. extended-Traced n h e a.0) _
            (keep-In (leads_on f ns s.memories h) s.edges))))

  weaken : (n m : ℕ) → n ≤ m → (h : Hop F) → Traced n h → Traced m h
  weaken n m le h (ids, trail, len, path, bound) = (ids, trail, len, path, omega arith)

  -- The rows of the first `depth` layers below rows of at most `n` steps.
  pub layers-Traced :
      (depth n : ℕ) (hs : List (Hop F))
      → All (Traced n) hs
      → All (Traced (n + depth)) (layers f depth ns s hs)
  unfolding layers
  layers-Traced zero n hs a = All-imp (weaken n (n + 0) (omega arith)) hs a
  layers-Traced (suc depth) n hs a =
      All-append (Traced (n + suc depth)) hs _
        (All-imp (weaken n (n + suc depth) (omega arith)) hs a)
        (All-imp (weaken (suc n + depth) (n + suc depth) (omega arith)) _
          (layers-Traced depth (suc n) (next_layer f ns s hs []) (next_layer-Traced n hs [] a tt)))

  raised-Traced :
      (id : Text) (w : F) (h : Hop F)
      → In (id, w) seeds
      → h.id ≡ id
      → Traced 0 h
      → Traced 0 (record h { w = w })
  raised-Traced id w h m e ([], trail, len, path, bound) =
      ([], Trail.start h.id w (rw e m), len, path, bound)
  raised-Traced id w h m e (j ∷ ids, trail, len, path, bound) = absurd (omega (arith, len))

  add_seed-Traced :
      (id : Text) (w : F) (hs : List (Hop F))
      → In (id, w) seeds
      → All (Traced 0) hs
      → All (Traced 0) (add_seed f id w hs)
  unfolding add_seed
  add_seed-Traced id w [] m a = ((([], Trail.start id w m, refl, refl, omega arith)), tt)
  add_seed-Traced id w (h ∷ hs) m a = elim (Bool-cases (text_eq h.id id)) [
    | inr e ↦ rw e (a.0, add_seed-Traced id w hs m a.1)
    | inl e ↦ rw e (elim (Bool-cases (f.lt h.w w)) [
      | inl lt ↦ rw lt (raised-Traced id w h m (eq_of_text_eq h.id id e) a.0, a.1)
      | inr ge ↦ rw ge a
    ])
  ]

  -- The seeds of the query are walks of no step.
  pub seed_rows-Traced :
      (given : List (Text × F)) (hs : List (Hop F))
      → All (λ g. In g seeds) given
      → All (Traced 0) hs
      → All (Traced 0) (seed_rows f given hs)
  unfolding seed_rows
  seed_rows-Traced [] hs i a = a
  seed_rows-Traced (g ∷ given) hs i a =
      seed_rows-Traced given (add_seed f g.0 g.1 hs) i.1 (add_seed-Traced g.0 g.1 hs i.0 a)
