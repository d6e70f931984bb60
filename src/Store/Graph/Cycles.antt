-- ===== src/Store/Graph/Cycles.antt =====
-- The cycle test of bfs_expand of crates/storage/src/sqlite_helpers.rs: an id that stands on the
-- delimited path is found by `LIKE`.
use mathlib.Core.List.{append_assoc}
use merkur_db.Base.Text.{Text}
use merkur_db.Base.{
  ◌≡◌, refl, ap, ◌∙◌, Bool, true, List, [], ◌∷◌, ◌++◌, In, inl, inr, arith, ◌==◌, Bool-cases,
}
use merkur_db.Store.Graph.Like.{like, any_text, one_char}
use merkur_db.Store.Graph.{on_path}

-- The path column of a walk, whose ids are given the last first.
abbrev pub path_text : List Text → Text
path_text [] = 44 ∷ []
path_text (id ∷ ids) = path_text ids ++ id ++ 44 ∷ []

any_text_here : (k : Text → Bool) (s : Text) → k s ≡ true → any_text k s ≡ true
unfolding any_text
any_text_here k [] h = h
any_text_here k (d ∷ s) h = rw h refl

any_text_append : (k : Text → Bool) (t s : Text) → k s ≡ true → any_text k (t ++ s) ≡ true
unfolding any_text
any_text_append k [] s h = any_text_here k s h
any_text_append k (d ∷ t) s h = ground (arith, any_text_append k t s h)

like-append : (a p s : Text) → like p s ≡ true → like (a ++ p) (a ++ s) ≡ true
unfolding like any_text one_char
like-append [] p s h = h
like-append (c ∷ a) p s h = elim (Bool-cases (c == 37)) [
  | inl e ↦ rw e (ground (arith, any_text_here (like (a ++ p)) (a ++ s) (like-append a p s h)))
  | inr e ↦ rw e (ground (arith, like-append a p s h))
]

any_text_end : (s : Text) → any_text (like []) s ≡ true
unfolding any_text like
any_text_end [] = refl
any_text_end (d ∷ s) = ground (arith, any_text_end s)

path_text_end : (ids : List Text) → (t : Text) × (path_text ids ≡ t ++ 44 ∷ [])
path_text_end [] = ([], refl)
path_text_end (id ∷ ids) = (path_text ids ++ id, refl)

path_text_split :
    (id : Text) (ids : List Text)
    → In id ids
    → (t : Text) × (u : Text) × (path_text ids ≡ t ++ (44 ∷ id ++ 44 ∷ u))
path_text_split id [] m = absurd m
path_text_split id (j ∷ ids) (inl e) =
    let (t, h) = path_text_end ids in
    (t, [], ap (λ x. x ++ j ++ 44 ∷ []) h ∙ rw e (simp append_assoc))
path_text_split id (j ∷ ids) (inr m) =
    let (t, u, h) = path_text_split id ids m in
    (t, u ++ j ++ 44 ∷ [], ap (λ x. x ++ j ++ 44 ∷ []) h ∙ simp append_assoc)

like_delimited : (id t u : Text) → on_path id (t ++ (44 ∷ id ++ 44 ∷ u)) ≡ true
unfolding like one_char
like_delimited id t u =
    any_text_append (like (44 ∷ id ++ 44 ∷ 37 ∷ [])) t (44 ∷ id ++ 44 ∷ u)
      (like-append (44 ∷ id) (44 ∷ 37 ∷ []) (44 ∷ u) (any_text_end u))

-- Every id of a walk is found on its path.
pub on_path-path_text :
    (id : Text) (ids : List Text) → In id ids → on_path id (path_text ids) ≡ true
on_path-path_text id ids m =
    let (t, u, h) = path_text_split id ids m in rw h (like_delimited id t u)
