-- ===== src/Store/Graph/Like.antt =====
-- The operator `LIKE` of the queries of crates/storage/src/sqlite_helpers.rs: `%` stands for any
-- text, `_` for any character, and ASCII letters match in either case.
use merkur_db.Base.Text.{Text}
use merkur_db.Base.{ℕ, ◌+◌, Bool, true, false, ◌&&◌, ◌||◌, [], ◌∷◌, leb, ◌==◌, if◌then◌else◌}

abbrev pub fold_case : ℕ → ℕ
fold_case c = if leb 65 c && leb c 90 then c + 32 else c

-- `%`: what follows matches some end of the text.
unfoldable pub any_text : (Text → Bool) → Text → Bool
any_text k [] = k []
any_text k (d ∷ s) = k (d ∷ s) || any_text k s

unfoldable pub one_char : ℕ → (Text → Bool) → Text → Bool
one_char c k [] = false
one_char c k (d ∷ s) = (c == 95 || fold_case c == fold_case d) && k s

unfoldable pub like : Text → Text → Bool
unfolding any_text one_char
like [] [] = true
like [] (d ∷ s) = false
like (c ∷ p) s = if c == 37 then any_text (like p) s else one_char c (like p) s
