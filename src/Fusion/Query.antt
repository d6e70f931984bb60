-- ===== src/Fusion/Query.antt =====
-- escape_fts_query and is_bm25_viable of crates/core/src/search_fusion.rs, against the reading of a
-- string literal in an FTS5 expression.
use merkur_db.Base.Text.{Text, trim}
use merkur_db.Base.{
  ℕ, ◌≡◌, refl, Bool, false, [], ◌∷◌, ◌++◌, Option, none, some, arith, leb, ◌==◌, if◌then◌else◌,
  length, Bool-cases, inl, inr,
}

-- `replace('"', "\"\"")`
unfoldable pub double_quotes : Text → Text
double_quotes [] = []
double_quotes (c ∷ s) = if c == b'"' then b'"' ∷ b'"' ∷ double_quotes s else c ∷ double_quotes s

unfoldable pub escape_fts_query : Text → Text
unfolding double_quotes
escape_fts_query [] = []
escape_fts_query (c ∷ s) = b'"' ∷ double_quotes (c ∷ s) ++ b'"' ∷ []

unfoldable pub is_bm25_viable : Text → Bool
unfolding trim
is_bm25_viable raw = leb 3 (length (trim raw))

abbrev prefixed : ℕ → Option (Text × Text) → Option (Text × Text)
prefixed c none = none
prefixed c (some (s, rest)) = some (c ∷ s, rest)

-- An SQL string literal behind its opening quote: a doubled quote is one quote, a single one ends
-- the literal. The result is its content and what follows.
pub read_literal : Text → Option (Text × Text)
read_literal [] = none
read_literal (c ∷ []) = if c == b'"' then some ([], []) else none
read_literal (c ∷ d ∷ s) =
    let quote = prefixed b'"' (read_literal s) in
    let plain = prefixed c (read_literal (d ∷ s)) in
    if c == b'"' then (if d == b'"' then quote else some ([], d ∷ s)) else plain

read_literal-plain :
    (c : ℕ) (s : Text) (r : Text × Text)
    → (c == b'"') ≡ false
    → read_literal s ≡ some r
    → read_literal (c ∷ s) ≡ prefixed c (some r)
unfolding read_literal
read_literal-plain c [] r h e = absurd (ground arith)
read_literal-plain c (d ∷ s) r h e = ground arith

read_literal-double_quotes : (s : Text) → read_literal (double_quotes s ++ b'"' ∷ []) ≡ some (s, [])
unfolding read_literal double_quotes
read_literal-double_quotes [] = refl
read_literal-double_quotes (c ∷ s) =
    let ih = read_literal-double_quotes s in
    elim (Bool-cases (c == b'"')) [
      | inl h ↦ let e : c ≡ b'"' = ground arith in rw (h, ih) (ground arith)
      | inr h ↦ rw h (read_literal-plain c _ (s, []) h ih)
    ]

-- The full-text expression that the engine is given.
abbrev pub Expression : Text → Text → Type 0
Expression raw [] = raw ≡ []
Expression raw (c ∷ s) = (c ≡ b'"') × (read_literal s ≡ some (raw, []))

-- Whatever the user types, the escaped query is empty (only for an empty query) or one string
-- literal and nothing else: read back, its content is exactly the raw query.
pub escape_is_one_literal : (raw : Text) → Expression raw (escape_fts_query raw)
unfolding escape_fts_query
escape_is_one_literal [] = refl
escape_is_one_literal (c ∷ s) = (refl, read_literal-double_quotes (c ∷ s))
