-- ===== src/Consolidators/Extract.antt =====
-- extract_json_object of crates/consolidators/src/llm.rs, with the methods of `str` that it calls.
pub mod Object
use merkur_db.Base.Text.{
  Text, strip_prefix, text_eq, text_dec, codes, is_whitespace, trim_start, trim_end, trim,
}
use mathlib.Core.Option.{map}
use merkur_db.Store.Insert.{unwrap_or}
use merkur_db.Base.{
  ℕ, zero, suc, ◌-◌, ◌≡◌, refl, sym, ap, ◌∙◌, Bool, true, false, ◌&&◌, List, [], ◌∷◌, ◌++◌, Option,
  none, some, any, take, drop, length, leb, ◌==◌, if◌then◌else◌, arith,
}

-- `str::strip_suffix`
unfoldable pub strip_suffix : Text → Text → Option Text
strip_suffix p [] = if text_eq p [] then some [] else none
strip_suffix p (c ∷ s) = if text_eq p (c ∷ s) then some [] else map (λ t. c ∷ t) (strip_suffix p s)

-- `str::find` and `str::rfind` of a character, in characters where the source counts bytes.
unfoldable pub find_char : ℕ → Text → Option ℕ
find_char c [] = none
find_char c (d ∷ s) = if d == c then some 0 else map suc (find_char c s)

unfoldable pub rfind_char : ℕ → Text → Option ℕ
rfind_char c [] = none
rfind_char c (d ∷ s) = elim (rfind_char c s) [
  | none ↦ if d == c then some 0 else none
  | some i ↦ some (suc i)
]

abbrev pub is_char : ℕ → ℕ → Bool
is_char c d = d == c

abbrev pub or : {A : Type 0} → Option A → Option A → Option A
or none b = b
or (some a) b = some a

-- The fence of a code block and the tag of its language.
unfoldable pub strip_fences : Text → Text
unfolding strip_prefix strip_suffix trim_start trim_end
strip_fences trimmed =
    let opened =
      unwrap_or
        (map trim_start
          (or (strip_prefix (codes "```json") trimmed) (strip_prefix (codes "```") trimmed)))
        trimmed in
    unwrap_or (map trim_end (strip_suffix (codes "```") opened)) opened

-- `if let (Some(start), Some(end)) = … && end >= start { return &stripped[start..=end]; }`
unfoldable pub slice_object : Text → Option ℕ → Option ℕ → Text
slice_object s none last = s
slice_object s (some start) none = s
slice_object s (some start) (some last) =
    if leb start last then take (suc last - start) (drop start s) else s

-- 123 and 125 are the braces.
unfoldable pub extract_json_object : Text → Text
unfolding strip_fences find_char rfind_char slice_object trim
extract_json_object s =
    let stripped = strip_fences (trim s) in
    slice_object stripped (find_char 123 stripped) (rfind_char 125 stripped)
