-- ===== src/Server/Namespace/Bucket.antt =====
-- The bucket of crates/server/src/handlers/namespace.rs is the one that the store writes to.
use merkur_db.Base.Text.{Text, trim, trim_start, trim_end, is_whitespace}
use merkur_db.Base.{
  ◌≡◌, ◌≢◌, ◌⊎◌, inl, inr, refl, ap, ◌∙◌, Bool, true, [], ◌∷◌, Option, none, some, any, not, arith,
  Bool-cases,
}
use merkur_db.Core.Types.{default_namespace}
use merkur_db.Server.Namespace.{from_request_parts, non_empty}
use merkur_db.Store.Insert.{effective_namespace, unwrap_or}

abbrev ink : Text → Bool
ink s = any (λ c. not (is_whitespace c)) s

ink-trim_start : (s : Text) → ink (trim_start s) ≡ ink s
unfolding trim_start
ink-trim_start [] = refl
ink-trim_start (c ∷ s) = elim (Bool-cases (is_whitespace c)) [
  | inl h ↦ rw h (ink-trim_start s)
  | inr h ↦ rw h (rw h refl)
]

trim_start_inked : (s : Text) → (trim_start s ≡ []) ⊎ (ink (trim_start s) ≡ true)
unfolding trim_start
trim_start_inked [] = inl refl
trim_start_inked (c ∷ s) = elim (Bool-cases (is_whitespace c)) [
  | inl h ↦ rw h (trim_start_inked s)
  | inr h ↦ rw h (rw h (inr refl))
]

ink-trim_end : (s : Text) → ink (trim_end s) ≡ ink s
unfolding trim_end
ink-trim_end [] = refl
ink-trim_end (c ∷ s) = ground (arith, ink-trim_end s)

trim_inked : (s : Text) → ink s ≡ true → ink (trim s) ≡ true
unfolding trim
trim_inked s h = ink-trim_end (trim_start s) ∙ ink-trim_start s ∙ h

trim_visible : (s : Text) → trim s ≢ [] → ink (trim s) ≡ true
unfolding trim
trim_visible s h = elim (trim_start_inked s) [
  | inl e ↦ absurd (h (ap trim_end e))
  | inr e ↦ ink-trim_end (trim_start s) ∙ e
]

stored_as_given : (ns : Text) → ink (trim ns) ≡ true → effective_namespace ns ≡ ns
unfolding effective_namespace
stored_as_given ns h = given (trim ns) h
  where
    given :
        (t : Text)
        → ink t ≡ true
        → elim t as (λ x. Text) [ [] ↦ default_namespace | c ∷ s ↦ ns ] ≡ ns
    given [] h = absurd (ground arith)
    given (c ∷ s) h = refl

default_inked : ink (trim default_namespace) ≡ true
unfolding trim
default_inked = refl

or_default :
    (t : Text)
    → (t ≢ [] → ink (trim t) ≡ true)
    → effective_namespace (unwrap_or (non_empty t) default_namespace)
      ≡ unwrap_or (non_empty t) default_namespace
or_default [] h = stored_as_given default_namespace default_inked
or_default (c ∷ s) h = stored_as_given (c ∷ s) (h (λ e. cc))

-- Whatever the header holds, the namespace that the store writes for a request's bucket is that
-- bucket itself.
pub effective_namespace-from_request_parts :
    (header : Option Text)
    → effective_namespace (from_request_parts header) ≡ from_request_parts header
unfolding from_request_parts
effective_namespace-from_request_parts none = stored_as_given default_namespace default_inked
effective_namespace-from_request_parts (some v) =
    or_default (trim v) λ h. trim_inked (trim v) (trim_visible v h)
