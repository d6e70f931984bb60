-- ===== src/Store/Migration/Ladder/Made.antt =====
-- The transaction of one step of crates/storage/src/migration.rs, and a schema against its version.
use mathlib.Core.Path.{subst}
use merkur_db.Base.{
  ℕ, zero, suc, ◌≡◌, ◌≤◌, refl, ◌∙◌, inl, inr, Bool, true, false, List, [], ◌∷◌, Option, none, some,
  map, leb, arith, Bool-cases, leb→le,
}
use merkur_db.Base.Text.{codes}
use merkur_db.Core.Storage.{Act, ◌>>◌}
use merkur_db.Core.Types.{MerkurResult, ok, err}
use merkur_db.Store.Migration.{Schema, storage_error, run_or_fail, execute, set_version}
use merkur_db.Store.Migration.Ladder.{
  row_key, Extends, Extends-refl, Extends-trans, Stable, done, err_ok, same_end, Grows, Always,
  execute-Grows, look-Grows,
}
use merkur_db.Store.Migration.Ladder.Backfill.{Covered-Stable}
use merkur_db.Store.Migration.Ladder.Steps.{Has}

-- The version that a migration starts from.
abbrev pub version_of : Option (Option ℕ) → ℕ
version_of none = 0
version_of (some none) = 0
version_of (some (some v)) = v

abbrev pub Made : ℕ → Schema → Type 0
Made v d = (j : ℕ) → j ≤ v → Has j d

-- The schema has all that its version says.
abbrev pub Upgraded : Schema → Type 0
Upgraded d = Made (version_of d.version) d

abbrev pub SameRows : Schema → Schema → Type 0
SameRows d d' = map row_key d'.memories ≡ map row_key d.memories

Has-Stable : (j : ℕ) → Stable (Has j)
Has-Stable zero d d' x h = tt
Has-Stable (suc zero) d d' x h = tt
Has-Stable (suc (suc zero)) d d' x (a, (b, (c, (e, f)))) = (
  x.1 (codes "memories_fts") a,
  (
    x.1 (codes "memories_fts_ai") b,
    (x.1 (codes "memories_fts_ad") c, (x.1 (codes "memories_fts_au") e, Covered-Stable d d' x f)),
  ),
)
Has-Stable (suc (suc (suc zero))) d d' x (a, b) =
    (x.0 (codes "memories") (codes "namespace") a, x.1 (codes "idx_mem_namespace") b)
Has-Stable (suc (suc (suc (suc zero)))) d d' x (a, b) =
    (x.0 (codes "memories") (codes "importance") a, x.1 (codes "idx_mem_importance") b)
Has-Stable (suc (suc (suc (suc (suc zero))))) d d' x (a, b) =
    (x.0 (codes "memories") (codes "valid_at") a, x.0 (codes "memories") (codes "invalid_at") b)
Has-Stable (suc (suc (suc (suc (suc (suc zero)))))) d d' x (a, b) = (
  x.0 (codes "consolidate_log") (codes "absorptions") a,
  x.0 (codes "consolidate_log") (codes "invalidations") b,
)
Has-Stable (suc (suc (suc (suc (suc (suc (suc k))))))) d d' x h = tt

pub Made-Stable : (v : ℕ) → Stable (Made v)
Made-Stable v d d' x h j l = Has-Stable j d d' x (h j l)

pub Made-suc : (k : ℕ) (d : Schema) → Made k d → Has (suc k) d → Made (suc k) d
Made-suc k d m h j l = elim (Bool-cases (leb j k)) [
  | inl e ↦ m j (leb→le j k e)
  | inr e ↦ let same : suc k ≡ j = ground (arith, e, l) in subst (λ i. Has i d) same h
]

bound :
    (m n : Act Schema (Unit {0})) (d d' : Schema)
    → (m >> n) d ≡ done d'
    → (d1 : Schema) × (m d ≡ done d1) × (n d1 ≡ done d')
bound m n d d' e = go (m d) refl
  where
    go :
        (out : MerkurResult (Unit {0}) × Schema)
        → m d ≡ out
        → (d1 : Schema) × (m d ≡ done d1) × (n d1 ≡ done d')
    go (ok u, d1) k = (d1, k, rw k at e)
    go (err z, d1) k = absurd (err_ok z d1 d' (rw k at e))

-- A look changes only the faults.
look_ran :
    (fs : List Bool) (d d' : Schema)
    → run_or_fail some fs d ≡ done d'
    → (d'.version ≡ d.version) × Extends d d'
look_ran [] d d' e =
    subst (λ x. (x.version ≡ d.version) × Extends d x) (same_end d d' e) (refl, Extends-refl d)
look_ran (true ∷ fs) d d' e = absurd (err_ok storage_error (record d { faults = fs }) d' e)
look_ran (false ∷ fs) d d' e =
    subst (λ x. (x.version ≡ d.version) × Extends d x) (same_end (record d { faults = fs }) d' e)
      (refl, Extends-refl d)

set_ran :
    (k : ℕ) (fs : List Bool) (d d' : Schema)
    → run_or_fail (set_version k) fs d ≡ done d'
    → (d'.version ≡ some (some k)) × Extends d d'
set_ran k [] d d' e =
    subst (λ x. (x.version ≡ some (some k)) × Extends d x)
      (same_end (record d { version = some (some k) }) d' e) (refl, Extends-refl d)
set_ran k (true ∷ fs) d d' e = absurd (err_ok storage_error (record d { faults = fs }) d' e)
set_ran k (false ∷ fs) d d' e =
    subst (λ x. (x.version ≡ some (some k)) × Extends d x)
      (same_end (record d { faults = fs; version = some (some k) }) d' e) (refl, Extends-refl d)

-- The transaction of a step.
abbrev pub body : ℕ → Act Schema (Unit {0}) → Act Schema (Unit {0})
body k run = execute some >> (run >> (execute (set_version k) >> execute some))

-- A step that commits has made its objects and its version.
pub step_ran :
    (k : ℕ) (run : Act Schema (Unit {0})) (d d' : Schema)
    → Grows Always (Has k) run
    → body k run d ≡ done d'
    → Extends d d' × Has k d' × (d'.version ≡ some (some k))
unfolding execute
step_ran k run d d' g e =
    let (d1, e1, r1) =
      bound (execute some) (run >> (execute (set_version k) >> execute some)) d d' e in
    let (d2, e2, r2) = bound run (execute (set_version k) >> execute some) d1 d' r1 in
    let (d3, e3, r3) = bound (execute (set_version k)) (execute some) d2 d' r2 in
    let (v1, x1) = look_ran d.faults d d1 e1 in
    let (x2, h2) = g.grows d1 d2 e2 in
    let (v3, x3) = set_ran k d2.faults d2 d3 e3 in
    let (v4, x4) = look_ran d3.faults d3 d' r3 in
    let later = Extends-trans d2 d3 d' x3 x4 in
    (
      Extends-trans d d1 d' x1 (Extends-trans d1 d2 d' x2 later),
      Has-Stable k d2 d' later h2,
      v4 ∙ v3,
    )

set-Grows : (k : ℕ) → Grows Always Always (execute (set_version k))
set-Grows k =
    execute-Grows Always Always (set_version k) (λ d. (Extends-refl d, tt, refl)) (λ d p. (_, refl))

pub body_quiet :
    (k : ℕ) (run : Act Schema (Unit {0})) (d : Schema)
    → Grows Always (Has k) run
    → d.faults ≡ []
    → (d' : Schema) × (body k run d ≡ done d') × (d'.faults ≡ [])
body_quiet k run d g q =
    let (d1, e1, q1) = look-Grows.quiet d tt q in
    let (d2, e2, q2) = g.quiet d1 tt q1 in
    let (d3, e3, q3) = (set-Grows k).quiet d2 tt q2 in
    let (d4, e4, q4) = look-Grows.quiet d3 tt q3 in (d4, rw e1 (rw e2 (rw e3 e4)), q4)
