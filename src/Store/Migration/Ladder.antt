-- ===== src/Store/Migration/Ladder.antt =====
-- What the migrations of crates/storage/src/migration.rs reach, from any version and any part of a
-- step that an earlier run left behind, and what they leave when a statement fails.
pub mod Backfill
pub mod Steps
pub mod Made
pub mod Passes
pub mod Upgrade
use mathlib.Core.Path.{subst}
use merkur_db.Base.Text.{Text, text_eq, text_eq_refl, codes}
use merkur_db.Base.{
  ℕ, zero, suc, ◌≡◌, ◌≤◌, ◌<◌, refl, sym, ap, ◌∙◌, ◌⊎◌, inl, inr, Bool, true, false, not, ◌&&◌,
  List, [], ◌∷◌, ◌++◌, Option, none, some, map, any, keep, leb, ltb, if◌then◌else◌, All, All-imp,
  arith, Bool-cases, max,
}
use merkur_db.Core.Storage.{Act, pure, ◌>>=◌, ◌>>◌}
use merkur_db.Core.Types.{MerkurError, MerkurResult, ok, err}
use merkur_db.Store.Migration.{
  StoredRow, Schema, storage_error, applied, run_or_fail, execute, exists_object, create, column_in,
  add_column, is_indexed, backfill_fts, dated, backfill_valid_at, unless_column, run_v2, run_v3,
  run_v4, run_v5, run_v6, set_version, committed, migrate_step, version_read, step_if, ladder,
  migrate,
}

-- The id and the content of a row, which no migration touches.

abbrev pub row_key : StoredRow → Text × Text
row_key r = (r.id, r.content)

abbrev pub has_entry : List (Text × Text) → Text × Text → Bool
has_entry fts k = any (λ e. text_eq e.0 k.0) fts

-- The schema only grows, its version apart, and the rows keep their ids and contents.
abbrev pub Extends : Schema → Schema → Type 0
Extends d d' =
    ((table column : Text) → column_in table column d ≡ true → column_in table column d' ≡ true)
    × ((name : Text) → exists_object name d ≡ true → exists_object name d' ≡ true)
    × (map row_key d'.memories ≡ map row_key d.memories)
    × ((k : Text × Text) → has_entry d.fts k ≡ true → has_entry d'.fts k ≡ true)

Extends-refl : (d : Schema) → Extends d d
Extends-refl d = (λ t c h. h, λ n h. h, refl, λ k h. h)

Extends-trans : (a b c : Schema) → Extends a b → Extends b c → Extends a c
Extends-trans a b c (cs, os, ks, es) (cs', os', ks', es') =
    (λ t n h. cs' t n (cs t n h), λ n h. os' n (os n h), ks' ∙ ks, λ k h. es' k (es k h))

-- A predicate that growth keeps.
abbrev Stable : (Schema → Type 0) → Type 0
Stable Q = (d d' : Schema) → Extends d d' → Q d → Q d'

abbrev failed_with : MerkurError → Schema → MerkurResult (Unit {0}) × Schema
failed_with z d = (err z, d)

abbrev done : Schema → MerkurResult (Unit {0}) × Schema
done d = (ok tt, d)

err_ok : (z : MerkurError) (d d' : Schema) → failed_with z d ≡ done d' → ⊥
err_ok z d d' e = cc

same_end : (d d' : Schema) → done d ≡ done d' → d ≡ d'
same_end d d' e = ap (λ o. o.1) e

-- An action that, where it succeeds, grows the schema and reaches `Q`, and that succeeds from `P`
-- where no statement fails.
record Grows (P Q : Schema → Type 0) (m : Act Schema (Unit {0})) : Type 0 where
  grows : (d d' : Schema) → m d ≡ done d' → Extends d d' × Q d'
  quiet : (d : Schema) → P d → d.faults ≡ [] → (d' : Schema) × (m d ≡ done d') × (d'.faults ≡ [])

abbrev Always : Schema → Type 0
Always d = Unit

-- Where a statement has a result, the result is grown, satisfies `Q` and takes no fault.
abbrev Lands : (Schema → Type 0) → Schema → Option Schema → Type 0
Lands Q d none = Unit
Lands Q d (some d') = Extends d d' × Q d' × (d'.faults ≡ d.faults)

execute-Grows :
    (P Q : Schema → Type 0) (g : Schema → Option Schema)
    → ((d : Schema) → Lands Q d (g d))
    → ((d : Schema) → P d → (d' : Schema) × (g d ≡ some d'))
    → Grows P Q (execute g)
unfolding execute
execute-Grows P Q g h k = record {
  grows = λ d d' e. ran d d' d.faults e;
  quiet = λ d p q.
      let (d', e) = k d p in
      let landed : Lands Q d (some d') = subst (Lands Q d) e (h d) in
      (d', run_quiet d d.faults q ∙ ap (λ o. applied o d) e, landed.2 ∙ q);
}
  where
    landed_some :
        (d d' : Schema) (o : Option Schema)
        → Lands Q d o
        → applied o d ≡ done d'
        → Extends d d' × Q d'
    landed_some d d' none l e = absurd (err_ok storage_error d d' e)
    landed_some d d' (some x) l e = subst (λ y. Extends d y × Q y) (same_end x d' e) (l.0, l.1)

    run_quiet : (d : Schema) (fs : List Bool) → fs ≡ [] → run_or_fail g fs d ≡ applied (g d) d
    run_quiet d [] q = refl
    run_quiet d (b ∷ fs) q = absurd (cc)

    ran : (d d' : Schema) (fs : List Bool) → run_or_fail g fs d ≡ done d' → Extends d d' × Q d'
    ran d d' [] e = landed_some d d' (g d) (h d) e
    ran d d' (true ∷ fs) e = absurd (err_ok storage_error (record d { faults = fs }) d' e)
    ran d d' (false ∷ fs) e =
        landed_some (record d { faults = fs }) d' (g (record d { faults = fs }))
          (h (record d { faults = fs })) e

then-Grows :
    (P Q R : Schema → Type 0) (m n : Act Schema (Unit {0}))
    → Grows P Q m
    → Grows Q R n
    → Stable Q
    → Grows P (λ d. Q d × R d) (m >> n)
then-Grows P Q R m n gm gn st = record {
  grows = λ d d' e. split d d' (m d) refl e;
  quiet = λ d p q.
      let (d1, e1, q1) = gm.quiet d p q in
      let (d2, e2, q2) = gn.quiet d1 (gm.grows d d1 e1).1 q1 in (d2, rw e1 e2, q2);
}
  where
    split :
        (d d' : Schema) (out : MerkurResult (Unit {0}) × Schema)
        → m d ≡ out
        → (m >> n) d ≡ done d'
        → Extends d d' × (Q d' × R d')
    split d d' (ok u, d1) e0 e =
        let (x1, q1) = gm.grows d d1 e0 in
        let (x2, r2) = gn.grows d1 d' (rw e0 at e) in
        (Extends-trans d d1 d' x1 x2, (st d1 d' x2 q1, r2))
    split d d' (err z, d1) e0 e = absurd (err_ok z d1 d' (rw e0 at e))

create-Grows :
    (name : Text) → Grows Always (λ d. exists_object name d ≡ true) (execute (create name))
create-Grows name =
    execute-Grows Always (λ d. exists_object name d ≡ true) (create name) made (λ d p. (_, refl))
  where
    made : (d : Schema) → Lands (λ d. exists_object name d ≡ true) d (create name d)
    made d = elim (Bool-cases (exists_object name d)) [
      | inl h ↦ rw h (Extends-refl d, h, refl)
      | inr h ↦ rw h (
        (λ t c h. h, λ n h. ground (arith, h), refl, λ k h. h),
        ground (arith, text_eq_refl name),
        refl,
      )
    ]

look-Grows : Grows Always Always (execute some)
look-Grows = execute-Grows Always Always some (λ d. (Extends-refl d, tt, refl)) (λ d p. (d, refl))

weaken :
    {P : Schema → Type 0} {m : Act Schema (Unit {0})} (Q R : Schema → Type 0)
    → ((d : Schema) → Q d → R d)
    → Grows P Q m
    → Grows P R m
weaken Q R h g = record {
  grows = λ d d' e. let (x, q) = g.grows d d' e in (x, h d' q);
  quiet = g.quiet;
}

loosen : {P Q : Schema → Type 0} {m : Act Schema (Unit {0})} → Grows Always Q m → Grows P Q m
loosen g = record { grows = g.grows; quiet = λ d p q. g.quiet d tt q }
