-- ===== src/Store/Migration/Ladder/Passes.antt =====
-- step_if and ladder of crates/storage/src/migration.rs: the outcomes of a run of steps.
use mathlib.Core.Path.{subst}
use merkur_db.Base.{
  ℕ, zero, suc, ◌≡◌, ◌≤◌, ◌<◌, refl, sym, ap, ◌∙◌, inl, inr, true, [], ltb, max, arith, Bool-cases,
  ltb→lt,
}
use merkur_db.Core.Storage.{Act, and_then, ◌>>◌}
use merkur_db.Core.Types.{MerkurResult, ok, err}
use merkur_db.Store.Migration.{
  Schema, run_v2, run_v3, run_v4, run_v5, run_v6, committed, migrate_step, step_if, ladder,
}
use merkur_db.Store.Migration.Ladder.{Extends-refl, done, Grows, Always}
use merkur_db.Store.Migration.Ladder.Steps.{
  Has, run_v2-Has, run_v3-Has, run_v4-Has, run_v5-Has, run_v6-Has,
}
use merkur_db.Store.Migration.Ladder.Made.{
  version_of, Made, Upgraded, SameRows, Made-Stable, Made-suc, body, step_ran, body_quiet,
}

-- An outcome: after success `Q`, after a failure a schema that has all that its version says; in
-- both cases the rows are there.
abbrev pub Outcome : (Schema → Type 0) → Schema → MerkurResult (Unit {0}) × Schema → Type 0
Outcome Q d (ok u, d') = Q d' × SameRows d d'
Outcome Q d (err z, d') = Upgraded d' × SameRows d d'

pub record Passes (P Q : Schema → Type 0) (m : Act Schema (Unit {0})) : Type 0 where
  pub after : (d : Schema) → P d → Outcome Q d (m d)
  pub quiet :
      (d : Schema) → P d → d.faults ≡ [] → (d' : Schema) × (m d ≡ done d') × (d'.faults ≡ [])

pub then_after :
    (P Q R : Schema → Type 0) (m n : Act Schema (Unit {0}))
    → ((d : Schema) → P d → Outcome Q d (m d))
    → ((d : Schema) → Q d → Outcome R d (n d))
    → (d : Schema) → P d
    → Outcome R d ((m >> n) d)
then_after P Q R m n h k d p = go (m d) (h d p)
  where
    shifted :
        (d d1 : Schema) (out : MerkurResult (Unit {0}) × Schema)
        → SameRows d d1
        → Outcome R d1 out
        → Outcome R d out
    shifted d d1 (ok u, d') s o = (o.0, o.1 ∙ s)
    shifted d d1 (err z, d') s o = (o.0, o.1 ∙ s)

    go :
        (out : MerkurResult (Unit {0}) × Schema)
        → Outcome Q d out
        → Outcome R d (and_then out (λ u. n))
    go (ok u, d1) o = shifted d d1 (n d1) o.1 (k d1 o.0)
    go (err z, d1) o = o

pub then-Passes :
    (P Q R : Schema → Type 0) (m n : Act Schema (Unit {0}))
    → Passes P Q m
    → Passes Q R n
    → Passes P R (m >> n)
then-Passes P Q R m n pm pn = record {
  after = then_after P Q R m n pm.after pn.after;
  quiet = λ d p q.
      let (d1, e1, q1) = pm.quiet d p q in
      let reached : Outcome Q d (done d1) = subst (Outcome Q d) e1 (pm.after d p) in
      let (d2, e2, q2) = pn.quiet d1 reached.0 q1 in
      (d2, ap (λ out. and_then out (λ u. n)) e1 ∙ e2, q2);
}

-- Before the step behind version `k`, on the way from version `v`.
abbrev pub Stage : ℕ → ℕ → Schema → Type 0
Stage v k d = Made (max v k) d × (version_of d.version ≡ max v k)

pub Stage-Upgraded : (v k : ℕ) (d : Schema) → Stage v k d → Upgraded d
Stage-Upgraded v k d (m, e) = subst (λ w. Made w d) (sym e) m

step_if-Passes :
    (v prev p : ℕ) (run : Act Schema (Unit {0}))
    → Grows Always (Has (suc p)) run
    → (v < suc p → (d : Schema) → Made (max v prev) d → Made p d)
    → (suc p ≤ v → max v prev ≡ max v (suc p))
    → Passes (Stage v prev) (Stage v (suc p)) (step_if v (suc p) run)
unfolding step_if migrate_step
step_if-Passes v prev p run g fill skip = elim (Bool-cases (ltb v (suc p))) [
  | inr h ↦ rw h (record {
    after = λ d st.
        (subst (λ w. Made w d × (version_of d.version ≡ w)) (skip (ground (arith, h))) st, refl);
    quiet = λ d st q. (d, refl, q);
  })
  | inl h ↦ rw h (record {
    after = λ d st. stepped h d st (body (suc p) run d) refl;
    quiet = λ d st q. let (d', e, q') = body_quiet (suc p) run d g q in (d', rw e refl, q');
  })
]
  where
    stepped :
        ltb v (suc p) ≡ true
        → (d : Schema) → Stage v prev d
        → (out : MerkurResult (Unit {0}) × Schema) → body (suc p) run d ≡ out
        → Outcome (Stage v (suc p)) d (committed d out)
    stepped h d st (ok u, d') e =
        let (x, made, ver) = step_ran (suc p) run d d' g e in
        let top : suc p ≡ max v (suc p) = ground (arith, h) in
        let all = Made-suc p d' (Made-Stable p d d' x (fill (ltb→lt v (suc p) h) d st.0)) made in
        ((subst (λ w. Made w d') top all, ap version_of ver ∙ top), x.2)
    stepped h d st (err z, d') e =
        let rolled : Schema = record d { faults = d'.faults } in
        (
          Made-Stable (version_of d.version) d rolled (Extends-refl d) (Stage-Upgraded v prev d st),
          refl,
        )

next_step :
    (v k : ℕ) (run : Act Schema (Unit {0}))
    → Grows Always (Has (suc k)) run
    → Passes (Stage v k) (Stage v (suc k)) (step_if v (suc k) run)
next_step v k run g =
    step_if-Passes v k k run g
      (λ l d m. let top : max v k ≡ k = ground (arith, l) in subst (λ w. Made w d) top m)
      (λ l. ground (arith, l))

first_step : (v : ℕ) → Passes (Stage v 0) (Stage v 2) (step_if v 2 run_v2)
first_step v = step_if-Passes v 0 1 run_v2 run_v2-Has (λ l d m. started d) (λ l. ground (arith, l))
  where
    started : (d : Schema) → Made 1 d
    started d zero l = tt
    started d (suc zero) l = tt
    started d (suc (suc j)) l = absurd (ground (arith, l))

pub ladder-Passes : (v : ℕ) → Passes (Stage v 0) (Stage v 6) (ladder v)
unfolding ladder
ladder-Passes v =
    then-Passes (Stage v 0) (Stage v 2) (Stage v 6) (step_if v 2 run_v2) _ (first_step v) (
      then-Passes (Stage v 2) (Stage v 3) (Stage v 6) (step_if v 3 run_v3) _
        (next_step v 2 run_v3 run_v3-Has)
        (then-Passes (Stage v 3) (Stage v 4) (Stage v 6) (step_if v 4 run_v4) _
          (next_step v 3 run_v4 run_v4-Has)
          (then-Passes (Stage v 4) (Stage v 5) (Stage v 6) (step_if v 5 run_v5) _
            (next_step v 4 run_v5 run_v5-Has) (next_step v 5 run_v6 run_v6-Has))))
