-- ===== src/Service/Drops.antt =====
-- What cleanIndexes of internal/service/runner.go leaves when it works.
use sql_sentinel.Prelude.{
  ◌≡◌, ◌≢◌, refl, sym, ap, ◌∙◌, subst, arith, Bool, true, false, Option, none, some, inl, inr, List,
  [], ◌∷◌, any, All, Bool-cases,
}
use sql_sentinel.Prelude.Bytes.{Bytes, bytes_eq_refl, has_prefix}
use sql_sentinel.Kafka.Model.{Err, Result, ok, err}
use sql_sentinel.Kafka.Mysql.Db.{
  Db, Fault, fails, lost, Sql, exec, serve, resume, after_step, after_lost,
}
use sql_sentinel.Service.Shadow.{
  Index, ShadowTables, prefix, same_place, removed, listed, is_foreign, drop, drop_all,
  clean_indexes,
}

-- The index of no candidate
abbrev pub IsOrdinary : Index → Type 0
IsOrdinary i = has_prefix i.name prefix ≡ false

removed-All :
    (P : Index → Type 0) (i : Index) (indexes : List Index)
    → All P indexes
    → All P (removed i indexes)
unfolding removed
removed-All P i [] h = tt
removed-All P i (j ∷ indexes) h = elim (Bool-cases (same_place i j)) [
  | inl same ↦ rw same (removed-All P i indexes h.1)
  | inr other ↦ rw other (h.0, removed-All P i indexes h.1)
]

-- What is left apart from i is at other places.
removed-other :
    (i : Index) (indexes : List Index) → All (λ j. same_place i j ≡ false) (removed i indexes)
unfolding removed
removed-other i [] = tt
removed-other i (j ∷ indexes) = elim (Bool-cases (same_place i j)) [
  | inl same ↦ rw same (removed-other i indexes)
  | inr other ↦ rw other (other, removed-other i indexes)
]

All-map :
    (P Q : Index → Type 0) (indexes : List Index)
    → ((i : Index) → P i → Q i)
    → All P indexes
    → All Q indexes
All-map P Q [] f h = tt
All-map P Q (i ∷ indexes) f h = (f i h.0, All-map P Q indexes f h.1)

All-both :
    (P Q : Index → Type 0) (indexes : List Index)
    → All P indexes
    → All Q indexes
    → All (λ i. P i × Q i) indexes
All-both P Q [] h k = tt
All-both P Q (i ∷ indexes) h k = ((h.0, k.0), All-both P Q indexes h.1 k.1)

same_place_refl : (i : Index) → same_place i i ≡ true
unfolding same_place
same_place_refl i = rw (bytes_eq_refl i.table, bytes_eq_refl i.name) refl

-- Every index is ordinary or stands in the list.
abbrev IsCovered : List Index → Index → Type 0
IsCovered names i = has_prefix i.name prefix ≡ true → any (λ j. same_place j i) names ≡ true

module _ (like : Bytes → Bool)
    (taken : (name : Bytes) → has_prefix name prefix ≡ true → like name ≡ true) where
  IsCovered-later :
      (i : Index) (names indexes : List Index)
      → All (IsCovered names) indexes
      → All (IsCovered (i ∷ names)) indexes
  IsCovered-later i names indexes =
      All-map (IsCovered names) (IsCovered (i ∷ names)) indexes (λ j c p. ground (arith, c p))

  listed_step :
      (i : Index) (indexes : List Index)
      → like i.name ≡ true
      → listed like (i ∷ indexes) ≡ i ∷ listed like indexes
  unfolding listed
  listed_step i indexes h = rw h refl

  listed_skip :
      (i : Index) (indexes : List Index)
      → like i.name ≡ false
      → listed like (i ∷ indexes) ≡ listed like indexes
  unfolding listed
  listed_skip i indexes h = rw h refl

  listed-IsCovered : (indexes : List Index) → All (IsCovered (listed like indexes)) indexes
  listed-IsCovered [] = tt
  listed-IsCovered (i ∷ indexes) =
      let later = listed-IsCovered indexes in
      elim (Bool-cases (like i.name)) [
        | inl there ↦
            subst (λ names. All (IsCovered names) (i ∷ indexes)) (sym (listed_step i indexes there))
              (
                (λ p. rw (same_place_refl i) refl),
                IsCovered-later i (listed like indexes) indexes later,
              )
        | inr off ↦
            subst (λ names. All (IsCovered names) (i ∷ indexes)) (sym (listed_skip i indexes off))
              ((λ p. absurd (ground (arith, taken i.name p, off))), later)
      ]

IsCovered-nil : (i : Index) → IsCovered [] i → IsOrdinary i
IsCovered-nil i c = elim (Bool-cases (has_prefix i.name prefix)) [
  | inl p ↦ absurd (ground (arith, c p))
  | inr p ↦ p
]

IsCovered-tail :
    (j : Index) (names : List Index) (i : Index)
    → (IsCovered (j ∷ names) i) × (same_place j i ≡ false)
    → IsCovered names i
IsCovered-tail j names i (c, other) p = rw (other) at (c p)

module _ {R : Type 0} where
  step-ok :
      {A : Type 0} (db : Db (ShadowTables R)) (x : Result A × ShadowTables R) (a : A)
      → (after_step db x).0 ≡ ok a
      → (x.0 ≡ ok a) × ((after_step db x).1.tables ≡ x.1)
  step-ok db (r, t) a h = (h, refl)

  lost-err :
      {A : Type 0} (e : Err) (db : Db (ShadowTables R)) (x : Result A × ShadowTables R) (a : A)
      → (after_lost e db x).0 ≢ ok a
  lost-err e db (r, t) a h = ground (arith, h)

  serve-ok :
      {A : Type 0} (step : ShadowTables R → Result A × ShadowTables R)
      (faults : List (Option Fault)) (db : Db (ShadowTables R)) (a : A)
      → (serve faults step db).0 ≡ ok a
      → ((step db.tables).0 ≡ ok a) × ((serve faults step db).1.tables ≡ (step db.tables).1)
  serve-ok step [] db a h = step-ok db (step db.tables) a h
  serve-ok step (none ∷ rest) db a h = step-ok (record db { faults = rest }) (step db.tables) a h
  serve-ok step (some (fails e) ∷ rest) db a h = absurd (ground (arith, h))
  serve-ok step (some (lost e) ∷ rest) db a h =
      absurd (lost-err e (record db { faults = rest }) (step db.tables) a h)

  pub exec-ok :
      {A : Type 0} (step : ShadowTables R → Result A × ShadowTables R) (db : Db (ShadowTables R))
      (a : A)
      → (exec step db).0 ≡ ok a
      → ((step db.tables).0 ≡ ok a) × ((exec step db).1.tables ≡ (step db.tables).1)
  unfolding exec
  exec-ok step db a h = serve-ok step db.faults db a h

  pub bind-ok :
      {A B : Type 0} (x : Result A × Db (ShadowTables R)) (f : A → Sql (ShadowTables R) B) (b : B)
      → (resume f x).0 ≡ ok b
      → (a : A) × (x.0 ≡ ok a) × (resume f x ≡ f a x.1)
  bind-ok (ok a, db) f b h = (a, refl, refl)
  bind-ok (err e, db) f b h = absurd (ground (arith, h))

  dropped :
      (i : Index) (t : ShadowTables R)
      → (drop i t).0 ≡ ok tt
      → (drop i t).1.indexes ≡ removed i t.indexes
  dropped i t h = ground (arith, h)

  -- Once every listed index is dropped, none of a candidate is left.
  drop_all-IsOrdinary :
      (names : List Index) (db : Db (ShadowTables R))
      → All (IsCovered names) db.tables.indexes
      → (drop_all names db).0 ≡ ok tt
      → All IsOrdinary (drop_all names db).1.tables.indexes
  unfolding drop_all
  drop_all-IsOrdinary [] db c h =
      All-map (IsCovered []) IsOrdinary db.tables.indexes IsCovered-nil c
  drop_all-IsOrdinary (i ∷ names) db c h = elim (Bool-cases (is_foreign i)) [
    | inl foreign ↦ absurd (ground (arith, h, foreign))
    | inr own ↦
        let step = exec (drop i) db in
        let h' : (resume (λ x. drop_all names) step).0 ≡ ok tt = rw own at h in
        let (x, done, same) = bind-ok step (λ x. drop_all names) tt h' in
        let (dropping, tables) = exec-ok (drop i) db x done in
        let left = ap (λ t. t.indexes) tables ∙ dropped i db.tables dropping in
        let rest =
          All-map (λ j. IsCovered (i ∷ names) j × (same_place i j ≡ false)) (IsCovered names)
            (removed i db.tables.indexes) (IsCovered-tail i names)
            (All-both (IsCovered (i ∷ names)) (λ j. same_place i j ≡ false)
              (removed i db.tables.indexes)
              (removed-All (IsCovered (i ∷ names)) i db.tables.indexes c)
              (removed-other i db.tables.indexes)) in
        rw own (
          subst (λ y. All IsOrdinary y.1.tables.indexes) (sym same)
            (drop_all-IsOrdinary names step.1 (subst (All (IsCovered names)) (sym left) rest)
              (ap (λ y. y.0) (sym same) ∙ h')))
  ]

  pub clean_indexes-IsOrdinary :
      (like : Bytes → Bool)
      → ((name : Bytes) → has_prefix name prefix ≡ true → like name ≡ true)
      → (db : Db (ShadowTables R)) → (clean_indexes like db).0 ≡ ok tt
      → All IsOrdinary (clean_indexes like db).1.tables.indexes
  unfolding clean_indexes
  clean_indexes-IsOrdinary like taken db h =
      let read : ShadowTables R → Result (List Index) × ShadowTables R =
        λ t. (ok (listed like t.indexes), t) in
      let (names, found, same) = bind-ok (exec read db) drop_all tt h in
      let (list, tables) = exec-ok read db names found in
      let covered =
        subst (λ t. All (IsCovered (listed like db.tables.indexes)) t.indexes) (sym tables)
          (listed-IsCovered like taken db.tables.indexes) in
      let named : listed like db.tables.indexes ≡ names = ground (arith, list) in
      subst (λ y. All IsOrdinary y.1.tables.indexes) (sym same)
        (drop_all-IsOrdinary names (exec read db).1
          (subst (λ ns. All (IsCovered ns) (exec read db).1.tables.indexes) named covered)
          (ap (λ y. y.0) (sym same) ∙ h))
