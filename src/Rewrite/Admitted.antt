-- ===== src/Rewrite/Admitted.antt =====
-- What Decode of internal/rewrite/rewrite.go lets through.
use sql_sentinel.Prelude.{
  subst, inl, inr, ℕ, ◌≤◌, String, Bool, true, false, Option, none, some, List, [], ◌∷◌, ◌≡◌, refl,
  ◌≢◌, arith, eq_iff, ap, Bool-cases,
}
use sql_sentinel.Prelude.Text.{byte_length}
use sql_sentinel.Json.{Stream, at_end, next, value, eof, bad, Next}
use sql_sentinel.Rewrite.{
  Spec, Analysis, Analyze, decode, decode_spec, comparable, same_texts, max_bytes, check_both,
  admitted, after_value, spec_of_next,
}

-- A proposal that may be compared with the original statement.
pub record IsRewrite (analyze : Analyze) (original : String) (s : Spec) : Type 0 where
  pub before : Analysis
  pub after : Analysis
  pub kind : s.kind ≡ "rewrite"
  pub present : s.sql ≢ ""
  pub short : byte_length s.sql ≤ max_bytes
  pub analyzed_before : analyze original ≡ some before
  pub analyzed_after : analyze s.sql ≡ some after
  pub some_table : before.tables ≢ []
  pub same_tables : before.tables ≡ after.tables
  pub both_ordered : before.ordered ≡ after.ordered
  pub unflagged_before : before.unordered_limit ≡ false
  pub unflagged_after : after.unordered_limit ≡ false

same_texts_sound : (xs ys : List String) → same_texts xs ys ≡ true → xs ≡ ys
unfolding same_texts
same_texts_sound [] [] h = refl
same_texts_sound [] (y ∷ ys) h = absurd (ground (arith, h))
same_texts_sound (x ∷ xs) [] h = absurd (ground (arith, h))
same_texts_sound (x ∷ xs) (y ∷ ys) h = ground (arith, h, eq_iff x y, same_texts_sound xs ys)

-- The tests on the proposal itself.
record IsProposal (s : Spec) : Type 0 where
  kind : s.kind ≡ "rewrite"
  present : s.sql ≢ ""
  short : byte_length s.sql ≤ max_bytes

after_value-IsProposal :
    (x : Option Spec) (ended : Bool) (s : Spec) → after_value x ended ≡ some s → IsProposal s
after_value-IsProposal none ended s h = absurd (ground (arith, h))
after_value-IsProposal (some y) ended s h =
    let same : y ≡ s = ground (arith, h) in
    let proposal : IsProposal y = record {
      kind = ground (arith, h, eq_iff y.kind "rewrite");
      present = ground (arith, h, eq_iff y.sql "");
      short = ground (arith, h);
    } in
    subst IsProposal same proposal

spec_of_next-IsProposal : (x : Next) (s : Spec) → spec_of_next x ≡ some s → IsProposal s
spec_of_next-IsProposal (value v rest) s h = after_value-IsProposal _ (at_end rest) s h
spec_of_next-IsProposal eof s h = absurd (ground (arith, h))
spec_of_next-IsProposal bad s h = absurd (ground (arith, h))

decode_spec-IsProposal :
    (size : ℕ) (raw : Stream) (s : Spec) → decode_spec size raw ≡ some s → IsProposal s
unfolding decode_spec
decode_spec-IsProposal size raw s h = spec_of_next-IsProposal (next raw) s (ground (arith, h))

both-Comparable :
    (x y : Option Analysis)
    → check_both x y ≡ true
    → (a b : Analysis) × (x ≡ some a) × (y ≡ some b) × (comparable a b ≡ true)
both-Comparable none y h = absurd (ground (arith, h))
both-Comparable (some a) none h = absurd (ground (arith, h))
both-Comparable (some a) (some b) h = (a, b, refl, refl, h)

comparable-tables :
    (a b : Analysis)
    → comparable a b ≡ true
    → (a.tables ≢ [])
      × (a.tables ≡ b.tables)
      × (a.ordered ≡ b.ordered)
      × (a.unordered_limit ≡ false)
      × (b.unordered_limit ≡ false)
unfolding comparable
comparable-tables a b h = (
  ground (arith, h),
  same_texts_sound a.tables b.tables (ground (arith, h)),
  ground (arith, h),
  ground (arith, h),
  ground (arith, h),
)

admitted-some :
    (analyze : Analyze) (original : String) (x : Option Spec) (s : Spec)
    → admitted analyze original x ≡ some s
    → (x ≡ some s) × (check_both (analyze original) (analyze s.sql) ≡ true)
admitted-some analyze original none s h = absurd (ground (arith, h))
admitted-some analyze original (some y) s h =
    elim (Bool-cases (check_both (analyze original) (analyze y.sql))) [
      | inr unfit ↦ absurd (ground (arith, h, unfit))
      | inl fit ↦
          let same : y ≡ s = ground (arith, h, fit) in
          (
            ap some same,
            subst (λ (z : Spec). check_both (analyze original) (analyze z.sql) ≡ true) same fit,
          )
    ]

-- A rewrite that Decode accepts says that it is one and has a statement of at most 64 KiB, and both
-- statements were analyzed: by what Analyze says of them, they read the same tables, one at least, both
-- are ordered or both are not, and neither is flagged for a LIMIT without an order.
pub decode-IsRewrite :
    (analyze : Analyze) (size : ℕ) (raw : Stream) (original : String) (s : Spec)
    → decode analyze size raw original ≡ some s
    → IsRewrite analyze original s
unfolding decode
decode-IsRewrite analyze size raw original s h =
    let (d, fit) = admitted-some analyze original (decode_spec size raw) s h in
    let q = decode_spec-IsProposal size raw s d in
    let (a, b, x, y, c) = both-Comparable (analyze original) (analyze s.sql) fit in
    let (n, t, o, l, m) = comparable-tables a b c in
    record {
      before = a;
      after = b;
      kind = q.kind;
      present = q.present;
      short = q.short;
      analyzed_before = x;
      analyzed_after = y;
      some_table = n;
      same_tables = t;
      both_ordered = o;
      unflagged_before = l;
      unflagged_after = m;
    }
