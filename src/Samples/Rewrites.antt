-- ===== src/Samples/Rewrites.antt =====
-- runRewrite of internal/service/rewrite.go: a rewritten statement that is accepted, and one that is
-- not.
use sql_sentinel.Prelude.{
  suc, ◌≡◌, refl, subst, arith, inl, inr, Bool-cases, ℕ, Bool, true, false, Option, some, [], ◌∷◌,
  String, str_eq, if◌then◌else◌,
}
use sql_sentinel.Prelude.Bytes.{Bytes, bytes, has_prefix}
use sql_sentinel.Kafka.Model.{ok, input_rejected, err}
use sql_sentinel.Kafka.Mysql.Db.{Db}
use sql_sentinel.Service.Shadow.{ShadowTables, prefix}
use sql_sentinel.Service.RunRewrite.{Engine, Evidence, Task, run_rewrite}
use sql_sentinel.Service.Equivalent.{IsEquivalent, run_rewrite-IsEquivalent}

-- The world counts the questions; the result of "odd" is another one.
abbrev engine : Engine ℕ (Unit {0})
engine = record {
  version = λ s w. ok "8.0.36";
  compute = λ s tables w. ok "digest";
  read = λ s q ordered w. if str_eq q "odd" then ok "three" else ok "two";
  explain = λ s q w. ok "{}";
  measure = λ q r snapshot w. (ok tt, suc w);
  insert = λ raw w. (ok 1, suc w);
  pass = λ w. suc w;
}

abbrev is_json : String → Bool
is_json s = true

abbrev marshal : Evidence → Option (Unit {0}) → Option Bytes
marshal e p = some (bytes "report")

abbrev size : Bytes → ℕ
size raw = 6

abbrev task : String → Task
task rewritten = record {
  sql = "even";
  rewritten = rewritten;
  tables = "orders" ∷ [];
  is_ordered = false;
  is_measured = true;
}

abbrev like : Bytes → Bool
like name = has_prefix name prefix

abbrev idle : Db (ShadowTables ℕ)
idle = record {
  tables = record { indexes = []; is_locked = false; is_busy = false; others = 0 };
  id_sequence = 0;
  faults = [];
}

accepted : (run_rewrite engine is_json marshal size (task "even again") like idle).0 ≡ ok tt
unfolding run_rewrite
accepted = refl

-- A counterexample is stored, and the job is rejected.
rejected : (run_rewrite engine is_json marshal size (task "odd") like idle).0 ≡ err input_rejected
unfolding run_rewrite
rejected = refl

nonempty :
    (q r : String) → (if str_eq q "odd" then ok "three" else ok "two") ≡ ok r → str_eq r "" ≡ false
nonempty q r h = elim (Bool-cases (str_eq q "odd")) [
  | inl odd ↦
      let same : "three" ≡ r = ground (arith, h, odd) in subst (λ x. str_eq x "" ≡ false) same refl
  | inr other ↦
      let same : "two" ≡ r = ground (arith, h, other) in subst (λ x. str_eq x "" ≡ false) same refl
]

run_rewrite-IsEquivalent_example : IsEquivalent engine marshal size (task "even again") 0
run_rewrite-IsEquivalent_example =
    run_rewrite-IsEquivalent engine marshal size is_json (task "even again")
      (λ s q ordered w r. nonempty q r) like idle accepted
