-- ===== src/Samples/Access.antt =====
-- internal/identity, internal/rewrite, internal/diagnosis and the tree of internal/plancompare on
-- concrete data.
use sql_sentinel.Prelude.{
  if◌then◌else◌, true, false, none, some, inr, [], ◌∷◌, ◌++◌, ◌≡◌, refl, ◌≢◌, arith,
}
use sql_sentinel.Prelude.Int.{pos}
use sql_sentinel.Prelude.Bytes.{Bytes, bytes, bytes_eq}
use sql_sentinel.Json.{Json, Stream, obj, field, str, num, bool, end}
use sql_sentinel.Identity.{
  Principal, Claims, Auth, AuthTables, authenticate, operator, drop_bytes, bearer, hour, Session,
}
use sql_sentinel.Identity.Sessions.{issue, claims_of, revoke, session_of}
use sql_sentinel.Identity.Tokens.{
  Proof, authenticate-Proof, authenticate-issue, authenticate-revoke,
}
use sql_sentinel.Rewrite.{Spec, Analyze, decode}
use sql_sentinel.Rewrite.Admitted.{IsRewrite, decode-IsRewrite}
use sql_sentinel.PlanCompare.{Summary, diff_plans}
use sql_sentinel.PlanCompare.Parse.{walk, empty_summary}
use sql_sentinel.Diagnosis.{Comparison, Report, analyze, derive}
use sql_sentinel.Diagnosis.Derived.{IsDerived, analyze-IsDerived}

abbrev reader : Principal
reader = record {
  subject = bytes "ann";
  role = bytes "reader";
  tenant = bytes "t1";
  project = bytes "p1";
  tables = [];
}

abbrev id : Bytes
id = bytes "0123"

abbrev token : Bytes
token = bytes "abc.def"

-- A library that signs every claims as one token and reads the reader's claims back.
abbrev auth : Auth
auth = record {
  key = bytes "key";
  bootstrap = bytes "secret";
  sha = λ s. s;
  jwt = record {
    sign = λ key c. some token;
    parse = λ key now t. if bytes_eq t token then some (claims_of reader id 5) else none;
  };
}

abbrev no_sessions : AuthTables
no_sessions = record { sessions = []; audit = [] }

abbrev one_session : AuthTables
one_session = record { sessions = session_of reader id 5 ∷ []; audit = [] }

authenticate-issue_example :
    let (issued, u) = issue auth false (some id) operator reader 5 no_sessions in
    (issued ≡ record { token = token; id = id; error = none })
    × (authenticate auth false 9 9 (bearer ++ issued.token) u ≡ inr reader)
unfolding sql_sentinel.Identity.valid sql_sentinel.Identity.count_live bytes_eq
authenticate-issue_example =
    authenticate-issue auth operator reader id token 5 9 9 no_sessions refl refl refl refl
      (omega arith) refl refl (omega arith)

authenticate-Proof_example :
    Proof auth 9 9 (drop_bytes 7 (bytes "Bearer abc.def")) one_session reader
unfolding authenticate sql_sentinel.Identity.valid
authenticate-Proof_example =
    authenticate-Proof auth false 9 9 (bytes "Bearer abc.def") one_session reader refl

authenticate-revoke_example :
    authenticate auth false 9 9
      (bytes "Bearer abc.def")
      (record one_session { sessions = revoke reader id 7 one_session.sessions })
    ≢ inr reader
unfolding bytes_eq sql_sentinel.Identity.Sessions.may_revoke drop_bytes
authenticate-revoke_example =
    authenticate-revoke auth false reader reader (claims_of reader id 5) 9 7 9
      (bytes "Bearer abc.def") one_session ((λ h. refl), tt) refl refl

abbrev analyze_one : Analyze
analyze_one sql = some (record { tables = "orders" ∷ []; ordered = false; unordered_limit = false })

abbrev proposal : Spec
proposal = record { kind = "rewrite"; sql = "SELECT id FROM orders" }

abbrev proposal_bytes : Stream
proposal_bytes = record {
  values = obj (field "kind" (str "rewrite") (field "sql" (str "SELECT id FROM orders") end)) ∷ [];
  broken = false;
}

decode-IsRewrite_example : IsRewrite analyze_one "SELECT * FROM orders" proposal
unfolding decode
decode-IsRewrite_example =
    decode-IsRewrite analyze_one 60 proposal_bytes "SELECT * FROM orders" proposal refl

abbrev plan : Json
plan = obj (
    field "query_block"
      (obj (
        field "using_filesort" (bool true) (
          field "table"
            (obj (
              field "table_name" (str "orders")
                (field "rows_examined_per_scan" (num (some (pos 9))) end)))
            end)))
      end)

abbrev before : Summary
before = walk plan empty_summary

abbrev after : Summary
after = record {
  tables =
      record {
        table_name = "orders";
        access_type = "ref";
        possible_keys = [];
        key = "ix";
        rows_examined_per_scan = some (pos 2);
        using_index = true;
      }
      ∷ [];
  uses_filesort = false;
}

abbrev comparison : Comparison
comparison = record {
  sha = "s";
  generated_at = "";
  evidence_level = "L1";
  eligible = false;
  mysql_version = "8.0";
  snapshot_digest = "d";
  sql = "SELECT id FROM orders";
  baseline = before;
  candidate = after;
  difference = diff_plans before after;
}

abbrev report : Report
report = record {
  evidence_level = "L1";
  eligible = false;
  source = record { sha = "s"; generated_at = ""; mysql_version = "8.0"; snapshot = "d" };
  hypotheses = derive comparison;
}

analyze-IsDerived_example :
    (comparison.eligible ≡ false)
    × (report.eligible ≡ false)
    × IsDerived comparison report.hypotheses
unfolding analyze
analyze-IsDerived_example = analyze-IsDerived comparison report refl refl
