-- ===== src/Samples/Deliveries.antt =====
-- internal/webhook/webhook.go on a signed request.
use sql_sentinel.Prelude.{◌≡◌, refl, true, false, none, some, ◌⊎◌, List, [], ◌∷◌, map}
use sql_sentinel.Prelude.Int.{pos}
use sql_sentinel.Prelude.Bytes.{Bytes, bytes}
use sql_sentinel.Json.{obj, field, str, num, end}
use sql_sentinel.Webhook.Added.{extract_added_sql}
use sql_sentinel.Webhook.Request.{Request}
use sql_sentinel.Webhook.Serve.{Server, State, Disk, serve}
use sql_sentinel.Webhook.Enqueued.{Trusted, serve-Trusted}

abbrev zeros : Bytes
zeros = map (λ c. 0) (bytes "................................")

-- A queue is the list of the statements that were handed over; every body has the code 0.
abbrev server : Server (List Bytes)
server = record {
  secret = bytes "k";
  candidate_spec = bytes "{}";
  hmac = λ key body. zeros;
  unicode = λ s. s;
  inspect = λ s. none;
  max_concurrent = 1;
  enqueue = some (λ x q. (some (record { job_id = bytes "j"; duplicate = false }), x.sql ∷ q));
  pipeline = λ sql. (
    record {
      evidence_level = [];
      eligible = false;
      completed_steps = [];
      stopped_step = [];
      reasons = [];
      artifacts = [];
    },
    true,
  );
}

abbrev disk : Disk
disk = record { mkdir_works = true; report_works = true; comment_works = true }

abbrev idle : State (List Bytes)
idle = record { in_hand = 0; dirs = []; reports = []; queue = [] }

abbrev request : Request
request = record {
  is_post = true;
  signature = bytes "sha256=0000000000000000000000000000000000000000000000000000000000000000";
  body = some (record {
    raw = bytes "{}";
    json = record {
      values =
          obj (
            field "delivery_id" (str "d1") (
              field "pr_number" (num (some (pos 7))) (
                field "diff" (str "diff --git a/q.sql b/q.sql\n+++ b/q.sql\n+SELECT id FROM t\n")
                  end)))
          ∷ [];
      broken = false;
    };
  });
}

serve-Trusted_example :
    ((serve server disk request idle).1.queue ≡ [])
    ⊎ Trusted server request [] (serve server disk request idle).1.queue
serve-Trusted_example = serve-Trusted server disk request idle

request_runs : (serve server disk request idle).1.queue ≡ bytes "SELECT id FROM t" ∷ []
unfolding serve sql_sentinel.SqlAdmit.Decision.admit
request_runs = refl

-- An added line that starts with ++ is taken for the header of a file.
dropped_runs :
    extract_added_sql (bytes "diff --git a/q.sql b/q.sql\n+SELECT id\n+++ 1 FROM t\n")
    ≡ bytes "SELECT id" ∷ []
unfolding extract_added_sql
dropped_runs = refl
