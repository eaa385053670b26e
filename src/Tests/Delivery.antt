-- ===== src/Tests/Delivery.antt =====
-- A payload that is taken at the second request, and a store that answers at the second attempt.
use competition_api.Prelude.{ℕ, zero, suc, ◌≡◌, String, true, some, Result, ok, err, pure, ◌>>◌}
use competition_api.WorkerErrors.{GoError, message}
use competition_api.Retry.{Backoff}
use competition_api.Retry.Tried.{Tried, Never}
use competition_api.Upload.{ReadSeeker, Uploader}
use competition_api.Upload.Retrying.{retry_uploader, Unseekable, retry_uploader-Tried}
use competition_api.Deliver.{DeliveryTarget, HttpClient, send_request, deliver_one}
use competition_api.Deliver.Requests.{deliver_one-Tried}
use competition_api.Tests.Fixtures.{attempts, attempts-Runs}

-- Three retries.
abbrev backoff : Backoff
backoff = record {
  retries = 3;
  ended = λ e. e ≡ message "context canceled";
  do_retry = λ body s. attempts 3 body s;
  tries = λ body s. attempts-Runs 3 body s;
}

abbrev status_of : ℕ → ℕ
status_of zero = 500
status_of (suc n) = 200

-- The world is the number of requests that were made.
abbrev web : HttpClient ℕ String String
web = record {
  parse_url = λ text. ok text;
  make_request_object = λ target method route payload. ok route;
  do_request = λ req w. (ok (status_of w), suc w);
}

abbrev target : DeliveryTarget String
target = record { team_id = "3"; base_url = "https://crs"; username = "3"; password = "token" }

deliver_one-Tried_example :
    (k : ℕ) × (r : Result GoError (Unit {0})) × (w' : ℕ) × Tried backoff.ended Never
      (send_request web "POST" "/v1/task/" (some "task") target)
      3
      k
      0
      r
      w'
    × (deliver_one web "POST" "/v1/task/" (some "task") target backoff (λ t c r w. w) 0 ≡ (r, w'))
deliver_one-Tried_example =
    deliver_one-Tried web "POST" "/v1/task/" (some "task") target backoff (λ t c r w. w) 0

abbrev answered : {A : Type 0} → A → ℕ → Result GoError A × ℕ
answered a zero = (err (message "again"), 1)
answered a (suc n) = (ok a, suc n)

abbrev store : Uploader ℕ
store = record {
  upload = λ reader length url. answered tt;
  exists = λ url. answered true;
  store_identifier = answered "bucket";
  presigned_read_url = λ url duration. answered url;
}

abbrev content : ReadSeeker ℕ
content = record { seek_start = pure tt; read_all = pure "content" }

retry_uploader-Tried_example :
    ((k : ℕ) × Tried backoff.ended
        (Unseekable content)
        (content.seek_start >> store.upload content 7 "blob")
        3
        k
        0
        ((retry_uploader backoff store).upload content 7 "blob" 0).0
        ((retry_uploader backoff store).upload content 7 "blob" 0).1)
    × ((k : ℕ) × Tried backoff.ended Never
          (store.exists "blob")
          3
          k
          0
          ((retry_uploader backoff store).exists "blob" 0).0
          ((retry_uploader backoff store).exists "blob" 0).1)
    × ((k : ℕ) × Tried backoff.ended Never store.store_identifier 3 k 0
          ((retry_uploader backoff store).store_identifier 0).0
          ((retry_uploader backoff store).store_identifier 0).1)
    × ((k : ℕ) × Tried backoff.ended Never
          (store.presigned_read_url "blob" 9)
          3
          k
          0
          ((retry_uploader backoff store).presigned_read_url "blob" 9 0).0
          ((retry_uploader backoff store).presigned_read_url "blob" 9 0).1)
retry_uploader-Tried_example = retry_uploader-Tried backoff store content 7 9 "blob" 0
