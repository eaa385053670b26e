-- ===== src/Tests/Server.antt =====
-- The server: a bundle, the rate limit and the credentials of a team.
use competition_api.Prelude.{
  ℕ, zero, suc, ◌≡◌, refl, ap, ◌∙◌, not, str_append, ◌⊎◌, ◌↔◌, String, true, false, Option, none,
  some, [], ◌∷◌, ◌++◌, Result, ok, err, pure, arith, str_eq,
}
use Prim.Native.String.{count}
use text.Mathlib.TextLemmas.{length-append}
use competition_api.WorkerErrors.{GoError}
use competition_api.Types.Status.{accepted}
use competition_api.Types.ExitCode.{ℤ, pos, negsuc}
use competition_api.Types.Optional.{missing, new_from_val}
use competition_api.Types.Bundle.{BundleSubmission, BundleSubmissionParsed}
use competition_api.Models.Rows.{Permissions, Auth, Task}
use competition_api.Models.Bundle.{Bundle, set_relations, count_not_null}
use competition_api.Models.Bundle.Fields.{count_set, count_not_null-set_relations}
use competition_api.Routes.Bundle.{BundleServer, Request}
use competition_api.Routes.Bundle.Recorded.{BundleWrite, Justified}
use competition_api.Routes.Bundle.Guarded.{post, state_after, bundle_writes}
use competition_api.RateLimit.{RedisError, nil_reply, Redis, RedisLimiterStore}
use competition_api.RateLimit.Window.{
  decremented_value, Replies, number, IsRedis, allowed_calls, after_race, calls-budget,
  race_unlimited,
}
use competition_api.Middleware.{
  HashCheck, AuthServer, has_permission, basic_auth_validator, rehash, validate_auth,
}
use competition_api.Middleware.Credentials.{
  IsLetIn, IsStale, basic_auth_validator-IsLetIn, wrong_token_twice,
}
use competition_api.Tests.Fixtures.{sample_task, sample_team, crs_only}
use competition_api.Middleware.Permission.{Covers, has_permission-Covers}

abbrev team : Auth
team = sample_team

abbrev task : Task
task = sample_task

abbrev bundle : Bundle
bundle = record {
  id = 8;
  status = accepted;
  description = some "two";
  pov_id = some 11;
  patch_id = none;
  broadcast_sarif_id = none;
  submitted_sarif_id = none;
  freeform_id = none;
  submitter_id = 3;
  task_id = 5;
}

-- The PoV is cleared and a patch is given.
abbrev change : BundleSubmissionParsed
change = record {
  pov_id = record { value = none; defined = true };
  patch_id = new_from_val 12;
  submitted_sarif_id = missing;
  broadcast_sarif_id = missing;
  description = missing;
  freeform_id = missing;
}

count_not_null-set_relations_example :
    count_not_null bundle change ≡ count_set (set_relations bundle change)
count_not_null-set_relations_example = count_not_null-set_relations bundle change

-- The world of the database of bundles: the id of the next row.
abbrev database : BundleServer ℕ
database = record {
  exists_all = λ rows task submitter. pure true;
  create = λ b w. (ok (record b { id = w }), suc w);
  save = λ b. pure tt;
  delete = λ b. pure tt;
  print_line = λ line w. w;
  id_text = λ id. "id";
  parse_id = λ text. ok 11;
}

abbrev submission : BundleSubmission
submission = record {
  pov_id = new_from_val "11";
  patch_id = missing;
  submitted_sarif_id = missing;
  broadcast_sarif_id = missing;
  description = new_from_val "two";
  freeform_id = missing;
}

abbrev request : Request ℕ
request = record {
  auth = some team;
  task = some task;
  bundle = none;
  time = some 90;
  bind = pure submission;
  validate = λ b. ok tt;
}

bundle_writes_example :
    ((state_after database request post (1, [])).1 ≡ [])
    ⊎ ((x : BundleWrite) × Justified database request x
        × ((state_after database request post (1, [])).1 ≡ [] ++ x ∷ []))
bundle_writes_example = bundle_writes database request post (1, [])

-- Numbers as texts: the length tells the number, an odd one a negative number.
abbrev tally : ℕ → String
tally zero = ""
tally (suc n) = str_append "x" (tally n)

abbrev away_from_zero : ℤ → ℤ
away_from_zero (pos n) = pos (suc n)
away_from_zero (negsuc n) = negsuc (suc n)

abbrev decode : ℕ → ℤ
decode zero = pos 0
decode (suc zero) = negsuc 0
decode (suc (suc n)) = away_from_zero (decode n)

abbrev encode_positive : ℕ → ℕ
encode_positive zero = 0
encode_positive (suc n) = suc (suc (encode_positive n))

abbrev encode_negative : ℕ → ℕ
encode_negative zero = 1
encode_negative (suc n) = suc (suc (encode_negative n))

abbrev text_of : ℤ → String
text_of (pos n) = tally (encode_positive n)
text_of (negsuc n) = tally (encode_negative n)

count-tally : (n : ℕ) → count (tally n) ≡ n
count-tally zero = refl
count-tally (suc n) = omega (arith, length-append "x" (tally n), count-tally n)

decode-positive : (n : ℕ) → decode (encode_positive n) ≡ pos n
decode-positive zero = refl
decode-positive (suc n) = ap away_from_zero (decode-positive n)

decode-negative : (n : ℕ) → decode (encode_negative n) ≡ negsuc n
decode-negative zero = refl
decode-negative (suc n) = ap away_from_zero (decode-negative n)

decode-text_of : (n : ℤ) → decode (count (text_of n)) ≡ n
decode-text_of (pos n) = ap decode (count-tally (encode_positive n)) ∙ decode-positive n
decode-text_of (negsuc n) = ap decode (count-tally (encode_negative n)) ∙ decode-negative n

-- A database with one counter.
abbrev reply : Option ℤ → Result RedisError String
reply none = err nil_reply
reply (some n) = ok (text_of n)

abbrev counter_db : Redis (Option ℤ)
counter_db = record {
  get = λ key w. (reply w, w);
  set = λ key n w. some n;
  decr = λ key w. some (decremented_value w);
  atoi = λ text. ok (decode (count text));
}

reply-Replies : (o : Option ℤ) → Replies counter_db o (reply o)
reply-Replies none = Replies.missing
reply-Replies (some n) = number (ap ok (decode-text_of n))

counter_db-IsRedis : IsRedis counter_db (λ w key. w)
counter_db-IsRedis = record {
  get_reads = λ key w. reply-Replies w;
  get_keeps = λ key w. refl;
  set_writes = λ key n w. refl;
  decr_writes = λ key w. refl;
}

abbrev store : RedisLimiterStore (Option ℤ)
store = record { db = counter_db; limiter_key = "pov"; per_minute = pos 3; fail_open = false }

calls-budget_example : allowed_calls store (λ w key. w) counter_db-IsRedis "team" 7 none ≡ 3
calls-budget_example = calls-budget store (λ w key. w) counter_db-IsRedis "team" 7 2 none refl refl

race_unlimited_example :
    allowed_calls store
      (λ w key. w)
      counter_db-IsRedis
      "team"
      50
      (after_race store (λ w key. w) counter_db-IsRedis "team" (some (pos 1)))
    ≡ 50
race_unlimited_example =
    race_unlimited store (λ w key. w) counter_db-IsRedis "team" 50 (some (pos 1)) refl

-- The world of the database of keys: the row of the one key. A hash made with the default parameters
-- is the token itself.
abbrev check_token : String → String → Result GoError HashCheck
check_token token hash =
    ok (record { matches = str_eq token hash; is_default = not (str_eq hash "old") })

abbrev keys : AuthServer Auth
keys = record {
  parse_id = λ text. ok 3;
  new_id = λ w. (0, w);
  by_id = λ id w. (ok w, w);
  save = λ row w. (ok tt, row);
  check_hash = check_token;
  create_hash = λ token. pure token;
}

is_let_in : (basic_auth_validator keys "3" "old" team).0 ≡ ok (some (record team { token = "old" }))
unfolding basic_auth_validator validate_auth rehash
is_let_in = refl

basic_auth_validator-IsLetIn_example : IsLetIn keys "3" "old" team team
basic_auth_validator-IsLetIn_example =
    basic_auth_validator-IsLetIn keys "3" "old" team team is_let_in

stale : IsStale keys "3" "guess" team
stale = record {
  id = 3;
  row = team;
  new_hash = "guess";
  w₁ = team;
  w₂ = team;
  w₃ = record team { token = "guess" };
  w₄ = record team { token = "guess" };
  parsed = refl;
  found = refl;
  active = refl;
  differs = refl;
  hashed = refl;
  stored = refl;
  read_back = refl;
  agrees = refl;
}

wrong_token_twice_example :
    (basic_auth_validator keys "3" "guess" team ≡ (ok none, stale.w₃))
    × (basic_auth_validator keys "3" "guess" stale.w₃
        ≡ (ok (some (record stale.row { token = stale.new_hash })), stale.w₄))
wrong_token_twice_example = wrong_token_twice keys "3" "guess" team stale

abbrev runner_only : Permissions
runner_only = record { crs = false; competition_management = false; job_runner = true }

has_permission-Covers_example :
    (has_permission runner_only crs_only ≡ true) ↔ Covers runner_only crs_only
has_permission-Covers_example = has_permission-Covers runner_only crs_only
