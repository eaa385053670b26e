-- ===== src/RateLimit.antt =====
-- competition-api/cmd/server/internal/ratelimit/redis.go: a counter of the requests left, in Redis.
pub mod Window
use competition_api.Prelude.{
  ℕ, String, Bool, true, false, Option, none, some, Result, ok, err, Exec, str_append, ◌==◌,
  if◌then◌else◌,
}
use competition_api.WorkerErrors.{GoError}
use competition_api.Types.ExitCode.{ℤ, pos, negsuc, has_code}

-- `redis.Nil`, for a key that is not there, or another error.
pub data RedisError : Type 0 where
  nil_reply : RedisError
  failure : GoError → RedisError

-- The client of the database. The replies to `SET` and `DECR` are not looked at.
pub record Redis (W : Type 0) : Type 0 where
  pub get : String → W → Result RedisError String × W
  pub set : String → ℤ → W → W
  pub decr : String → W → W
  -- `strconv.Atoi`
  pub atoi : String → Result GoError ℤ

pub record RedisLimiterStore (W : Type 0) : Type 0 where
  pub db : Redis W
  pub limiter_key : String
  pub per_minute : ℤ
  pub fail_open : Bool

pub record RedisLimiterConfig (W : Type 0) : Type 0 where
  pub redis_client : Redis W
  pub limiter_key : String
  pub per_minute : ℤ
  pub fail_open : Bool

-- `NewRedisLimitStore`: the field `failOpen` is not given, and is false.
unfoldable pub new_redis_limit_store : {W : Type 0} → RedisLimiterConfig W → RedisLimiterStore W
new_redis_limit_store config = record {
  db = config.redis_client;
  limiter_key = config.limiter_key;
  per_minute = config.per_minute;
  fail_open = false;
}

-- What `Allow` returns: whether the request goes through, and the error.
pub record Answer : Type 0 where
  pub allowed : Bool
  pub error : Option GoError

-- How far `Allow` is when it has read the counter: it has answered, or will count this request.
pub data Progress : Type 0 where
  answered : Answer → Progress
  counting : Progress

module _ {W : Type 0} (store : RedisLimiterStore W) where
  abbrev pub key_of : String → String
  key_of identifier =
      str_append "competitionapi-ratelimit-"
        (str_append store.limiter_key (str_append "-" identifier))

  abbrev pub on_count : Result GoError ℤ → W → Progress × W
  on_count (err e) w = (answered (record { allowed = store.fail_open; error = some e }), w)
  on_count (ok n) w =
      if has_code n 0
      then (answered (record { allowed = false; error = none }), w)
      else (counting, w)

  abbrev pub on_reply : String → Result RedisError String → W → Progress × W
  on_reply key (ok reqs_left) w = on_count (store.db.atoi reqs_left) w
  on_reply key (err nil_reply) w = (counting, store.db.set key store.per_minute w)
  on_reply key (err (failure e)) w =
      (answered (record { allowed = store.fail_open; error = some e }), w)

  -- `Allow` up to the call of `Decr`,
  unfoldable pub allow_begin : String → W → Progress × W
  allow_begin identifier w =
      let (r, w') = store.db.get (key_of identifier) w in on_reply (key_of identifier) r w'

  -- and from there.
  unfoldable pub allow_end : String → Progress → W → Answer × W
  allow_end identifier (answered a) w = (a, w)
  allow_end identifier counting w =
      (record { allowed = true; error = none }, store.db.decr (key_of identifier) w)

  unfoldable pub allow : String → W → Answer × W
  unfolding allow_begin allow_end
  allow identifier w = let (p, w') = allow_begin identifier w in allow_end identifier p w'
