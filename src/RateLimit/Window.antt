-- ===== src/RateLimit/Window.antt =====
-- How many requests go through before the counter expires.
use Prim.Native.Nat.{min}
use competition_api.Prelude.{
  ℕ, zero, suc, String, ◌≡◌, refl, ◌∙◌, ap, Bool, true, false, Option, none, some, List, [], ◌∷◌,
  count_if, Result, ok, err, arith,
}
use competition_api.Types.ExitCode.{ℤ, pos, negsuc, has_code}
use competition_api.RateLimit.{
  RedisError, nil_reply, Redis, RedisLimiterStore, Progress, counting, key_of, allow_begin,
  allow_end, allow,
}

-- n - 1
abbrev pub decremented : ℤ → ℤ
decremented (pos zero) = negsuc 0
decremented (pos (suc n)) = pos n
decremented (negsuc n) = negsuc (suc n)

-- What `GET` answers where a key holds a number, or nothing.
pub data Replies {W : Type 0} (db : Redis W) : Option ℤ → Result RedisError String → Type 0 where
  missing : Replies db none (err nil_reply)
  number : {n : ℤ} {text : String} → db.atoi text ≡ ok n → Replies db (some n) (ok text)

abbrev pub decremented_value : Option ℤ → ℤ
decremented_value none = negsuc 0
decremented_value (some n) = decremented n

-- What is documented of Redis while it answers and no key expires, for a view of what a key holds:
-- `GET` reads it and changes nothing, `SET` writes it, and `DECR` takes one off, from 0 if there is
-- none.
pub record IsRedis {W : Type 0} (db : Redis W) (view : W → String → Option ℤ) : Type 0 where
  pub get_reads : (k : String) (w : W) → Replies db (view w k) (db.get k w).0
  pub get_keeps : (k : String) (w : W) → (db.get k w).1 ≡ w
  pub set_writes : (k : String) (n : ℤ) (w : W) → view (db.set k n w) k ≡ some n
  pub decr_writes :
      (k : String) (w : W) → view (db.decr k w) k ≡ some (decremented_value (view w k))

module _ {W : Type 0} (store : RedisLimiterStore W) (view : W → String → Option ℤ)
    (redis : IsRedis store.db view) (identifier : String) where
  abbrev key : String
  key = key_of store identifier

  begin_missing :
      (o : Option ℤ) (r : Result RedisError String)
      → Replies store.db o r
      → o ≡ none
      → r ≡ err nil_reply
  begin_missing none r missing e = refl
  begin_missing (some n) r (number h) e = cc

  begin_number :
      (o : Option ℤ) (r : Result RedisError String) (n : ℤ)
      → Replies store.db o r
      → o ≡ some n
      → (text : String) × (r ≡ ok text) × (store.db.atoi text ≡ ok n)
  begin_number o r n missing e = cc
  begin_number o r n (number {text = text} h) e = (text, refl, cc)

  -- What a call leaves in the counter.
  abbrev counter : W → Option ℤ
  counter w = view w key

  allow_missing :
      (w : W)
      → counter w ≡ none
      → ((allow store identifier w).0.allowed ≡ true)
        × (counter (allow store identifier w).1 ≡ some (decremented store.per_minute))
  unfolding allow
  allow_missing w e =
      let r = begin_missing (counter w) _ (redis.get_reads key w) e in
      rw (r, redis.get_keeps key w)
        (
          refl,
          redis.decr_writes key (store.db.set key store.per_minute w)
              ∙ ap (λ o. some (decremented_value o)) (redis.set_writes key store.per_minute w),
        )

  allow_number :
      (w : W) (n : ℤ)
      → counter w ≡ some n
      → has_code n 0 ≡ false
      → ((allow store identifier w).0.allowed ≡ true)
        × (counter (allow store identifier w).1 ≡ some (decremented n))
  unfolding allow
  allow_number w n e nonzero =
      let (text, r, h) = begin_number (counter w) _ n (redis.get_reads key w) e in
      rw (r, redis.get_keeps key w, h, nonzero)
        (refl, redis.decr_writes key w ∙ ap (λ o. some (decremented_value o)) e)

  allow_zero :
      (w : W)
      → counter w ≡ some (pos 0)
      → ((allow store identifier w).0.allowed ≡ false) × ((allow store identifier w).1 ≡ w)
  unfolding allow
  allow_zero w e =
      let (text, r, h) = begin_number (counter w) _ (pos 0) (redis.get_reads key w) e in
      rw (r, redis.get_keeps key w, h) (refl, refl)

  -- `j` calls one after the other: which of them were let through.
  abbrev pub calls : ℕ → W → List Bool
  calls zero w = []
  calls (suc j) w = let (a, w') = allow store identifier w in a.allowed ∷ calls j w'

  abbrev pub allowed_calls : ℕ → W → ℕ
  allowed_calls j w = count_if (λ b. b) (calls j w)

  calls_counted : (j n : ℕ) (w : W) → counter w ≡ some (pos n) → allowed_calls j w ≡ min j n
  calls_counted zero n w e = omega arith
  calls_counted (suc j) zero w e =
      let (denied, same) = allow_zero w e in
      rw (denied, same) (omega (arith, calls_counted j zero w e))
  calls_counted (suc j) (suc n) w e =
      let (passed, left) = allow_number w (pos (suc n)) e (ground arith) in
      rw passed (omega (arith, calls_counted j n (allow store identifier w).1 left))

  -- While Redis answers and the counter does not expire, of any number of requests made one after
  -- the other from a fresh counter exactly the first `per_minute` go through, if that is not 0.
  pub calls-budget :
      (j n : ℕ) (w : W)
      → view w (key_of store identifier) ≡ none
      → store.per_minute ≡ pos (suc n)
      → allowed_calls j w ≡ min j (suc n)
  calls-budget zero n w e budget = omega arith
  calls-budget (suc j) n w e budget =
      let (passed, left) = allow_missing w e in
      rw passed (
        omega (
          arith,
          calls_counted j n (allow store identifier w).1
              (left ∙ ap (λ k. some (decremented k)) budget),
        ))

  calls_negative : (j n : ℕ) (w : W) → counter w ≡ some (negsuc n) → allowed_calls j w ≡ j
  calls_negative zero n w e = refl
  calls_negative (suc j) n w e =
      let (passed, left) = allow_number w (negsuc n) e refl in
      rw passed (ap suc (calls_negative j (suc n) (allow store identifier w).1 left))

  abbrev finish_both : Progress → Progress × W → W
  finish_both p (q, w) = (allow_end store identifier q (allow_end store identifier p w).1).1

  abbrev begin_second : Progress × W → W
  begin_second (p, w) = finish_both p (allow_begin store identifier w)

  -- Two requests that have both read the counter before either takes one off.
  abbrev pub after_race : W → W
  after_race w = begin_second (allow_begin store identifier w)

  begin_counting :
      (w : W) (n : ℤ)
      → counter w ≡ some n
      → has_code n 0 ≡ false
      → allow_begin store identifier w ≡ (counting, w)
  unfolding allow_begin
  begin_counting w n e nonzero =
      let (text, r, h) = begin_number (counter w) _ n (redis.get_reads key w) e in
      rw (r, redis.get_keeps key w, h, nonzero) refl

  end_counting : (w : W) → (allow_end store identifier counting w).1 ≡ store.db.decr key w
  unfolding allow_end
  end_counting w = refl

  after_race_lem :
      (w : W) → counter w ≡ some (pos 1) → after_race w ≡ store.db.decr key (store.db.decr key w)
  after_race_lem w e =
      let first = begin_counting w (pos 1) e refl in
      ap begin_second first
      ∙ ap (finish_both counting) first
      ∙ end_counting (allow_end store identifier counting w).1
      ∙ ap (store.db.decr key) (end_counting w)

  race_counter : (w : W) → counter w ≡ some (pos 1) → counter (after_race w) ≡ some (negsuc 0)
  race_counter w e =
      ap counter (after_race_lem w e)
      ∙ redis.decr_writes key (store.db.decr key w)
      ∙ ap (λ o. some (decremented_value o))
          (redis.decr_writes key w ∙ ap (λ o. some (decremented_value o)) e)

  -- Where one request was left and two were handled at the same time, so that both read the counter
  -- before either took one off, every later request in the window goes through, however many.
  pub race_unlimited :
      (j : ℕ) (w : W)
      → view w (key_of store identifier) ≡ some (pos 1)
      → allowed_calls j (after_race w) ≡ j
  race_unlimited j w e = calls_negative j 0 (after_race w) (race_counter w e)
