-- ===== src/Upload/Retrying.antt =====
-- competition-api/internal/upload/retry.go: an uploader whose operations are retried.
use competition_api.Prelude.{ℕ, ◌≡◌, refl, String, false, Result, ok, err, Exec, continue, ◌>>◌}
use competition_api.WorkerErrors.{GoError, message}
use competition_api.Retry.{Attempt, nil, permanent, retryable, Backoff}
use competition_api.Retry.Tried.{
  Tried, Never, attempt, retried, IsAttempt, attempt-IsAttempt, retried-Tried,
}
use competition_api.Upload.{ReadSeeker, Uploader}

module _ {W : Type 0} where
  abbrev after_seek :
      Result GoError (Unit {0})
      → Exec W GoError (Unit {0})
      → W
      → Unit {0}
      → Attempt × (W × Unit {0})
  after_seek (ok x) send w old = attempt send (w, old)
  after_seek (err e) send w old = (permanent e, (w, old))

  -- The closure of `Upload`: the reader is put back to its start before each attempt.
  abbrev pub upload_attempt :
      ReadSeeker W → Exec W GoError (Unit {0}) → W × Unit {0} → Attempt × (W × Unit {0})
  upload_attempt reader send s = let (r, w) = reader.seek_start s.0 in after_seek r send w s.1

  unfoldable pub retry_uploader : Backoff → Uploader W → Uploader W
  retry_uploader b u = record {
    upload = λ reader length url. retried b tt (upload_attempt reader (u.upload reader length url));
    exists = λ url. retried b false (attempt (u.exists url));
    store_identifier = retried b "" (attempt u.store_identifier);
    presigned_read_url = λ url duration. retried b "" (attempt (u.presigned_read_url url duration));
  }

  after_seek-cases :
      (send : Exec W GoError (Unit {0})) (r : Result GoError (Unit {0})) (w : W) (old : Unit {0})
      (s : W × Unit {0}) (e : GoError)
      → (after_seek r send w old ≡ (nil, s) → continue r (λ _. send) w ≡ (ok s.1, s.0))
        × (after_seek r send w old ≡ (permanent e, s)
            → ◌≡◌ {A = Result GoError (Unit {0}) × W} (r, w) (err e, s.0))
        × (after_seek r send w old ≡ (retryable e, s) → continue r (λ _. send) w ≡ (err e, s.0))
  after_seek-cases send (ok x) w old s e =
      let h = attempt-IsAttempt Never send in
      (
        h.on_nil (w, old) s,
        λ p. absurd (h.on_permanent (w, old) s e p).1,
        h.on_retryable (w, old) s e,
      )
  after_seek-cases send (err x) w old s e = (λ p. cc, λ p. cc, λ p. cc)

  seek_failed :
      (reader : ReadSeeker W) (send : Exec W GoError (Unit {0})) (w w' : W) (e : GoError)
      → reader.seek_start w ≡ (err e, w')
      → (reader.seek_start >> send) w ≡ (err e, w')
  seek_failed reader send w w' e q = rw q refl

  -- The failure of an upload that is final: the reader could not be put back to its start.
  abbrev pub Unseekable : ReadSeeker W → W → GoError → W → Type 0
  Unseekable reader w e w' = reader.seek_start w ≡ (err e, w')

  upload_attempt-IsAttempt :
      (reader : ReadSeeker W) (send : Exec W GoError (Unit {0}))
      → IsAttempt (Unseekable reader) (reader.seek_start >> send) (upload_attempt reader send)
  upload_attempt-IsAttempt reader send = record {
    on_nil = λ s s' q.
        (after_seek-cases send (reader.seek_start s.0).0 (reader.seek_start s.0).1 s.1 s'
            (message "")).0
          q;
    on_permanent = λ s s' e q.
        let final =
          (after_seek-cases send (reader.seek_start s.0).0 (reader.seek_start s.0).1 s.1 s' e).1
            q in
        (seek_failed reader send s.0 s'.0 e final, final);
    on_retryable = λ s s' e q.
        (after_seek-cases send (reader.seek_start s.0).0 (reader.seek_start s.0).1 s.1 s' e).2 q;
  }

  -- Each operation of the retrying uploader is some attempts of the inner one's, one after the other, and
  -- returns what the last has returned, or the context's error if that ended before an attempt. An attempt
  -- that fails is followed by another while the backoff allows retries and the context has not ended; an
  -- attempt of an upload puts the reader back to its start first, and fails for good if it cannot.
  pub retry_uploader-Tried :
      (b : Backoff) (u : Uploader W) (reader : ReadSeeker W) (length duration : ℕ) (url : String)
      (w : W)
      → let inner = reader.seek_start >> u.upload reader length url in
        let outer = retry_uploader b u in
        let n = b.retries in
        ((k : ℕ) × Tried b.ended
            (Unseekable reader)
            inner
            n
            k
            w
            (outer.upload reader length url w).0
            (outer.upload reader length url w).1)
        × ((k : ℕ) × Tried b.ended Never
              (u.exists url)
              n
              k
              w
              (outer.exists url w).0
              (outer.exists url w).1)
        × ((k : ℕ) × Tried b.ended Never u.store_identifier n k w
              (outer.store_identifier w).0
              (outer.store_identifier w).1)
        × ((k : ℕ) × Tried b.ended Never
              (u.presigned_read_url url duration)
              n
              k
              w
              (outer.presigned_read_url url duration w).0
              (outer.presigned_read_url url duration w).1)
  unfolding retry_uploader
  retry_uploader-Tried b u reader length duration url w = (
    retried-Tried b (Unseekable reader) tt (reader.seek_start >> u.upload reader length url) _ w
        (upload_attempt-IsAttempt reader (u.upload reader length url)),
    retried-Tried b Never false (u.exists url) _ w (attempt-IsAttempt Never (u.exists url)),
    retried-Tried b Never "" u.store_identifier _ w (attempt-IsAttempt Never u.store_identifier),
    retried-Tried b Never "" (u.presigned_read_url url duration) _ w
        (attempt-IsAttempt Never (u.presigned_read_url url duration)),
  )
