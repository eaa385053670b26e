-- ===== src/Routes/Jobrunner/Presigned.antt =====
-- What the response of a job adds to its row.
use competition_api.Prelude.{
  String, ◌≡◌, sym, ap, subst, some, List, [], ◌∷◌, Result, ok, Exec, >>=-eq-ok, arith,
}
use competition_api.WorkerErrors.{GoError}
use competition_api.Types.Worker.{Blob, JobArtifact, JobResult}
use competition_api.Http.{HttpError, internal_server_error}
use competition_api.Routes.Submission.{expiration}
use competition_api.Routes.Jobrunner.{JobRow, JobResponse, JobHandler, or_refuse}
use competition_api.Routes.Jobrunner.Work.{
  presigned_blob, presigned_artifacts, presigned_results, job_response,
}

pub ok_inv : {E A : Type 0} {a b : A} → ◌≡◌ {A = Result E A} (ok a) (ok b) → a ≡ b
ok_inv p = cc

module _ {W : Type 0} (h : JobHandler W) where
  -- The blob with a URL that the store has given for it.
  pub record IsSigned (b signed : Blob) : Type 0 where
    pub url : String
    pub same : signed ≡ record b { presigned_url = some url }
    pub given :
        (w : W) × ((h.artifacts_uploader.presigned_read_url b.object_name expiration w).0 ≡ ok url)

  pub data AreSigned : List JobArtifact → List JobArtifact → Type 0 where
    no_artifacts : AreSigned [] []
    next_artifact :
        (a : JobArtifact) (blob : Blob) (rest others : List JobArtifact)
        → IsSigned a.blob blob
        → AreSigned rest others
        → AreSigned (a ∷ rest) (record a { blob = blob } ∷ others)

  pub data ResultsSigned : List JobResult → List JobResult → Type 0 where
    no_results : ResultsSigned [] []
    next_result :
        (r : JobResult) (stdout stderr : Blob) (rest others : List JobResult)
        → IsSigned r.stdout_blob stdout
        → IsSigned r.stderr_blob stderr
        → ResultsSigned rest others
        → ResultsSigned
            (r ∷ rest)
            (record r { stdout_blob = stdout; stderr_blob = stderr } ∷ others)

  presigned_blob-IsSigned :
      (b signed : Blob) (w : W) → (presigned_blob h b w).0 ≡ ok signed → IsSigned b signed
  presigned_blob-IsSigned b signed w e =
      let (url, e_url, e_rest) =
        >>=-eq-ok (h.artifacts_uploader.presigned_read_url b.object_name expiration) _ w e in
      record { url = url; same = sym (ok_inv e_rest); given = (w, e_url) }

  presigned_artifacts-AreSigned :
      (artifacts signed : List JobArtifact) (w : W)
      → (presigned_artifacts h artifacts w).0 ≡ ok signed
      → AreSigned artifacts signed
  unfolding presigned_artifacts
  presigned_artifacts-AreSigned [] signed w e = subst (AreSigned []) (ok_inv e) no_artifacts
  presigned_artifacts-AreSigned (a ∷ rest) signed w e =
      let later = presigned_artifacts-AreSigned rest in
      let (blob, e_blob, e₁) = >>=-eq-ok (presigned_blob h a.blob) _ w e in
      let w₁ = (presigned_blob h a.blob w).1 in
      let (others, e_others, e₂) = >>=-eq-ok (presigned_artifacts h rest) _ w₁ e₁ in
      subst (AreSigned (a ∷ rest)) (ok_inv e₂) (
        next_artifact a blob rest others (presigned_blob-IsSigned a.blob blob w e_blob)
          (later others w₁ e_others))

  presigned_results-ResultsSigned :
      (results signed : List JobResult) (w : W)
      → (presigned_results h results w).0 ≡ ok signed
      → ResultsSigned results signed
  unfolding presigned_results
  presigned_results-ResultsSigned [] signed w e = subst (ResultsSigned []) (ok_inv e) no_results
  presigned_results-ResultsSigned (r ∷ rest) signed w e =
      let later = presigned_results-ResultsSigned rest in
      let (stdout, e_out, e₁) = >>=-eq-ok (presigned_blob h r.stdout_blob) _ w e in
      let w₁ = (presigned_blob h r.stdout_blob w).1 in
      let (stderr, e_err, e₂) = >>=-eq-ok (presigned_blob h r.stderr_blob) _ w₁ e₁ in
      let w₂ = (presigned_blob h r.stderr_blob w₁).1 in
      let (others, e_others, e₃) = >>=-eq-ok (presigned_results h rest) _ w₂ e₂ in
      subst (ResultsSigned (r ∷ rest)) (ok_inv e₃) (
        next_result r stdout stderr rest others
          (presigned_blob-IsSigned r.stdout_blob stdout w e_out)
          (presigned_blob-IsSigned r.stderr_blob stderr w₁ e_err) (later others w₂ e_others))

  pub or_refuse_inv :
      {A : Type 0} (e : HttpError) (m : Exec W GoError A) (w : W) (a : A)
      → (or_refuse e m w).0 ≡ ok a
      → (m w).0 ≡ ok a
  or_refuse_inv e m w a q = ground arith

  -- If there is a response for a job, it has the id, the status and the outcome of the tests of the job's
  -- row, and the artifacts and results of the row, in their order, each blob with a URL that the store has
  -- given for it.
  pub job_response-AreSigned :
      (row : JobRow) (w : W) (response : JobResponse)
      → (job_response h row w).0 ≡ ok response
      → (response.job_id ≡ h.id_text row.id)
        × (response.status ≡ row.status)
        × (response.functionality_tests_passing ≡ row.functionality_tests_passing)
        × AreSigned row.artifacts response.artifacts
        × ResultsSigned row.results response.results
  unfolding job_response
  job_response-AreSigned row w response e =
      let first = presigned_artifacts h row.artifacts in
      let (artifacts, e_artifacts, e₁) = >>=-eq-ok (or_refuse internal_server_error first) _ w e in
      let w₁ = (first w).1 in
      let second = presigned_results h row.results in
      let (results, e_results, e₂) = >>=-eq-ok (or_refuse internal_server_error second) _ w₁ e₁ in
      let same = ok_inv e₂ in
      (
        sym (ap (λ r. r.job_id) same),
        sym (ap (λ r. r.status) same),
        sym (ap (λ r. r.functionality_tests_passing) same),
        subst (λ r. AreSigned row.artifacts r.artifacts) same
            (presigned_artifacts-AreSigned row.artifacts artifacts w
              (or_refuse_inv internal_server_error first w artifacts e_artifacts)),
        subst (λ r. ResultsSigned row.results r.results) same
            (presigned_results-ResultsSigned row.results results w₁
              (or_refuse_inv internal_server_error second w₁ results e_results)),
      )
