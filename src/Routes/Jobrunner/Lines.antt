-- ===== src/Routes/Jobrunner/Lines.antt =====
-- The lines that the key of a job is made of, and what each step adds to them.
use competition_api.Prelude.{
  ℕ, String, ◌≡◌, refl, sym, ap, ◌∙◌, subst, arith, Bool, false, Option, none, some, List, [], ◌∷◌,
  ◌++◌, Result, ok, err, lift, check, >>=-eq-ok,
}
use competition_api.WorkerErrors.{GoError}
use Prim.Native.String.{len}
use competition_api.Http.{internal_server_error, bad_request}
use competition_api.Validator.{validate_trigger_size, validate_patch_size}
use competition_api.Models.Sources.{get_source_urls}
use competition_api.Routes.Submission.{expiration}
use competition_api.Types.Bundle.{Uuid}
use competition_api.Upload.{hashed}
use competition_api.Upload.Stored.{hashed-IsStored}
use competition_api.Jobs.{format_bool}
use competition_api.Models.Rows.{Task}
use competition_api.Models.Sources.{PresignedSourceUrls}
use competition_api.Routes.Jobrunner.{
  JobArgs, JobTask, JobFailure, refused, JobHandler, Added, deref, or_refuse, or_given, source_key,
  base_key, no_task, job_task, overridden_task, overridden_sources, cache_parts,
}
use competition_api.Routes.Jobrunner.Presigned.{ok_inv, or_refuse_inv}
use competition_api.Routes.Jobrunner.Work.{
  load_task, or_no_task, sent_blob, blob_exists, with_trigger, with_patch, add_trigger, add_patch,
}

source_key_given :
    (given : Option String) (url sha : String)
    → source_key given (or_given given url) sha ≡ or_given given sha
source_key_given none url sha = refl
source_key_given (some g) url sha = refl

-- The base repository's line, if there is one.
abbrev pub base_lines : Option String → Option String → List String
base_lines (some given) sha = given ∷ []
base_lines none (some sha) = sha ∷ []
base_lines none none = []

base_key_given :
    (given : Option String) (url : String) (sha : Option String)
    → base_key given (or_given given url) sha ≡ base_lines given sha
base_key_given none url none = refl
base_key_given none url (some sha) = refl
base_key_given (some g) url sha = refl

abbrev pub or_empty : Option String → String
or_empty none = ""
or_empty (some s) = s

pub deref_inv : {W A : Type 0} (o : Option A) (w : W) (a : A) → (deref o w).0 ≡ ok a → (o ≡ some a)
deref_inv none w a e = cc
deref_inv (some b) w a e = ground arith

module _ {W : Type 0} (h : JobHandler W) where
  -- The name of a blob: the digest of what is sent, or else the name that is given.
  abbrev pub digest_of : Result GoError String → Option String
  digest_of (ok content) = some (h.sha256 content)
  digest_of (err e) = none

  abbrev pub blob_name : (named sent : Option String) → Option String
  blob_name named none = named
  blob_name named (some text) = digest_of (h.decode_base64 text)

  abbrev pub trigger_lines : JobArgs → (architecture : String) → Option String → List String
  trigger_lines a architecture none = []
  trigger_lines a architecture (some name) =
      "testcase"
      ∷ name
      ∷ architecture
      ∷ or_empty a.sanitizer
      ∷ or_empty a.fuzzer_name
      ∷ or_empty a.engine
      ∷ []

  abbrev pub patch_lines : Option String → List String
  patch_lines none = []
  patch_lines (some name) = "patch" ∷ name ∷ []

  -- The lines whose digest is the key, from the request and the row of its task alone.
  abbrev pub task_lines : (config_key : String) → JobArgs → JobTask → List String
  task_lines config_key a t =
      (config_key
        ∷ or_empty a.cache_key
        ∷ or_given a.head_repo_tarball_url t.head_sha256
        ∷ or_given a.oss_fuzz_tarball_url t.fuzz_tooling_sha256
        ∷ [])
      ++ base_lines a.base_tarball_url t.base_sha256
      ++ or_given a.focus t.focus
        ∷ or_given a.project_name t.project_name
        ∷ format_bool (or_given a.skip_patch_tests false)
        ∷ []

  abbrev pub key_lines : (config_key : String) → JobArgs → JobTask → List String
  key_lines config_key a t =
      task_lines config_key a t
      ++ trigger_lines a (or_empty a.architecture) (blob_name a.testcase_hash a.testcase_b64)
      ++ patch_lines (blob_name a.patch_hash a.patch_b64)

  -- The task that a request names, as the database holds it; nothing where it names none.
  pub data IsTaskOf : Option String → JobTask → Type 0 where
    unnamed : IsTaskOf none no_task
    stored :
        (text : String) (id : Uuid) (task : Task)
        → h.parse_id text ≡ ok id
        → (w : W) × ((h.task_by_id id w).0 ≡ ok (some task))
        → IsTaskOf (some text) (job_task task)

-- `bytes.NewReader`: once put back to its start, a reader of a text reads that text.
pub record ReadsBack {W : Type 0} (h : JobHandler W) : Type 0 where
  pub reads :
      (content found : String) (w w₁ w₂ : W)
      → (h.bytes_reader content).seek_start w ≡ (ok tt, w₁)
      → (h.bytes_reader content).read_all w₁ ≡ (ok found, w₂)
      → found ≡ content

module _ {W : Type 0} (h : JobHandler W) (readers : ReadsBack h) where
  sent_blob-name :
      (small : ℕ → Bool) (named sent : Option String) (w : W) (r : Option String)
      → (sent_blob h small named sent w).0 ≡ ok r
      → r ≡ blob_name h named sent
  sent_blob-name small named none w r e = sym (ok_inv e)
  sent_blob-name small named (some text) w r e =
      let (x, e_check, e₁) =
        >>=-eq-ok (check (small (len text)) (refused (bad_request "validation error"))) _ w e in
      let w₁ =
        (check {E = JobFailure} (small (len text)) (refused (bad_request "validation error"))
          w).1 in
      let decode = lift {W = W} (h.decode_base64 text) in
      let (content, e_content, e₂) =
        >>=-eq-ok (or_refuse (bad_request "failed to decode base64") decode) _ w₁ e₁ in
      let decoded =
        or_refuse_inv h (bad_request "failed to decode base64") decode w₁ content e_content in
      let store = hashed h.sha256 h.submission_uploader (h.bytes_reader content) (len content) in
      let w₂ = (or_refuse (bad_request "failed to decode base64") decode w₁).1 in
      let (name, e_name, e₃) = >>=-eq-ok (or_refuse internal_server_error store) _ w₂ e₂ in
      let kept =
        hashed-IsStored h.sha256 h.submission_uploader (h.bytes_reader content) (len content) w₂
          name (or_refuse_inv h internal_server_error store w₂ name e_name) in
      let same = readers.reads content kept.content w₂ kept.w₁ kept.w₂ kept.rewound kept.read in
      sym (ok_inv e₃)
      ∙ ap (λ n. some n) (kept.is_digest ∙ ap h.sha256 same)
      ∙ sym (ap (digest_of h) decoded)

  with_trigger-lines :
      (a : JobArgs) (architecture : String) (name : Option String) (w : W) (added : Added)
      → (with_trigger h a architecture name w).0 ≡ ok added
      → added.parts ≡ trigger_lines h a architecture name
  with_trigger-lines a architecture none w added e = sym (ap (λ x. x.parts) (ok_inv e))
  with_trigger-lines a architecture (some name) w added e =
      let sign =
        or_refuse internal_server_error
          (h.submission_uploader.presigned_read_url name expiration) in
      let (url, e_url, e₁) = >>=-eq-ok sign _ w e in
      let w₁ = (sign w).1 in
      let (sanitizer, e_sanitizer, e₂) = >>=-eq-ok (deref a.sanitizer) _ w₁ e₁ in
      let w₂ = (deref a.sanitizer w₁).1 in
      let (fuzzer, e_fuzzer, e₃) = >>=-eq-ok (deref a.fuzzer_name) _ w₂ e₂ in
      let w₃ = (deref a.fuzzer_name w₂).1 in
      let (engine, e_engine, e₄) = >>=-eq-ok (deref a.engine) _ w₃ e₃ in
      rw
        (
          deref_inv a.sanitizer w₁ sanitizer e_sanitizer,
          deref_inv a.fuzzer_name w₂ fuzzer e_fuzzer,
          deref_inv a.engine w₃ engine e_engine,
        )
        (sym (ap (λ x. x.parts) (ok_inv e₄)))

  with_patch-lines :
      (name : Option String) (w : W) (added : Added)
      → (with_patch h name w).0 ≡ ok added
      → added.parts ≡ patch_lines h name
  with_patch-lines none w added e = sym (ap (λ x. x.parts) (ok_inv e))
  with_patch-lines (some name) w added e =
      let sign =
        or_refuse internal_server_error
          (h.submission_uploader.presigned_read_url name expiration) in
      let (url, e_url, e₁) = >>=-eq-ok sign _ w e in sym (ap (λ x. x.parts) (ok_inv e₁))

  pub add_trigger-lines :
      (a : JobArgs) (architecture : String) (w : W) (added : Added)
      → (add_trigger h a architecture w).0 ≡ ok added
      → added.parts ≡ trigger_lines h a architecture (blob_name h a.testcase_hash a.testcase_b64)
  unfolding add_trigger
  add_trigger-lines a architecture w added e =
      let first = blob_exists h "missing pov blob" a.testcase_hash in
      let (x, e_first, e₁) = >>=-eq-ok first _ w e in
      let second = sent_blob h validate_trigger_size a.testcase_hash a.testcase_b64 in
      let (name, e_name, e₂) = >>=-eq-ok second _ (first w).1 e₁ in
      with_trigger-lines a architecture name (second (first w).1).1 added e₂
      ∙ ap (trigger_lines h a architecture) (
          sent_blob-name validate_trigger_size a.testcase_hash a.testcase_b64 (first w).1 name
            e_name)

  pub add_patch-lines :
      (a : JobArgs) (w : W) (added : Added)
      → (add_patch h a w).0 ≡ ok added
      → added.parts ≡ patch_lines h (blob_name h a.patch_hash a.patch_b64)
  unfolding add_patch
  add_patch-lines a w added e =
      let first = blob_exists h "missing patch blob" a.patch_hash in
      let (x, e_first, e₁) = >>=-eq-ok first _ w e in
      let second = sent_blob h validate_patch_size a.patch_hash a.patch_b64 in
      let (name, e_name, e₂) = >>=-eq-ok second _ (first w).1 e₁ in
      with_patch-lines name (second (first w).1).1 added e₂
      ∙ ap (patch_lines h)
          (sent_blob-name validate_patch_size a.patch_hash a.patch_b64 (first w).1 name e_name)

  or_no_task_inv :
      (found : Option Task) (w : W) (task : Task)
      → (or_no_task h found w).0 ≡ ok task
      → found ≡ some task
  or_no_task_inv none w task e = cc
  or_no_task_inv (some t) w task e = ap (λ x. some x) (ok_inv e)

  pub load_task-IsTaskOf :
      (named : Option String) (w : W) (loaded : JobTask × PresignedSourceUrls)
      → (load_task h named w).0 ≡ ok loaded
      → IsTaskOf h named loaded.0
  unfolding load_task
  load_task-IsTaskOf none w loaded e = subst (λ l. IsTaskOf h none l.0) (ok_inv e) unnamed
  load_task-IsTaskOf (some text) w loaded e =
      let parse = lift {W = W} (h.parse_id text) in
      let first = or_refuse (bad_request "failed to parse task ID as a UUID") parse in
      let (id, e_id, e₁) = >>=-eq-ok first _ w e in
      let w₁ = (first w).1 in
      let second = or_refuse internal_server_error (h.task_by_id id) in
      let (found, e_found, e₂) = >>=-eq-ok second _ w₁ e₁ in
      let w₂ = (second w₁).1 in
      let (task, e_task, e₃) = >>=-eq-ok (or_no_task h found) _ w₂ e₂ in
      let w₃ = (or_no_task h found w₂).1 in
      let third =
        or_refuse internal_server_error (get_source_urls task h.sources_uploader expiration) in
      let (sources, e_sources, e₄) = >>=-eq-ok third _ w₃ e₃ in
      subst (λ l. IsTaskOf h (some text) l.0) (ok_inv e₄)
        (stored text id task
          (or_refuse_inv h (bad_request "failed to parse task ID as a UUID") parse w id e_id)
          (
            w₁,
            or_refuse_inv h internal_server_error (h.task_by_id id) w₁ found e_found
                ∙ ap (λ o. ok o) (or_no_task_inv found w₂ task e_task),
          ))

  pub cache_parts-lines :
      (config_key request_key : String) (a : JobArgs) (t : JobTask) (s : PresignedSourceUrls)
      → a.cache_key ≡ some request_key
      → cache_parts config_key request_key a (overridden_task a t) (overridden_sources a s)
        ≡ task_lines h config_key a t
  unfolding cache_parts
  cache_parts-lines config_key request_key a t s e =
      rw
        (
          e,
          source_key_given a.head_repo_tarball_url s.head_repo t.head_sha256,
          source_key_given a.oss_fuzz_tarball_url s.fuzz_tooling t.fuzz_tooling_sha256,
          base_key_given a.base_tarball_url s.base_repo t.base_sha256,
        )
        refl
