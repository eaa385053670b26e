-- ===== src/Routes/Jobrunner/Keyed.antt =====
-- What the key of a job is made of.
use competition_api.Prelude.{String, ◌≡◌, sym, ap, ◌∙◌, some, List, ◌++◌, ok, >>=-eq-ok}
use competition_api.Models.Sources.{PresignedSourceUrls}
use competition_api.Routes.Jobrunner.{
  JobArgs, JobTask, JobHandler, Prepared, deref, overridden_task, overridden_sources, cache_parts,
}
use competition_api.Routes.Jobrunner.Presigned.{ok_inv}
use competition_api.Routes.Jobrunner.Work.{load_task, add_trigger, add_patch, prepare_job}
use competition_api.Routes.Jobrunner.Lines.{
  or_empty, blob_name, trigger_lines, patch_lines, task_lines, key_lines, IsTaskOf, ReadsBack,
  deref_inv, add_trigger-lines, add_patch-lines, load_task-IsTaskOf, cache_parts-lines,
}

module _ {W : Type 0} (h : JobHandler W) (readers : ReadsBack h) where
  all_lines :
      (config_key request_key architecture : String) (a : JobArgs) (t : JobTask)
      (s : PresignedSourceUrls) (trigger patch : List String)
      → a.cache_key ≡ some request_key
      → a.architecture ≡ some architecture
      → trigger ≡ trigger_lines h a architecture (blob_name h a.testcase_hash a.testcase_b64)
      → patch ≡ patch_lines h (blob_name h a.patch_hash a.patch_b64)
      → cache_parts config_key request_key a (overridden_task a t) (overridden_sources a s)
          ++ trigger
          ++ patch
        ≡ key_lines h config_key a t
  all_lines config_key request_key architecture a t s trigger patch e_key e_architecture e_trigger
        e_patch =
      ap (λ l. l ++ trigger ++ patch)
        (cache_parts-lines h readers config_key request_key a t s e_key)
      ∙ ap (λ l. task_lines h config_key a t ++ l ++ patch)
          (e_trigger
            ∙ ap (λ o. trigger_lines h a (or_empty o) (blob_name h a.testcase_hash a.testcase_b64))
                (sym e_architecture))
      ∙ ap
          (λ l.
            task_lines h config_key a t
            ++ trigger_lines h a (or_empty a.architecture)
                (blob_name h a.testcase_hash a.testcase_b64)
            ++ l)
          e_patch

  -- The key under which a job is looked up is the digest of lines that are made of the configuration's key,
  -- the request and the row of its task alone: the sources by the URL that the request gives, else by their
  -- digests, a testcase or patch by the digest of what is sent, else by its name, and the architecture only
  -- with a testcase. No URL that the store signs is in it; readers of a text read it from their start.
  pub prepare_job-key :
      (a : JobArgs) (prepared : Prepared) (w : W)
      → (prepare_job h a w).0 ≡ ok prepared
      → (config_key : String) × (t : JobTask) × (h.config_cache_key ≡ some config_key)
        × IsTaskOf h a.task_id t
        × (prepared.key ≡ h.sha256 (h.join_lines (key_lines h config_key a t)))
  unfolding prepare_job
  prepare_job-key a prepared w e =
      let (config_key, e_config, e₁) = >>=-eq-ok (deref h.config_cache_key) _ w e in
      let w₁ = (deref h.config_cache_key w).1 in
      let (request_key, e_request, e₂) = >>=-eq-ok (deref a.cache_key) _ w₁ e₁ in
      let w₂ = (deref a.cache_key w₁).1 in
      let (loaded, e_loaded, e₃) = >>=-eq-ok (load_task h a.task_id) _ w₂ e₂ in
      let w₃ = (load_task h a.task_id w₂).1 in
      let (architecture, e_architecture, e₄) = >>=-eq-ok (deref a.architecture) _ w₃ e₃ in
      let w₄ = (deref a.architecture w₃).1 in
      let (trigger, e_trigger, e₅) = >>=-eq-ok (add_trigger h a architecture) _ w₄ e₄ in
      let w₅ = (add_trigger h a architecture w₄).1 in
      let (patch, e_patch, e₆) = >>=-eq-ok (add_patch h a) _ w₅ e₅ in
      (
        config_key,
        loaded.0,
        deref_inv h.config_cache_key w config_key e_config,
        load_task-IsTaskOf h readers a.task_id w₂ loaded e_loaded,
        sym (ap (λ p. p.key) (ok_inv e₆))
            ∙ ap (λ l. h.sha256 (h.join_lines l))
                (all_lines config_key request_key architecture a loaded.0 loaded.1 trigger.parts
                  patch.parts (deref_inv a.cache_key w₁ request_key e_request)
                  (deref_inv a.architecture w₃ architecture e_architecture)
                  (add_trigger-lines h readers a architecture w₄ trigger e_trigger)
                  (add_patch-lines h readers a w₅ patch e_patch)),
      )
