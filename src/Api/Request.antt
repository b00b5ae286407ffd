-- ===== src/Api/Request.antt =====
-- api/Request.h: the requests and responses, and the access to an alternative of the response.
use opcuatesttool.Prelude.{Bool, ℤ, Result, ok, throw, bad_variant_access}
use opcuatesttool.Std.Text.{Text}

-- `RequestVariant`. The member `jsonRequest` of the base class is used by `NewJobRequest` alone.
pub data RequestVariant : Type 0 where
  new_job_request : Text → RequestVariant
  get_job_request : ℤ → RequestVariant
  get_jobs_request : ℤ → ℤ → RequestVariant
  get_scripts_request : RequestVariant
  get_script_request : Text → RequestVariant
  update_script_request : Text → Text → RequestVariant
  get_job_log_request : ℤ → RequestVariant
  get_targets_request : RequestVariant
  new_line_repl_request : Text → RequestVariant
  clone_script_repo_request : RequestVariant

-- `ResponseVariant`: each alternative has the flag `ok`.
pub data ResponseVariant : Type 0 where
  response : Bool → ResponseVariant
  new_job_response : Bool → ℤ → ResponseVariant
  get_job_response : Bool → Text → ResponseVariant
  get_scripts_response : Bool → Text → ResponseVariant
  get_script_response : Bool → Text → ResponseVariant
  get_job_log_response : Bool → Text → ResponseVariant
  get_targets_response : Bool → Text → ResponseVariant
  clone_script_repo_response : Bool → ResponseVariant

-- `std::get<Response>` and so on.
unfoldable pub as_response : ResponseVariant → Result Bool
as_response (response b) = ok b
as_response _ = throw bad_variant_access

unfoldable pub as_new_job_response : ResponseVariant → Result (Bool × ℤ)
as_new_job_response (new_job_response b id) = ok (b, id)
as_new_job_response _ = throw bad_variant_access

unfoldable pub as_get_job_response : ResponseVariant → Result (Bool × Text)
as_get_job_response (get_job_response b text) = ok (b, text)
as_get_job_response _ = throw bad_variant_access

unfoldable pub as_get_scripts_response : ResponseVariant → Result (Bool × Text)
as_get_scripts_response (get_scripts_response b text) = ok (b, text)
as_get_scripts_response _ = throw bad_variant_access

unfoldable pub as_get_script_response : ResponseVariant → Result (Bool × Text)
as_get_script_response (get_script_response b text) = ok (b, text)
as_get_script_response _ = throw bad_variant_access

unfoldable pub as_get_job_log_response : ResponseVariant → Result (Bool × Text)
as_get_job_log_response (get_job_log_response b text) = ok (b, text)
as_get_job_log_response _ = throw bad_variant_access

unfoldable pub as_get_targets_response : ResponseVariant → Result (Bool × Text)
as_get_targets_response (get_targets_response b text) = ok (b, text)
as_get_targets_response _ = throw bad_variant_access

unfoldable pub as_clone_script_repo_response : ResponseVariant → Result Bool
as_clone_script_repo_response (clone_script_repo_response b) = ok b
as_clone_script_repo_response _ = throw bad_variant_access
