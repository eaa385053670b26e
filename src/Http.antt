-- ===== src/Http.antt =====
-- competition-api/cmd/server/internal/response and the errors that handlers return, and what the
-- middleware leaves for a handler.
use competition_api.Prelude.{ℕ, String, Option, none, some, ok, err, Exec}

-- `echo.HTTPError`: the code and the message.
pub record HttpError : Type 0 where
  pub code : ℕ
  pub message : String

abbrev pub internal_server_error : HttpError
internal_server_error = record { code = 500; message = "something went wrong" }

abbrev pub not_found_error : HttpError
not_found_error = record { code = 404; message = "not found" }

abbrev pub unauthorized : HttpError
unauthorized = record { code = 401; message = "Unauthorized" }

abbrev pub bad_request : String → HttpError
bad_request message = record { code = 400; message = message }

-- `v, ok := c.Get(key).(T); if !ok { return response.InternalServerError }`
abbrev pub from_context : {W A : Type 0} → Option A → Exec W HttpError A
from_context none w = (err internal_server_error, w)
from_context (some a) w = (ok a, w)
