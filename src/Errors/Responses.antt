-- ===== src/Errors/Responses.antt =====
-- middleware/error-handler.ts, `globalErrorHandler`: the response to a thrown error.
use ufcim_backend_proto.Prelude.{ℕ, Bool, true, false}
use ufcim_backend_proto.Errors.{Code, internal_error, Message, Thrown, app, internal}

-- What the client reads: `none` is the fixed text of an internal error.
pub data Text : Type 0 where
  of_message : Message → Text
  masked : Text
  raw : Text

pub record Response : Type 0 where
  pub status : ℕ
  pub code : Code
  pub error : Text

unfoldable pub global_error_handler : Bool → Thrown → Response
global_error_handler is_prod (app e) = record {
  status = e.status_code;
  code = e.code;
  error = of_message e.message;
}
global_error_handler true internal = record { status = 500; code = internal_error; error = masked }
global_error_handler false internal = record { status = 500; code = internal_error; error = raw }
