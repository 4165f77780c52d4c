-- ===== src/Http/Filter.antt =====
-- `GlobalExceptionFilter` of src/common/filters/global-exception.filter.ts.
--
-- The class of an exception is its constructor; the message and the stack of an `Error` stand in
-- `Thrown`. Nest derives the message of an `HttpException` from its response or, where that has none,
-- from the name of its class: the function that does so is a parameter. The two fixed lines of
-- `developer` and the log are left out.
use learn_nestjs.Common.{
  ℕ, Bool, false, Option, none, some, or_else, List, [], ◌∷◌, ◌++◌, if◌then◌else◌, ◌==◌,
}
use learn_nestjs.Common.Text.{Text, codes, text_eq}

-- `message` of the response of an exception: a string, an array of strings, or neither.
pub data ResponseMessage : Type 0 where
  no_message : ResponseMessage
  line : Text → ResponseMessage
  lines : List Text → ResponseMessage

-- `exception.getResponse()`: a string, or the fields of an object.
pub data HttpResponse : Type 0 where
  plain : Text → HttpResponse
  fields : (message : ResponseMessage) → (error : Option Text) → HttpResponse

pub record Thrown : Type 0 where
  pub message : Text
  pub stack : Option Text

pub data Exception : Type 0 where
  http_exception :
      (status : ℕ) → HttpResponse → (class_name : Text) → (stack : Option Text) → Exception
  known_request_error : (code : Text) → (target : Option (List Text)) → Thrown → Exception
  validation_error error : Thrown → Exception
  not_an_error : Exception

pub record Request : Type 0 where
  pub url : Text
  pub method : Text

pub record ErrorBody : Type 0 where
  pub success : Bool
  pub status_code : ℕ
  pub code : Text
  pub message : Text
  pub timestamp : ℕ
  pub path : Text
  pub method : Text
  pub errors : Option (List Text)
  pub developer : Option Thrown

pub record HttpAnswer : Type 0 where
  pub status : ℕ
  pub body : ErrorBody

-- What `catch` finds out before it builds the body.
pub record Outcome : Type 0 where
  pub status : ℕ
  pub message : Text
  pub errors : Option (List Text)
  pub code : Text

abbrev pub internal_error : Text
internal_error = codes "INTERNAL_ERROR"

abbrev pub internal_message : Text
internal_message = codes "Internal server error"

unfoldable pub get_error_code : ℕ → Text
get_error_code status =
    if status == 400
    then codes "BAD_REQUEST"
    else if status == 401
    then codes "UNAUTHORIZED"
    else if status == 403
    then codes "FORBIDDEN"
    else if status == 404
    then codes "NOT_FOUND"
    else if status == 409
    then codes "CONFLICT"
    else if status == 422
    then codes "UNPROCESSABLE_ENTITY"
    else if status == 429
    then codes "TOO_MANY_REQUESTS"
    else internal_error

abbrev pub message_of : ResponseMessage → Text
message_of no_message = internal_message
message_of (line m) = m
message_of (lines ms) = codes "Validation failed"

abbrev pub errors_of : ResponseMessage → Option (List Text)
errors_of no_message = none
errors_of (line m) = none
errors_of (lines ms) = some ms

unfoldable pub http_outcome : ℕ → HttpResponse → Outcome
unfolding get_error_code
http_outcome status (plain m) = record {
  status = status;
  message = m;
  errors = none;
  code = internal_error;
}
http_outcome status (fields m e) = record {
  status = status;
  message = message_of m;
  errors = errors_of m;
  code = or_else e (get_error_code status);
}

-- `xs.join_columns(', ')`
unfoldable pub join_columns : List Text → Text
join_columns [] = []
join_columns (x ∷ []) = x
join_columns (x ∷ y ∷ ys) = x ++ codes ", " ++ join_columns (y ∷ ys)

-- The columns in a template literal, where `undefined` is written out.
abbrev pub target_text : Option (List Text) → Text
target_text none = codes "undefined"
target_text (some columns) = join_columns columns

-- A known error of the Prisma client.
unfoldable pub known_outcome : Text → Option (List Text) → Outcome
unfolding text_eq join_columns
known_outcome code target =
    if text_eq code (codes "P2002")
    then record {
      status = 409;
      message = codes "A record with this " ++ target_text target ++ codes " already exists";
      errors = none;
      code = codes "DUPLICATE_ENTRY";
    }
    else if text_eq code (codes "P2025")
    then record {
      status = 404;
      message = codes "Record not found";
      errors = none;
      code = codes "NOT_FOUND";
    }
    else if text_eq code (codes "P2003")
    then record {
      status = 400;
      message = codes "Foreign key constraint failed";
      errors = none;
      code = codes "FK_CONSTRAINT";
    }
    else record {
      status = 400;
      message = codes "Database operation failed";
      errors = none;
      code = codes "PRISMA_" ++ code;
    }

-- `production` says that NODE_ENV is `production`.
unfoldable pub outcome_of : Bool → Exception → Outcome
unfolding http_outcome known_outcome
outcome_of production (http_exception status response class_name stack) =
    http_outcome status response
outcome_of production (known_request_error code target thrown) = known_outcome code target
outcome_of production (validation_error thrown) = record {
  status = 400;
  message = codes "Invalid data provided";
  errors = none;
  code = codes "VALIDATION_ERROR";
}
outcome_of production (error thrown) = record {
  status = 500;
  message = (if production then internal_message else thrown.message);
  errors = none;
  code = internal_error;
}
outcome_of production not_an_error = record {
  status = 500;
  message = internal_message;
  errors = none;
  code = internal_error;
}

-- The exception as an `Error`, if it is one.
abbrev pub thrown_of : (Text → HttpResponse → Text) → Exception → Option Thrown
thrown_of init_message (http_exception status response class_name stack) =
    some (record { message = init_message class_name response; stack = stack })
thrown_of init_message (known_request_error code target thrown) = some thrown
thrown_of init_message (validation_error thrown) = some thrown
thrown_of init_message (error thrown) = some thrown
thrown_of init_message not_an_error = none

-- `catch`: the answer that is sent at a time. `init_message` is Nest's own.
unfoldable pub catch : (Text → HttpResponse → Text) → Bool → Exception → Request → ℕ → HttpAnswer
unfolding outcome_of
catch init_message production e request now =
    let o = outcome_of production e in
    record {
      status = o.status;
      body = record {
        success = false;
        status_code = o.status;
        code = o.code;
        message = o.message;
        timestamp = now;
        path = request.url;
        method = request.method;
        errors = o.errors;
        developer = (if production then none else thrown_of init_message e);
      };
    }
