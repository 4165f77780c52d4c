-- ===== src/Http/Envelope.antt =====
-- `TransformInterceptor` of src/common/interceptors/transform.interceptor.ts, and `ResponseUtil` of
-- src/common/utils/response.util.ts.
use learn_nestjs.Common.{ℕ, Bool, true, false, ◌&&◌, ◌||◌, Option, none, some, if◌then◌else◌}
use learn_nestjs.Common.Text.{Text, codes, is_empty}
use learn_nestjs.Http.{
  Value, undefined, null, boolean, number, string, array, object, Items, Fields, no_fields, field,
  is_truthy, or_value, has_field, get_field,
}

unfoldable pub is_envelope : Value → Bool
unfolding has_field
is_envelope (object fs) =
    has_field (codes "success") fs
    && has_field (codes "statusCode") fs
    && has_field (codes "message") fs
is_envelope _ = false

-- What is read of an object: the message, the data and `meta`.
pub record Parts : Type 0 where
  pub message : Value
  pub data_part : Value
  pub meta : Value

unfoldable pub parts_of : Text → Value → Parts
unfolding has_field get_field
parts_of message (object fs) =
    if has_field (codes "message") fs || has_field (codes "data") fs || has_field (codes "meta") fs
    then record {
      message =
          (if is_truthy (get_field (codes "message") fs)
            then get_field (codes "message") fs
            else string message);
      data_part = (if has_field (codes "data") fs then get_field (codes "data") fs else object fs);
      meta = get_field (codes "meta") fs;
    }
    else record { message = string message; data_part = object fs; meta = undefined }
parts_of message v = record { message = string message; data_part = v; meta = undefined }

-- An answer, with `meta` where it is given.
unfoldable pub envelope : ℕ → Text → Parts → Value
envelope status timestamp p = object (
    field (codes "success") (boolean true) (
      field (codes "statusCode") (number status) (
        field (codes "message") p.message (
          field (codes "data") (or_value p.data_part null) (
            field (codes "timestamp") (string timestamp)
              (if is_truthy p.meta then field (codes "meta") p.meta no_fields else no_fields))))))

-- `decoratorMessage || 'Success'`
abbrev pub message_or_success : Option Text → Text
message_or_success none = codes "Success"
message_or_success (some m) = if is_empty m then codes "Success" else m

-- `intercept`, on what the handler answers.
unfoldable pub intercept : Option Text → ℕ → Text → Value → Value
unfolding is_envelope parts_of envelope
intercept decorator_message status timestamp v =
    if is_envelope v
    then v
    else envelope status timestamp (parts_of (message_or_success decorator_message) v)

-- `ResponseUtil`

unfoldable pub success : Value → Text → ℕ → Text → Value
success v message status timestamp = object (
    field (codes "success") (boolean true) (
      field (codes "message") (string message) (
        field (codes "data") v (
          field (codes "statusCode") (number status)
            (field (codes "timestamp") (string timestamp) no_fields)))))

unfoldable pub created : Value → Text → Text → Value
unfolding success
created v message timestamp = success v message 201 timestamp

unfoldable pub no_content : Text → Text → Value
unfolding success
no_content message timestamp = success null message 204 timestamp

unfoldable pub paginated : Items → Fields → Text → Text → Value
paginated vs meta message timestamp = object (
    field (codes "success") (boolean true) (
      field (codes "message") (string message) (
        field (codes "data") (array vs) (
          field (codes "meta") (object meta) (
            field (codes "statusCode") (number 200)
              (field (codes "timestamp") (string timestamp) no_fields))))))
