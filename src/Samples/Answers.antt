-- ===== src/Samples/Answers.antt =====
-- The theorems on the answers over HTTP applied at concrete inputs.
use learn_nestjs.Common.{◌≡◌, true, none}
use learn_nestjs.Common.Text.{Text, codes}
use learn_nestjs.Samples.Models.{runs}
use learn_nestjs.Http.{Value, number, string, object, no_fields, field, has_field, get_field}
use learn_nestjs.Http.Envelope.{is_envelope, parts_of, envelope, intercept, paginated}
use learn_nestjs.Http.Filter.{
  HttpResponse, Exception, error, Request, get_error_code, http_outcome, join_columns,
  known_outcome, outcome_of, catch,
}
use learn_nestjs.Http.Envelopes.{intercept-intercept}

unfoldable answers : Unit {0}
unfolding runs get_error_code http_outcome join_columns known_outcome outcome_of catch has_field
    get_field is_envelope parts_of envelope intercept paginated
answers = tt

abbrev get_me : Request
get_me = record { url = codes "/auth/me"; method = codes "GET" }

abbrev crash : Exception
crash = error (record { message = codes "read ECONNRESET 10.0.0.5"; stack = none })

-- A message that Nest derives.
abbrev derived : Text → HttpResponse → Text
derived class_name response = class_name

-- A handler returns a message beside other fields.
abbrev with_message : Value
with_message =
    object
      (field (codes "message") (string (codes "Sent")) (field (codes "id") (number 7) no_fields))

intercept-intercept_example :
    let answer = intercept none 201 (codes "t") with_message in
    (is_envelope answer ≡ true) × (intercept none 200 (codes "u") answer ≡ answer)
unfolding answers
intercept-intercept_example =
    intercept-intercept none none 201 200 (codes "t") (codes "u") with_message
