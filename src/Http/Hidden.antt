-- ===== src/Http/Hidden.antt =====
-- What the answers to exceptions disclose.
use learn_nestjs.Common.{
  ℕ, ◌<◌, ◌≤◌, ◌≡◌, refl, Bool, true, false, not, Option, none, List, [], if◌then◌else◌, arith,
}
use learn_nestjs.Common.Text.{Text, text_eq}
use learn_nestjs.Http.Filter.{
  HttpResponse, Thrown, Exception, http_exception, known_request_error, validation_error, error,
  not_an_error, Request, internal_error, known_outcome, outcome_of, catch,
}

-- No message and no stack.
abbrev pub nothing_thrown : Thrown
nothing_thrown = record { message = []; stack = none }

-- An `HttpException` without its stack and the name of its class; any other `Error` without its stack
-- and its message.
abbrev pub redacted : Exception → Exception
redacted (http_exception status response class_name stack) = http_exception status response [] none
redacted (known_request_error code target thrown) = known_request_error code target nothing_thrown
redacted (validation_error thrown) = validation_error nothing_thrown
redacted (error thrown) = error nothing_thrown
redacted not_an_error = not_an_error

abbrev pub is_http : Exception → Bool
is_http (http_exception status response class_name stack) = true
is_http (known_request_error code target thrown) = false
is_http (validation_error thrown) = false
is_http (error thrown) = false
is_http not_an_error = false

abbrev pub is_of_prisma : Exception → Bool
is_of_prisma (http_exception status response class_name stack) = false
is_of_prisma (known_request_error code target thrown) = true
is_of_prisma (validation_error thrown) = true
is_of_prisma (error thrown) = false
is_of_prisma not_an_error = false

known_status :
    (code : Text) (target : Option (List Text))
    → (400 ≤ (known_outcome code target).status) × ((known_outcome code target).status < 500)
unfolding known_outcome
known_status code target = (ground arith, ground arith)

known_code :
    (code : Text) (target : Option (List Text))
    → text_eq (known_outcome code target).code internal_error ≡ false
unfolding known_outcome text_eq
known_code code target = ground arith

-- An exception that is no `HttpException` is answered by 500 and INTERNAL_ERROR where it does not
-- come from the client of the database, and else by a status from 400 to 499 and a code of its own.
pub catch_unforeseen :
    (init_message : Text → HttpResponse → Text) (production : Bool) (e : Exception)
    (request : Request) (now : ℕ)
    → is_http e ≡ false
    → let a = catch init_message production e request now in
      (text_eq a.body.code internal_error ≡ not (is_of_prisma e))
      × (400 ≤ a.status)
      × (if is_of_prisma e then a.status < 500 else a.status ≡ 500)
unfolding catch outcome_of text_eq
catch_unforeseen init_message production (http_exception status response class_name stack) request
      now h =
    absurd (ground arith)
catch_unforeseen init_message production (known_request_error code target thrown) request now h =
    (known_code code target, (known_status code target).0, (known_status code target).1)
catch_unforeseen init_message production (validation_error thrown) request now h =
    (refl, omega arith, omega arith)
catch_unforeseen init_message production (error thrown) request now h = (refl, omega arith, refl)
catch_unforeseen init_message production not_an_error request now h = (refl, omega arith, refl)
