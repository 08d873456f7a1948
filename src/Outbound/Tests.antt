-- ===== src/Outbound/Tests.antt =====
-- Messages to contacts and errors of providers, and the theorems there.
use desk_be.Common.{true, false, none, some, ◌≡◌, ◌↔◌, refl}
use desk_be.Outbound.Validator.{SendOptions, validate_contact}
use desk_be.Outbound.Validator.Sendable.{IsSendable, validate_contact-IsSendable}
use desk_be.Outbound.Failure.{Failure}
use desk_be.Outbound.Normaliser.{parse, to_send_error}
use desk_be.Outbound.Normaliser.Codes.{Fits, final_codes, passing_codes, parse-Fits}
use desk_be.Outbound.Normaliser.Roundtrip.{thrown, to_send_error-thrown}

abbrev reply : SendOptions
reply = record {
  channel_type = "whatsapp";
  channel_status = "connected";
  contact_channel =
      some (record { identifier = "4912345"; message_window_expiry = some 1_800_000_000 });
  contact_phone = none;
  contact_email = none;
  has_template = false;
  message_text = some "hello";
}

-- An expiry in seconds is read as one in milliseconds.
open_window : validate_contact 1_700_000_000_000 reply ≡ none
unfolding validate_contact
open_window = refl

closed_window :
    validate_contact 1_900_000_000_000 reply
    ≡ some (record {
      code = "WA_TEMPLATE_REQUIRED";
      message =
          "This WhatsApp contact channel is not open for free-form messaging. Send an approved template to message the contact.";
      detail = none;
      retryable = false;
    })
unfolding validate_contact
closed_window = refl

validate_contact-IsSendable_example :
    (validate_contact 1_700_000_000_000 reply ≡ none) ↔ IsSendable 1_700_000_000_000 reply
validate_contact-IsSendable_example = validate_contact-IsSendable 1_700_000_000_000 reply

abbrev limited : Failure
limited = record {
  bad_request = none;
  status = some 429;
  error = some (record {
    code = some 130429;
    error_code = none;
    details = some " slow down ";
    error_user_msg = some "slow down";
    message = some "Rate limit hit";
  });
  message = some "Request failed with status code 429";
  response_code = none;
  shown = "AxiosError";
}

rate_limit : parse limited "whatsapp" ≡ record {
  code = "WA_RATE_LIMITED";
  message = "WhatsApp rate limit reached. Please wait a moment before sending again.";
  detail = some "slow down | Rate limit hit";
  retryable = true;
}
unfolding parse
rate_limit = refl

parse-Fits_example :
    Fits (final_codes "whatsapp") (passing_codes "whatsapp") (parse limited "whatsapp")
parse-Fits_example = parse-Fits limited "whatsapp"

to_send_error-thrown_example :
    to_send_error (thrown (to_send_error limited "whatsapp") limited) "email"
    ≡ to_send_error limited "whatsapp"
to_send_error-thrown_example = to_send_error-thrown limited limited "whatsapp" "email"
