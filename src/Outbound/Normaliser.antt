-- ===== src/Outbound/Normaliser.antt =====
-- `ProviderErrorNormaliser` of src/modules/outbound/send-validator.ts. `normalise` throws what
-- `toSendError` returns; the stack that `generic` logs is left out.
pub mod Codes
pub mod Roundtrip
use desk_be.Common.{
  ℕ, String, List, [], ◌∷◌, ◌++◌, Bool, true, false, not, ◌&&◌, ◌||◌, Option, none, some, contains,
  coalesce, get_or, str_eq, ◌==◌, join, trim, includes, if◌then◌else◌,
}
use desk_be.Outbound.Errors.{SendError}
use desk_be.Outbound.Failure.{
  MessageField, one, many, nothing, ErrorBody, Response, text, body, ApiError, Failure,
  provider_detail, or_else, message_text, not_blank,
}

-- `status === n`
num_eq : Option ℕ → ℕ → Bool
num_eq none n = false
num_eq (some m) n = m == n

api_details : Option ApiError → List (Option String)
api_details none = []
api_details (some e) = e.details ∷ e.error_user_msg ∷ e.message ∷ []

whatsapp_code : Option ApiError → ℕ
whatsapp_code none = 0
whatsapp_code (some e) = get_or (coalesce e.code e.error_code) 0

meta_code : Option ApiError → ℕ
meta_code none = 0
meta_code (some e) = get_or e.code 0

failure_detail : Failure → String
unfolding provider_detail api_details or_else
failure_detail f =
    or_else (provider_detail (api_details f.error)) (provider_detail (f.message ∷ f.message ∷ []))

known : String → String → String → Bool → SendError
known code message detail retryable = record {
  code = code;
  message = message;
  detail = some detail;
  retryable = retryable;
}

-- `generic`
generic : Failure → Option String → SendError
generic f detail = record {
  code = "PROVIDER_ERROR";
  message = "Message could not be sent. Please try again or contact support.";
  detail = some (get_or (coalesce detail f.message) f.shown);
  retryable = true;
}

-- a sequence of `if (…) return …`, and what follows it
first_of : List (Bool × SendError) → SendError → SendError
first_of [] otherwise = otherwise
first_of ((test, e) ∷ rules) otherwise = if test then e else first_of rules otherwise

whatsapp_rules : ℕ → Option ℕ → String → List (Bool × SendError)
unfolding num_eq known
whatsapp_rules code status detail =
    (
      num_eq status 401 || code == 190,
      known "WA_INVALID_TOKEN"
          "WhatsApp access token is expired or invalid. Reconnect the channel in Settings." detail
          false,
    )
    ∷ (
      code == 10 || code == 200 || code == 294,
      known "WA_PERMISSION_DENIED"
          "Your WhatsApp Business account does not have permission to send this message. Check your Meta Business Manager permissions."
          detail false,
    )
    ∷ (
      code == 131026,
      known "WA_PHONE_NOT_FOUND" "The recipient's phone number is not registered on WhatsApp."
          detail false,
    )
    ∷ (
      code == 131047 || code == 131021,
      known "WA_OUTSIDE_WINDOW"
          "The 24-hour messaging window has closed. You must send a pre-approved template message to re-open the conversation."
          detail false,
    )
    ∷ (
      code == 132000 || code == 132001,
      known "WA_TEMPLATE_REJECTED"
          "The WhatsApp template was rejected or is not approved. Check the template status in Meta Business Manager."
          detail false,
    )
    ∷ (
      code == 130429 || code == 131048 || num_eq status 429,
      known "WA_RATE_LIMITED"
          "WhatsApp rate limit reached. Please wait a moment before sending again." detail true,
    )
    ∷ (
      code == 131031,
      known "WA_RECIPIENT_BLOCKED" "The contact has blocked your WhatsApp Business number." detail
          false,
    )
    ∷ (
      code == 131030,
      known "WA_RECIPIENT_NOT_ALLOWED"
          "This phone number is not in the allowed recipients list for your WhatsApp test number. Add it in Meta or use a live WhatsApp Business number."
          detail false,
    )
    ∷ (
      code == 131053 || code == 131052,
      known "WA_MEDIA_UPLOAD_FAILED"
          "The media file could not be uploaded to WhatsApp. Check the file size and format." detail
          true,
    )
    ∷ []

-- `parseWhatsApp`
parse_whatsapp : Failure → SendError
unfolding first_of whatsapp_code failure_detail whatsapp_rules generic
parse_whatsapp f =
    first_of (whatsapp_rules (whatsapp_code f.error) f.status (failure_detail f))
      (generic f (some (failure_detail f)))

meta_label : String → String
meta_label channel = if str_eq channel "instagram" then "Instagram" else "Messenger"

meta_rules : String → ℕ → Option ℕ → String → List (Bool × SendError)
unfolding num_eq known meta_label
meta_rules channel code status detail =
    (
      num_eq status 401 || code == 190,
      known "META_INVALID_TOKEN"
          (join (meta_label channel)
            " page access token is expired. Reconnect the channel in Settings.")
          detail false,
    )
    ∷ (
      code == 10 || code == 200 || code == 230,
      known "META_NO_PAGE_ACCESS"
          (join "Your " (
            join (meta_label channel)
              " Page has not granted messaging permissions. Check your Meta app permissions."))
          detail false,
    )
    ∷ (
      code == 551 || code == 10900 || code == 2018109,
      known "META_USER_NOT_REACHABLE"
          (join "This contact cannot be reached. They have not sent a message in the last "
            (join (if str_eq channel "instagram" then "7 days" else "24 hours") "."))
          detail false,
    )
    ∷ (
      code == 32 || code == 613 || num_eq status 429,
      known "META_RATE_LIMITED"
          (join (meta_label channel)
            " rate limit reached. Please wait a moment before sending again.")
          detail true,
    )
    ∷ []

-- `parseMeta`
parse_meta : Failure → String → SendError
unfolding first_of meta_code failure_detail meta_rules generic
parse_meta f channel =
    first_of (meta_rules channel (meta_code f.error) f.status (failure_detail f))
      (generic f (some (failure_detail f)))

email_rules : String → ℕ → List (Bool × SendError)
unfolding known includes
email_rules message code =
    (
      includes message "Invalid login"
          || includes message "Authentication failed"
          || includes message "Username and Password not accepted"
          || code == 535,
      known "EMAIL_AUTH_FAILED"
          "SMTP authentication failed. Check the email username and password in channel settings."
          message false,
    )
    ∷ (
      includes message "Recipient address rejected"
          || includes message "User unknown"
          || code == 550
          || code == 551,
      known "EMAIL_RECIPIENT_REJECTED"
          "The recipient email address was rejected by the mail server. Check the contact's email address."
          message false,
    )
    ∷ (
      includes message "ECONNREFUSED"
          || includes message "ETIMEDOUT"
          || includes message "ENOTFOUND",
      known "EMAIL_CONNECTION_FAILED"
          "Could not connect to the SMTP server. Check the server address and port in channel settings."
          message true,
    )
    ∷ []

-- `parseEmail`
parse_email : Failure → SendError
unfolding first_of email_rules generic
parse_email f =
    first_of (email_rules (get_or f.message "") (get_or f.response_code 0))
      (generic f (some (get_or f.message "")))

-- `parse`
unfoldable pub parse : Failure → String → SendError
unfolding parse_whatsapp parse_meta parse_email generic
parse f channel =
    if str_eq channel "whatsapp"
    then parse_whatsapp f
    else if str_eq channel "instagram" || str_eq channel "messenger"
    then parse_meta f channel
    else if str_eq channel "email"
    then parse_email f
    else generic f none

passed_body : ErrorBody → Option String → Option SendError
passed_body b none = none
passed_body b (some message) = some (record {
  code = get_or b.code "UNKNOWN";
  message = message;
  detail = b.detail;
  retryable = get_or b.retryable false;
})

passed_text : Option String → Option SendError
passed_text none = none
passed_text (some message) =
    some (record { code = "UNKNOWN"; message = message; detail = none; retryable = false })

-- a structured error that is passed on
passed_on : Option Response → Option SendError
unfolding message_text not_blank passed_body passed_text
passed_on none = none
passed_on (some (text s)) = passed_text (not_blank (some s))
passed_on (some (body b)) = passed_body b (not_blank (message_text b.message))

-- `toSendError`
unfoldable pub to_send_error : Failure → String → SendError
unfolding passed_on parse
to_send_error f channel = get_or (passed_on f.bad_request) (parse f channel)
