-- ===== src/Outbound/Errors.antt =====
-- The errors of src/modules/outbound/send-validator.ts (`SendError`). A code is a string, as an
-- error that is passed on may have any.
use desk_be.Common.{String, Bool, false, Option, none, str_eq, if◌then◌else◌}

pub record SendError : Type 0 where
  pub code : String
  pub message : String
  pub detail : Option String
  pub retryable : Bool

-- what is thrown of the checks before a message is sent, none of which may be retried
abbrev pub refuse : String → String → SendError
refuse code message = record { code = code; message = message; detail = none; retryable = false }

-- `label`
unfoldable pub label : String → String
label channel =
    if str_eq channel "whatsapp"
    then "WhatsApp"
    else if str_eq channel "instagram"
    then "Instagram"
    else if str_eq channel "messenger"
    then "Messenger"
    else if str_eq channel "email"
    then "Email"
    else if str_eq channel "sms"
    then "SMS"
    else channel
