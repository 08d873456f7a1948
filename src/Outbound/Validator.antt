-- ===== src/Outbound/Validator.antt =====
-- `SendValidator` of src/modules/outbound/send-validator.ts: `none` lets the message through, and
-- `some e` is the error that is thrown. The window's expiry is the number of the BigInt column, as
-- the only caller passes it. `validateCredentials` is never called.
pub mod Sendable
use desk_be.Common.{
  ℕ, ◌*◌, zero, String, Bool, true, false, not, ◌&&◌, ◌||◌, Option, none, some, truthy, str_eq, ltb,
  join, trim, if◌then◌else◌,
}
use desk_be.Outbound.Errors.{SendError, refuse, label}

pub record ContactChannel : Type 0 where
  pub identifier : String
  pub message_window_expiry : Option ℕ

-- the parameter of `validateContact`
pub record SendOptions : Type 0 where
  pub channel_type : String
  pub channel_status : String
  pub contact_channel : Option ContactChannel
  pub contact_phone : Option String
  pub contact_email : Option String
  pub has_template : Bool
  pub message_text : Option String

-- `contactChannel?.identifier`
unfoldable pub identifier : Option ContactChannel → Option String
identifier none = none
identifier (some c) = some c.identifier

window_expiry : Option ContactChannel → Option ℕ
window_expiry none = none
window_expiry (some c) = c.message_window_expiry

-- `toEpochMs`: small numbers are seconds
unfoldable pub to_epoch_ms : ℕ → ℕ
to_epoch_ms n = if ltb n 1_000_000_000_000 then n * 1000 else n

-- `expiryMs && expiryMs > Date.now()`
unfoldable pub is_open : ℕ → Option ℕ → Bool
unfolding to_epoch_ms
is_open now none = false
is_open now (some n) = ltb now (to_epoch_ms n)

disconnected : String → SendError
unfolding label
disconnected channel = refuse "CHANNEL_DISCONNECTED" (
    join "This "
      (join (label channel) " channel is disconnected. Reconnect it in Settings before sending."))

not_reachable : String → SendError
not_reachable name = refuse "CONTACT_CHANNEL_NOT_REACHABLE" (
    join "This " (
      join name
        " contact channel is not open for outbound replies. Wait for the contact to send a new message."))

-- `validateMessagingWindow`
window_error : ℕ → String → Option ℕ → Bool → Option SendError
unfolding is_open not_reachable
window_error now channel expiry has_template =
    if is_open now expiry
    then none
    else if str_eq channel "whatsapp"
    then (if has_template
        then none
        else some (
            refuse "WA_TEMPLATE_REQUIRED"
              "This WhatsApp contact channel is not open for free-form messaging. Send an approved template to message the contact."))
    else if str_eq channel "instagram"
    then some (not_reachable "Instagram")
    else if str_eq channel "messenger"
    then some (not_reachable "Messenger")
    else none

no_identifier : String → SendError
no_identifier message = refuse "CONTACT_NO_IDENTIFIER" message

whatsapp_error : ℕ → SendOptions → Option SendError
unfolding window_error window_expiry identifier no_identifier
whatsapp_error now o =
    if not (truthy (identifier o.contact_channel)) && not (truthy o.contact_phone)
    then some (
        no_identifier
          "This contact has no WhatsApp phone number. Add a phone number to the contact first.")
    else window_error now "whatsapp" (window_expiry o.contact_channel) o.has_template

meta_error : ℕ → String → String → SendOptions → Option SendError
unfolding window_error window_expiry identifier
meta_error now channel message o =
    if not (truthy (identifier o.contact_channel))
    then some (refuse "CONTACT_NOT_ON_CHANNEL" message)
    else window_error now channel (window_expiry o.contact_channel) o.has_template

email_error : SendOptions → Option SendError
unfolding identifier no_identifier
email_error o =
    if not (truthy (identifier o.contact_channel)) && not (truthy o.contact_email)
    then some (
        no_identifier
          "This contact has no email address. Add an email address to the contact first.")
    else none

-- `!opts.messageText?.trim()`
unfoldable pub has_no_text : Option String → Bool
unfolding trim
has_no_text none = true
has_no_text (some t) = str_eq (trim t) ""

sms_error : SendOptions → Option SendError
unfolding identifier no_identifier has_no_text
sms_error o =
    if not (truthy (identifier o.contact_channel)) && not (truthy o.contact_phone)
    then some
        (no_identifier "This contact has no phone number. Add a phone number to the contact first.")
    else if has_no_text o.message_text
    then some (refuse "EMPTY_MESSAGE" "SMS text is required.")
    else none

-- the `switch` on the channel
contact_error : ℕ → String → SendOptions → Option SendError
unfolding whatsapp_error meta_error email_error sms_error
contact_error now channel o =
    if str_eq channel "whatsapp"
    then whatsapp_error now o
    else if str_eq channel "instagram"
    then meta_error now "instagram"
        "This contact has never messaged via Instagram. You can only reply to contacts who have messaged you first."
        o
    else if str_eq channel "messenger"
    then meta_error now "messenger"
        "This contact has no Messenger ID. You can only reply to contacts who have messaged you first on Messenger."
        o
    else if str_eq channel "email"
    then email_error o
    else if str_eq channel "sms"
    then sms_error o
    else none

-- `validateContact`
unfoldable pub validate_contact : ℕ → SendOptions → Option SendError
unfolding contact_error disconnected
validate_contact now o =
    if str_eq o.channel_status "connected"
    then contact_error now o.channel_type o
    else some (disconnected o.channel_type)
