-- ===== src/Outbound/Validator/Sendable.antt =====
-- Which messages the checks let through.
use mathlib.Core.Path.{subst}
use desk_be.Common.{
  ℕ, String, true, false, Option, none, ◌≡◌, ◌⊎◌, ◌↔◌, inl, inr, sym, truthy, str_eq, eq_iff,
  Bool-cases, arith,
}
use desk_be.Outbound.Validator.{
  SendOptions, identifier, window_expiry, is_open, window_error, has_no_text, whatsapp_error,
  meta_error, email_error, sms_error, contact_error, validate_contact,
}

-- The contact is known by an identifier on the channel, or by another address.
unfoldable pub IsKnown : SendOptions → Option String → Type 0
IsKnown o address = (truthy (identifier o.contact_channel) ≡ true) ⊎ (truthy address ≡ true)

-- The contact has answered not too long ago.
unfoldable pub IsOpen : ℕ → SendOptions → Type 0
unfolding window_expiry
IsOpen now o = is_open now (window_expiry o.contact_channel) ≡ true

-- what a channel asks of a message to a contact; a channel of another name asks nothing
unfoldable pub Asks : String → ℕ → SendOptions → Type 0
unfolding IsKnown IsOpen
Asks channel now o =
    (channel ≡ "whatsapp" → IsKnown o o.contact_phone × (IsOpen now o ⊎ (o.has_template ≡ true)))
    × ((channel ≡ "instagram") ⊎ (channel ≡ "messenger")
        → (truthy (identifier o.contact_channel) ≡ true) × IsOpen now o)
    × (channel ≡ "email" → IsKnown o o.contact_email)
    × (channel ≡ "sms" → IsKnown o o.contact_phone × (has_no_text o.message_text ≡ false))

unfoldable pub IsSendable : ℕ → SendOptions → Type 0
unfolding Asks
IsSendable now o = (o.channel_status ≡ "connected") × Asks o.channel_type now o

module _ (now : ℕ) (o : SendOptions) where
  whatsapp_iff :
      (whatsapp_error now o ≡ none)
      ↔ (IsKnown o o.contact_phone × (IsOpen now o ⊎ (o.has_template ≡ true)))
  unfolding whatsapp_error window_error IsKnown IsOpen
  whatsapp_iff = ground arith

  instagram_iff :
      (message : String)
      → (meta_error now "instagram" message o ≡ none)
        ↔ ((truthy (identifier o.contact_channel) ≡ true) × IsOpen now o)
  unfolding meta_error window_error IsOpen
  instagram_iff message = ground arith

  messenger_iff :
      (message : String)
      → (meta_error now "messenger" message o ≡ none)
        ↔ ((truthy (identifier o.contact_channel) ≡ true) × IsOpen now o)
  unfolding meta_error window_error IsOpen
  messenger_iff message = ground arith

  email_iff : (email_error o ≡ none) ↔ IsKnown o o.contact_email
  unfolding email_error IsKnown
  email_iff = ground arith

  sms_iff :
      (sms_error o ≡ none) ↔ (IsKnown o o.contact_phone × (has_no_text o.message_text ≡ false))
  unfolding sms_error IsKnown
  sms_iff = ground arith

  Agrees : String → Type 0
  unfolding contact_error Asks IsKnown IsOpen
  Agrees channel = (contact_error now channel o ≡ none) ↔ Asks channel now o

  whatsapp-Agrees : Agrees "whatsapp"
  unfolding Agrees
  whatsapp-Agrees = ground (
    arith,
    whatsapp_iff,
    eq_iff "whatsapp" "instagram",
    eq_iff "whatsapp" "messenger",
    eq_iff "whatsapp" "email",
    eq_iff "whatsapp" "sms",
  )

  instagram-Agrees : Agrees "instagram"
  unfolding Agrees
  instagram-Agrees = ground (
    arith,
    instagram_iff
        "This contact has never messaged via Instagram. You can only reply to contacts who have messaged you first.",
    eq_iff "instagram" "whatsapp",
    eq_iff "instagram" "messenger",
    eq_iff "instagram" "email",
    eq_iff "instagram" "sms",
  )

  messenger-Agrees : Agrees "messenger"
  unfolding Agrees
  messenger-Agrees = ground (
    arith,
    messenger_iff
        "This contact has no Messenger ID. You can only reply to contacts who have messaged you first on Messenger.",
    eq_iff "messenger" "whatsapp",
    eq_iff "messenger" "instagram",
    eq_iff "messenger" "email",
    eq_iff "messenger" "sms",
  )

  email-Agrees : Agrees "email"
  unfolding Agrees
  email-Agrees = ground (
    arith,
    email_iff,
    eq_iff "email" "whatsapp",
    eq_iff "email" "instagram",
    eq_iff "email" "messenger",
    eq_iff "email" "sms",
  )

  sms-Agrees : Agrees "sms"
  unfolding Agrees
  sms-Agrees = ground (
    arith,
    sms_iff,
    eq_iff "sms" "whatsapp",
    eq_iff "sms" "instagram",
    eq_iff "sms" "messenger",
    eq_iff "sms" "email",
  )

  channel-Agrees : (channel : String) → Agrees channel
  unfolding Agrees
  channel-Agrees channel = elim (Bool-cases (str_eq channel "whatsapp")) [
    | inl e ↦ at_name "whatsapp" e whatsapp-Agrees
    | inr a ↦ elim (Bool-cases (str_eq channel "instagram")) [
      | inl e ↦ at_name "instagram" e instagram-Agrees
      | inr b ↦ elim (Bool-cases (str_eq channel "messenger")) [
        | inl e ↦ at_name "messenger" e messenger-Agrees
        | inr c ↦ elim (Bool-cases (str_eq channel "email")) [
          | inl e ↦ at_name "email" e email-Agrees
          | inr d ↦ elim (Bool-cases (str_eq channel "sms")) [
            | inl e ↦ at_name "sms" e sms-Agrees
            | inr f ↦
                rw (a, b, c, d, f)
                  (ground (
                    arith,
                    a,
                    b,
                    c,
                    d,
                    f,
                    eq_iff channel "whatsapp",
                    eq_iff channel "instagram",
                    eq_iff channel "messenger",
                    eq_iff channel "email",
                    eq_iff channel "sms",
                  ))
          ]
        ]
      ]
    ]
  ]
    where
      at_name :
          {channel : String} (name : String)
          → str_eq channel name ≡ true
          → Agrees name
          → Agrees channel
      at_name name e h = subst Agrees (sym ((eq_iff _ name).0 e)) h

  -- A message is let through exactly where the channel is connected and the contact can be
  -- reached as the channel asks: known by an identifier or by the channel's kind of address, with
  -- an open window or, on WhatsApp, a template, and by SMS with a text that is not blank.
  pub validate_contact-IsSendable : (validate_contact now o ≡ none) ↔ IsSendable now o
  unfolding validate_contact IsSendable Agrees
  validate_contact-IsSendable = elim (Bool-cases (str_eq o.channel_status "connected")) [
    | inl e ↦
        rw (e)
          (ground (arith, e, channel-Agrees o.channel_type, eq_iff o.channel_status "connected"))
    | inr e ↦ rw (e) (ground (arith, e, eq_iff o.channel_status "connected"))
  ]
