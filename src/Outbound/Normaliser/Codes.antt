-- ===== src/Outbound/Normaliser/Codes.antt =====
-- The codes of the errors that a channel's provider can cause, and which of them allow a retry.
use desk_be.Common.{
  ℕ, String, List, [], ◌∷◌, Bool, true, false, ◌||◌, Option, none, some, ◌≡◌, refl, contains, All,
  str_eq, get_or, arith, if◌then◌else◌,
}
use desk_be.Outbound.Errors.{SendError}
use desk_be.Outbound.Failure.{Failure}
use desk_be.Outbound.Normaliser.{
  first_of, whatsapp_rules, meta_rules, email_rules, generic, parse_whatsapp, parse_meta,
  parse_email, parse, known, whatsapp_code, meta_code, failure_detail,
}

-- The codes that a channel's errors have: those that are final, and those that a retry may mend.
unfoldable pub final_codes : String → List String
final_codes channel =
    if str_eq channel "whatsapp"
    then "WA_INVALID_TOKEN" ∷ "WA_PERMISSION_DENIED" ∷ "WA_PHONE_NOT_FOUND" ∷ "WA_OUTSIDE_WINDOW"
      ∷ "WA_TEMPLATE_REJECTED" ∷ "WA_RECIPIENT_BLOCKED" ∷ "WA_RECIPIENT_NOT_ALLOWED" ∷ []
    else if str_eq channel "instagram" || str_eq channel "messenger"
    then "META_INVALID_TOKEN" ∷ "META_NO_PAGE_ACCESS" ∷ "META_USER_NOT_REACHABLE" ∷ []
    else if str_eq channel "email"
    then "EMAIL_AUTH_FAILED" ∷ "EMAIL_RECIPIENT_REJECTED" ∷ []
    else []

unfoldable pub passing_codes : String → List String
passing_codes channel =
    if str_eq channel "whatsapp"
    then "WA_RATE_LIMITED" ∷ "WA_MEDIA_UPLOAD_FAILED" ∷ "PROVIDER_ERROR" ∷ []
    else if str_eq channel "instagram" || str_eq channel "messenger"
    then "META_RATE_LIMITED" ∷ "PROVIDER_ERROR" ∷ []
    else if str_eq channel "email"
    then "EMAIL_CONNECTION_FAILED" ∷ "PROVIDER_ERROR" ∷ []
    else "PROVIDER_ERROR" ∷ []

-- The code is one of the channel's, and a retry is offered just when the code is of the second kind.
pub record Fits (final passing : List String) (e : SendError) : Type 0 where
  pub fits : contains (if e.retryable then passing else final) e.code ≡ true

module _ (final passing : List String) where
  first_of-Fits :
      (rules : List (Bool × SendError)) (otherwise : SendError)
      → All (λ r. Fits final passing r.1) rules
      → Fits final passing otherwise
      → Fits final passing (first_of rules otherwise)
  unfolding first_of
  first_of-Fits [] otherwise h k = k
  first_of-Fits ((true, e) ∷ rules) otherwise h k = h.0
  first_of-Fits ((false, e) ∷ rules) otherwise h k = first_of-Fits rules otherwise h.1 k

abbrev fitting :
    {final passing : List String} {e : SendError}
    → contains (if e.retryable then passing else final) e.code ≡ true
    → Fits final passing e
fitting h = record { fits = h }

whatsapp_fits :
    (code : ℕ) (status : Option ℕ) (detail : String)
    → All
        (λ r. Fits (final_codes "whatsapp") (passing_codes "whatsapp") r.1)
        (whatsapp_rules code status detail)
unfolding whatsapp_rules known final_codes passing_codes
whatsapp_fits code status detail = (
  record { fits = refl },
  (
    record { fits = refl },
    (
      record { fits = refl },
      (
        record { fits = refl },
        (
          record { fits = refl },
          (
            record { fits = refl },
            (record { fits = refl }, (record { fits = refl }, (record { fits = refl }, tt))),
          ),
        ),
      ),
    ),
  ),
)

meta_fits :
    (channel : String) (code : ℕ) (status : Option ℕ) (detail : String)
    → All
        (λ r. Fits (final_codes "messenger") (passing_codes "messenger") r.1)
        (meta_rules channel code status detail)
unfolding meta_rules known final_codes passing_codes
meta_fits channel code status detail = (
  record { fits = refl },
  (record { fits = refl }, (record { fits = refl }, (record { fits = refl }, tt))),
)

email_fits :
    (message : String) (code : ℕ)
    → All (λ r. Fits (final_codes "email") (passing_codes "email") r.1) (email_rules message code)
unfolding email_rules known final_codes passing_codes
email_fits message code =
    (record { fits = refl }, (record { fits = refl }, (record { fits = refl }, tt)))

generic-Fits :
    (channel : String) (f : Failure) (detail : Option String)
    → contains (passing_codes channel) "PROVIDER_ERROR" ≡ true
    → Fits (final_codes channel) (passing_codes channel) (generic f detail)
unfolding generic
generic-Fits channel f detail h = record { fits = h }

provider_error_passes :
    (channel : String) → contains (passing_codes channel) "PROVIDER_ERROR" ≡ true
unfolding passing_codes
provider_error_passes channel = ground arith

parse_whatsapp-Fits :
    (f : Failure) → Fits (final_codes "whatsapp") (passing_codes "whatsapp") (parse_whatsapp f)
unfolding parse_whatsapp
parse_whatsapp-Fits f =
    first_of-Fits _ _ (whatsapp_rules (whatsapp_code f.error) f.status (failure_detail f)) _
      (whatsapp_fits (whatsapp_code f.error) f.status (failure_detail f))
      (generic-Fits "whatsapp" f (some (failure_detail f)) (provider_error_passes "whatsapp"))

parse_meta-Fits :
    (f : Failure) (channel : String)
    → Fits (final_codes "messenger") (passing_codes "messenger") (parse_meta f channel)
unfolding parse_meta
parse_meta-Fits f channel =
    first_of-Fits _ _ (meta_rules channel (meta_code f.error) f.status (failure_detail f)) _
      (meta_fits channel (meta_code f.error) f.status (failure_detail f))
      (generic-Fits "messenger" f (some (failure_detail f)) (provider_error_passes "messenger"))

parse_email-Fits :
    (f : Failure) → Fits (final_codes "email") (passing_codes "email") (parse_email f)
unfolding parse_email
parse_email-Fits f =
    first_of-Fits _ _ (email_rules (get_or f.message "") (get_or f.response_code 0)) _
      (email_fits (get_or f.message "") (get_or f.response_code 0))
      (generic-Fits "email" f (some (get_or f.message "")) (provider_error_passes "email"))

-- the two tables, looked up as `parse` looks for the channel
choose : {A : Type 0} → String → A → A → A → A → A
choose channel w m e d =
    if str_eq channel "whatsapp"
    then w
    else if str_eq channel "instagram" || str_eq channel "messenger"
    then m
    else if str_eq channel "email"
    then e
    else d

choose-Fits :
    (channel : String) (fw fm fe fd pw pm pe pd : List String) (w m e d : SendError)
    → Fits fw pw w
    → Fits fm pm m
    → Fits fe pe e
    → Fits fd pd d
    → Fits (choose channel fw fm fe fd) (choose channel pw pm pe pd) (choose channel w m e d)
unfolding choose
choose-Fits channel fw fm fe fd pw pm pe pd w m e d hw hm he hd =
    pick (str_eq channel "whatsapp") (str_eq channel "instagram" || str_eq channel "messenger")
      (str_eq channel "email")
  where
    pick :
        (a b c : Bool)
        → Fits
            (if a then fw else if b then fm else if c then fe else fd)
            (if a then pw else if b then pm else if c then pe else pd)
            (if a then w else if b then m else if c then e else d)
    pick true b c = hw
    pick false true c = hm
    pick false false true = he
    pick false false false = hd

-- Every error of a provider gets a code of its channel, and the interface offers a retry exactly
-- for the codes that a retry may mend.
pub parse-Fits :
    (f : Failure) (channel : String)
    → Fits (final_codes channel) (passing_codes channel) (parse f channel)
unfolding parse choose final_codes passing_codes
parse-Fits f channel =
    choose-Fits channel (final_codes "whatsapp") (final_codes "messenger") (final_codes "email") []
      (passing_codes "whatsapp") (passing_codes "messenger") (passing_codes "email")
      ("PROVIDER_ERROR" ∷ []) (parse_whatsapp f) (parse_meta f channel) (parse_email f)
      (generic f none) (parse_whatsapp-Fits f) (parse_meta-Fits f channel) (parse_email-Fits f)
      (record { fits = refl })
