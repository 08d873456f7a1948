-- ===== src/Outbound/Normaliser/Roundtrip.antt =====
-- An error that was brought into the form of the interface keeps it.
use desk_be.Common.{
  ℕ, String, List, [], ◌∷◌, Bool, true, false, ◌||◌, Option, none, some, ◌≡◌, refl, get_or, All,
  str_eq, trim, Bool-cases, inl, inr, if◌then◌else◌,
}
use desk_be.Outbound.Errors.{SendError}
use desk_be.Outbound.Failure.{
  Failure, Response, body, text, one, ErrorBody, message_text, not_blank,
}
use desk_be.Outbound.Normaliser.{
  to_send_error, passed_on, passed_body, passed_text, parse, first_of, generic, known,
  whatsapp_rules, meta_rules, email_rules, meta_label, parse_whatsapp, parse_meta, parse_email,
  whatsapp_code, meta_code, failure_detail,
}

-- the body of `new BadRequestException(e)`
unfoldable pub thrown_body : SendError → ErrorBody
thrown_body e = record {
  code = some e.code;
  message = one e.message;
  detail = e.detail;
  retryable = some e.retryable;
}

-- the exception that carries the error; what else it says is `f`
unfoldable pub thrown : SendError → Failure → Failure
unfolding thrown_body
thrown e f = record f { bad_request = some (body (thrown_body e)) }

unfoldable pub HasMessage : SendError → Type 0
HasMessage e = str_eq (trim e.message) "" ≡ false

thrown-HasMessage :
    (e : SendError) (f : Failure) (channel : String)
    → HasMessage e
    → to_send_error (thrown e f) channel ≡ e
unfolding to_send_error passed_on passed_body thrown not_blank message_text HasMessage
thrown-HasMessage e f channel h = rw (h) refl

first_of-HasMessage :
    (rules : List (Bool × SendError)) (otherwise : SendError)
    → All (λ r. HasMessage r.1) rules
    → HasMessage otherwise
    → HasMessage (first_of rules otherwise)
unfolding first_of
first_of-HasMessage [] otherwise h k = k
first_of-HasMessage ((true, e) ∷ rules) otherwise h k = h.0
first_of-HasMessage ((false, e) ∷ rules) otherwise h k = first_of-HasMessage rules otherwise h.1 k

generic-HasMessage : (f : Failure) (detail : Option String) → HasMessage (generic f detail)
unfolding generic HasMessage trim
generic-HasMessage f detail = refl

whatsapp-HasMessage :
    (code : ℕ) (status : Option ℕ) (detail : String)
    → All (λ r. HasMessage r.1) (whatsapp_rules code status detail)
unfolding whatsapp_rules known HasMessage trim
whatsapp-HasMessage code status detail =
    (refl, (refl, (refl, (refl, (refl, (refl, (refl, (refl, (refl, tt)))))))))

meta-HasMessage :
    (channel : String) (code : ℕ) (status : Option ℕ) (detail : String)
    → All (λ r. HasMessage r.1) (meta_rules channel code status detail)
unfolding meta_rules known HasMessage trim meta_label
meta-HasMessage channel code status detail = elim (Bool-cases (str_eq channel "instagram")) [
  | inl e ↦ rw (e) (refl, (refl, (refl, (refl, tt))))
  | inr e ↦ rw (e) (refl, (refl, (refl, (refl, tt))))
]

email-HasMessage :
    (message : String) (code : ℕ) → All (λ r. HasMessage r.1) (email_rules message code)
unfolding email_rules known HasMessage trim
email-HasMessage message code = (refl, (refl, (refl, tt)))

parse-HasMessage : (f : Failure) (channel : String) → HasMessage (parse f channel)
unfolding parse parse_whatsapp parse_meta parse_email
parse-HasMessage f channel =
    pick (str_eq channel "whatsapp") (str_eq channel "instagram" || str_eq channel "messenger")
      (str_eq channel "email")
  where
    pick :
        (a b c : Bool)
        → HasMessage (
            if a
            then parse_whatsapp f
            else if b
            then parse_meta f channel
            else if c
            then parse_email f
            else generic f none)
    pick true b c =
        first_of-HasMessage (whatsapp_rules (whatsapp_code f.error) f.status (failure_detail f))
          (generic f (some (failure_detail f)))
          (whatsapp-HasMessage (whatsapp_code f.error) f.status (failure_detail f))
          (generic-HasMessage f (some (failure_detail f)))
    pick false true c =
        first_of-HasMessage (meta_rules channel (meta_code f.error) f.status (failure_detail f))
          (generic f (some (failure_detail f)))
          (meta-HasMessage channel (meta_code f.error) f.status (failure_detail f))
          (generic-HasMessage f (some (failure_detail f)))
    pick false false true =
        first_of-HasMessage (email_rules (get_or f.message "") (get_or f.response_code 0))
          (generic f (some (get_or f.message "")))
          (email-HasMessage (get_or f.message "") (get_or f.response_code 0))
          (generic-HasMessage f (some (get_or f.message "")))
    pick false false false = generic-HasMessage f none

-- what is passed on has a message
Kept : Option SendError → Type 0
Kept none = Unit
Kept (some e) = HasMessage e

text-Kept : (o : Option String) → Kept (passed_text (not_blank o))
unfolding Kept passed_text not_blank HasMessage
text-Kept none = tt
text-Kept (some s) = elim (Bool-cases (str_eq (trim s) "")) [ inl e ↦ rw (e) tt | inr e ↦ rw (e) e ]

body-Kept : (b : ErrorBody) (o : Option String) → Kept (passed_body b (not_blank o))
unfolding Kept passed_body not_blank HasMessage
body-Kept b none = tt
body-Kept b (some s) = elim (Bool-cases (str_eq (trim s) "")) [
  | inl e ↦ rw (e) tt
  | inr e ↦ rw (e) e
]

passed_on-HasMessage : (r : Option Response) → Kept (passed_on r)
unfolding Kept passed_on
passed_on-HasMessage none = tt
passed_on-HasMessage (some (text s)) = text-Kept (some s)
passed_on-HasMessage (some (body b)) = body-Kept b (message_text b.message)

chosen-HasMessage :
    (o : Option SendError) (d : SendError) → Kept o → HasMessage d → HasMessage (get_or o d)
unfolding Kept
chosen-HasMessage none d h k = k
chosen-HasMessage (some e) d h k = h

to_send_error-HasMessage : (f : Failure) (channel : String) → HasMessage (to_send_error f channel)
unfolding to_send_error
to_send_error-HasMessage f channel =
    chosen-HasMessage (passed_on f.bad_request) (parse f channel)
      (passed_on-HasMessage f.bad_request) (parse-HasMessage f channel)

-- Throwing what the normaliser returns, and normalising what is caught, on whatever channel, gives
-- the same error.
pub to_send_error-thrown :
    (f g : Failure) (channel other : String)
    → to_send_error (thrown (to_send_error f channel) g) other ≡ to_send_error f channel
to_send_error-thrown f g channel other =
    thrown-HasMessage (to_send_error f channel) g other (to_send_error-HasMessage f channel)
