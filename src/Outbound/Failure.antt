-- ===== src/Outbound/Failure.antt =====
-- What `ProviderErrorNormaliser` of src/modules/outbound/send-validator.ts reads of an error, and its
-- `providerDetail`. `none` stands for a field that is missing or of another type.
use desk_be.Common.{
  ℕ, String, List, [], ◌∷◌, Bool, Option, none, some, contains, str_eq, join, trim, if◌then◌else◌,
}

pub data MessageField : Type 0 where
  one : String → MessageField
  many : List String → MessageField
  nothing : MessageField

pub record ErrorBody : Type 0 where
  pub code : Option String
  pub message : MessageField
  pub detail : Option String
  pub retryable : Option Bool

-- what `getResponse` of a BadRequestException gives
pub data Response : Type 0 where
  text : String → Response
  body : ErrorBody → Response

-- `err.response.data.error` of WhatsApp and Meta
pub record ApiError : Type 0 where
  pub code : Option ℕ
  pub error_code : Option ℕ
  pub details : Option String
  pub error_user_msg : Option String
  pub message : Option String

-- `bad_request` is there for a BadRequestException; `shown` is `String(err)`.
pub record Failure : Type 0 where
  pub bad_request : Option Response
  pub status : Option ℕ
  pub error : Option ApiError
  pub message : Option String
  pub response_code : Option ℕ
  pub shown : String

-- `ss.join(separator)`
unfoldable pub join_all : String → List String → String
join_all separator [] = ""
join_all separator (s ∷ []) = s
join_all separator (s ∷ t ∷ ts) = join s (join separator (join_all separator (t ∷ ts)))

-- the strings among the values, trimmed, without the empty ones
parts : List (Option String) → List String
unfolding trim
parts [] = []
parts (none ∷ vs) = parts vs
parts (some s ∷ vs) = if str_eq (trim s) "" then parts vs else trim s ∷ parts vs

-- `Array.from(new Set(…))`
unique : List String → List String → List String
unique seen [] = []
unique seen (s ∷ ss) = if contains seen s then unique seen ss else s ∷ unique (s ∷ seen) ss

-- `providerDetail`
unfoldable pub provider_detail : List (Option String) → String
unfolding parts unique join_all
provider_detail values = join_all " | " (unique [] (parts values))

-- `a || b` on strings
unfoldable pub or_else : String → String → String
or_else a b = if str_eq a "" then b else a

unfoldable pub message_text : MessageField → Option String
unfolding join_all
message_text (one s) = some s
message_text (many ss) = some (join_all ", " ss)
message_text nothing = none

unfoldable pub not_blank : Option String → Option String
unfolding trim
not_blank none = none
not_blank (some s) = if str_eq (trim s) "" then none else some s
