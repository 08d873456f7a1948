-- ===== src/Workflows/Values.antt =====
-- What the records of a workflow run hold (`Record<string, any>`): scalars and arrays of scalars.
-- Numbers are the naturals. `undefined` is a field that is missing. Of an object, which is
-- `keyed`, the engine reads the keys only.
use desk_be.Common.{
  ℕ, String, List, [], ◌∷◌, Bool, true, false, Option, none, some, str_eq, ◌==◌, get_or, lookup,
  not, trim, if◌then◌else◌,
}

pub data Scalar : Type 0 where
  undefined null : Scalar
  text : String → Scalar
  number : ℕ → Scalar
  flag : Bool → Scalar
  keyed : List String → Scalar

pub data Value : Type 0 where
  one : Scalar → Value
  array : List Scalar → Value

abbrev pub Fields : Type 0
Fields = List (String × Value)

abbrev pub bool_eq : Bool → Bool → Bool
bool_eq true b = b
bool_eq false b = not b

-- `===` on scalars
unfoldable pub scalar_eq : Scalar → Scalar → Bool
scalar_eq undefined undefined = true
scalar_eq null null = true
scalar_eq (text s) (text t) = str_eq s t
scalar_eq (number m) (number n) = m == n
scalar_eq (flag a) (flag b) = bool_eq a b
scalar_eq a b = false

-- `fields[key]`
unfoldable pub value_of : String → Fields → Value
value_of key fields = get_or (lookup key fields) (one undefined)

-- `a ?? b`
unfoldable pub or_else : Value → Value → Value
or_else (one undefined) b = b
or_else (one null) b = b
or_else a b = a

-- `fields[key] = value`
unfoldable pub put {ℓ} : {A : Type ℓ} → String → A → List (String × A) → List (String × A)
put key value [] = (key, value) ∷ []
put key value ((k, v) ∷ m) =
    let rest = put key value m in if str_eq k key then (key, value) ∷ m else (k, v) ∷ rest

-- `delete fields[key]`
unfoldable pub remove {ℓ} : {A : Type ℓ} → String → List (String × A) → List (String × A)
remove key [] = []
remove key ((k, v) ∷ m) = let rest = remove key m in if str_eq k key then rest else (k, v) ∷ rest

-- `{ ...fields, ...added }`
unfoldable pub merge : Fields → Fields → Fields
unfolding put
merge fields [] = fields
merge fields ((k, v) ∷ added) = merge (put k v fields) added

-- `typeof value === 'string' && value.trim()`: the text of a value that is a string and not blank
unfoldable pub filled : Value → Option String
filled (one (text s)) = if str_eq (trim s) "" then none else some s
filled v = none

-- the string that a value is, where it is one
unfoldable pub string_of : Value → Option String
string_of (one (text s)) = some s
string_of v = none

-- `Boolean(value)`
unfoldable pub is_true : Value → Bool
is_true (one undefined) = false
is_true (one null) = false
is_true (one (text s)) = not (str_eq s "")
is_true (one (number n)) = not (n == 0)
is_true (one (flag b)) = b
is_true (one (keyed ks)) = true
is_true (array vs) = true

-- `o` as a field: `undefined` where it is missing
unfoldable pub optional : Option String → Value
optional none = one undefined
optional (some s) = one (text s)
