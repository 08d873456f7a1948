-- ===== src/Access/Found.antt =====
-- What `RouteGuard.enforce` takes for the role of a user.
use desk_be.Common.{
  String, List, Option, none, some, ◌≡◌, ◌≢◌, refl, ◌∙◌, ◌↔◌, lookup, present, arith, eq_iff,
}
use mathlib.Core.Option.{some_inj}
use desk_be.Access.{object_prototype, read_entry, role_of}

-- What the user has at an identifier: an own role, or without one what every object inherits.
pub data Has (roles : List (String × String)) (id value : String) : Type 0 where
  held : lookup id roles ≡ some value → Has roles id value
  inherited : lookup id roles ≡ none → lookup id object_prototype ≡ some value → Has roles id value

-- What counts as a role at an identifier that the request may name.
abbrev pub Finds : List (String × String) → Option String → String → Type 0
Finds roles id role = (i : String) × (id ≡ some i) × (role ≢ "") × Has roles i role

pub present-eq-some : (o : Option String) {s : String} → present o ≡ some s → o ≡ some s
present-eq-some none h = cc
present-eq-some (some t) h = ground arith

eq-present : (o : Option String) {s : String} → o ≡ some s → s ≢ "" → present o ≡ some s
eq-present none h k = cc
eq-present (some t) {s} h k = ground (arith, eq_iff t "")

present-ne : (o : Option String) {s : String} → present o ≡ some s → s ≢ ""
present-ne none h = cc
present-ne (some t) {s} h = ground (arith, eq_iff t "")

pub read_entry-Has :
    (own : Option String) (roles : List (String × String)) (i : String) {value : String}
    → lookup i roles ≡ own
    → read_entry own i ≡ some value
    → Has roles i value
unfolding read_entry
read_entry-Has none roles i e h = inherited e h
read_entry-Has (some role) roles i e h = held (e ∙ h)

Has-read_entry :
    (roles : List (String × String)) (i : String) {value : String}
    → Has roles i value
    → read_entry (lookup i roles) i ≡ some value
unfolding read_entry
Has-read_entry roles i (held h) = rw h refl
Has-read_entry roles i (inherited e h) = rw e h

pub role_of-Finds :
    (id : Option String) (roles : List (String × String)) (role : String)
    → (role_of id roles ≡ some role) ↔ Finds roles id role
unfolding role_of
role_of-Finds none roles role = (λ h. cc, λ f. cc (f.1))
role_of-Finds (some i) roles role = (
  λ h. (
    i,
    refl,
    present-ne (read_entry (lookup i roles) i) h,
    read_entry-Has (lookup i roles) roles i refl
        (present-eq-some (read_entry (lookup i roles) i) h),
  ),
  λ (j, e, k, f).
      eq-present (read_entry (lookup i roles) i) (rw (some_inj.0 e) (Has-read_entry roles j f)) k,
)
