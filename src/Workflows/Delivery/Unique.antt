-- ===== src/Workflows/Delivery/Unique.antt =====
-- A channel has one open window at most (`replaceWindow`, `ageWindows` of
-- src/modules/workflows/workflow-delivery-rulebook.ts).
use mathlib.Core.Path.{subst}
use desk_be.Common.{
  ℕ, ◌+◌, String, List, [], ◌∷◌, ◌++◌, map, false, Option, none, some, find, keep, str_eq, ◌≡◌,
  refl, sym, ◌∙◌, ap, not, ltb, ◌==◌, eq_iff, Option-cases, Bool-cases, inl, inr, if◌then◌else◌,
  arith,
}
use desk_be.Workflows.Delivery.Windows.{Window, replace_window, aged, age_windows}

-- the window of a channel
abbrev pub window_of : String → List Window → Option Window
window_of channel windows = find (λ w. str_eq w.channel_id channel) windows

abbrev pub Unique : List Window → Type 0
Unique [] = Unit
Unique (w ∷ windows) = (window_of w.channel_id windows ≡ none) × Unique windows

-- a window that has grown older, where it is still open
abbrev pub later : ℕ → Option Window → Option Window
later seconds none = none
later seconds (some w) =
    if ltb (w.elapsed + seconds) w.expires_after then some (aged seconds w) else none

abbrev pub still_open : ℕ → List Window → List Window
still_open seconds windows = keep (λ w. ltb w.elapsed w.expires_after) (map (aged seconds) windows)

absent-open :
    (channel : String) (seconds : ℕ) (windows : List Window)
    → window_of channel windows ≡ none
    → window_of channel (still_open seconds windows) ≡ none
unfolding aged
absent-open channel seconds [] h = refl
absent-open channel seconds (w ∷ windows) h = ground (arith, h, absent-open channel seconds windows)

pub Unique-open :
    (seconds : ℕ) (windows : List Window) → Unique windows → Unique (still_open seconds windows)
unfolding aged
Unique-open seconds [] h = tt
Unique-open seconds (w ∷ windows) h =
    elim (Bool-cases (ltb (w.elapsed + seconds) w.expires_after)) [
      | inl e ↦
          rw (e) (absent-open w.channel_id seconds windows h.0, Unique-open seconds windows h.1)
      | inr e ↦ rw (e) (Unique-open seconds windows h.1)
    ]

-- The window of a channel after a wait.
pub window_of-open :
    (channel : String) (seconds : ℕ) (windows : List Window)
    → Unique windows
    → window_of channel (still_open seconds windows) ≡ later seconds (window_of channel windows)
unfolding aged
window_of-open channel seconds [] h = refl
window_of-open channel seconds (w ∷ windows) h = ground (
  arith,
  h.0,
  window_of-open channel seconds windows h.1,
  absent-open channel seconds windows,
  eq_iff w.channel_id channel,
)

pub window_of-keep :
    (channel other : String) (windows : List Window)
    → str_eq other channel ≡ false
    → window_of channel (keep (λ v. not (str_eq v.channel_id other)) windows)
      ≡ window_of channel windows
window_of-keep channel other [] h = refl
window_of-keep channel other (w ∷ windows) h = ground (
  arith,
  h,
  window_of-keep channel other windows h,
  eq_iff w.channel_id channel,
  eq_iff w.channel_id other,
)

pub absent-keep :
    (channel : String) (windows : List Window)
    → window_of channel (keep (λ v. not (str_eq v.channel_id channel)) windows) ≡ none
absent-keep channel [] = refl
absent-keep channel (w ∷ windows) = ground (arith, absent-keep channel windows)

pub window_of-snoc :
    (channel : String) (windows : List Window) (w : Window)
    → window_of channel windows ≡ none
    → window_of channel (windows ++ w ∷ []) ≡ (if str_eq w.channel_id channel then some w else none)
window_of-snoc channel [] w h = ground arith
window_of-snoc channel (v ∷ windows) w h = ground (arith, h, window_of-snoc channel windows w)

pub window_of-snoc_found :
    (channel : String) (windows : List Window) (v w : Window)
    → window_of channel windows ≡ some v
    → window_of channel (windows ++ w ∷ []) ≡ some v
window_of-snoc_found channel [] v w h = ground (arith, h)
window_of-snoc_found channel (u ∷ windows) v w h =
    ground (arith, h, window_of-snoc_found channel windows v w)

-- the channels that are left are those of the windows
pub absent-kept :
    (channel other : String) (windows : List Window)
    → window_of channel windows ≡ none
    → window_of channel (keep (λ v. not (str_eq v.channel_id other)) windows) ≡ none
absent-kept channel other [] h = refl
absent-kept channel other (w ∷ windows) h = ground (arith, h, absent-kept channel other windows)

later-later : (a m : ℕ) (o : Option Window) → later a (later m o) ≡ later (m + a) o
unfolding aged
later-later a m none = refl
later-later a m (some w) = ground arith

-- The window of a channel where another window is opened.
pub window_of-replace :
    (channel : String) (windows : List Window) (w : Window)
    → window_of channel (replace_window windows w)
      ≡ (if str_eq w.channel_id channel then some w else window_of channel windows)
unfolding replace_window
window_of-replace channel windows w = elim (Bool-cases (str_eq w.channel_id channel)) [
  | inl e ↦
      let kept = keep (λ v. not (str_eq v.channel_id w.channel_id)) windows in
      let absent : window_of channel kept ≡ none =
        subst (λ c. window_of c kept ≡ none) ((eq_iff w.channel_id channel).0 e)
          (absent-keep w.channel_id windows) in
      let found = window_of-snoc channel kept w absent in ground (arith, e, found)
  | inr e ↦
      let kept = keep (λ v. not (str_eq v.channel_id w.channel_id)) windows in
      let same = window_of-keep channel w.channel_id windows e in
      elim (Option-cases (window_of channel windows)) [
        | inl n ↦
            let found = window_of-snoc channel kept w (same ∙ n) in ground (arith, e, n, found)
        | inr (v, n) ↦
            let found = window_of-snoc_found channel kept v w (same ∙ n) in
            ground (arith, e, n, found)
      ]
]

Unique-snoc :
    (windows : List Window) (w : Window)
    → Unique windows
    → window_of w.channel_id windows ≡ none
    → Unique (windows ++ w ∷ [])
Unique-snoc [] w u h = (refl, tt)
Unique-snoc (v ∷ windows) w u h = (
  window_of-snoc v.channel_id windows w u.0
      ∙ ground (arith, h, eq_iff v.channel_id w.channel_id, eq_iff w.channel_id v.channel_id),
  Unique-snoc windows w u.1 (ground (arith, h)),
)

Unique-keep :
    (other : String) (windows : List Window)
    → Unique windows
    → Unique (keep (λ v. not (str_eq v.channel_id other)) windows)
Unique-keep other [] u = tt
Unique-keep other (v ∷ windows) u = elim (Bool-cases (str_eq v.channel_id other)) [
  | inl e ↦ rw (e) (Unique-keep other windows u.1)
  | inr e ↦ rw (e) (absent-kept v.channel_id other windows u.0, Unique-keep other windows u.1)
]

-- A new window and a wait leave one window for each channel.
pub Unique-replace :
    (windows : List Window) (w : Window) → Unique windows → Unique (replace_window windows w)
unfolding replace_window
Unique-replace windows w u =
    Unique-snoc (keep (λ v. not (str_eq v.channel_id w.channel_id)) windows) w
      (Unique-keep w.channel_id windows u) (absent-keep w.channel_id windows)

pub Unique-age :
    (seconds : ℕ) (windows : List Window) → Unique windows → Unique (age_windows seconds windows)
unfolding age_windows
Unique-age seconds windows u = elim (Bool-cases (seconds == 0)) [
  | inl e ↦ rw (e) u
  | inr e ↦ rw (e) (Unique-open seconds windows u)
]

-- The window of a channel after a wait, `a` seconds later.
pub window_of-age :
    (channel : String) (a seconds : ℕ) (windows : List Window)
    → Unique windows
    → later a (window_of channel (age_windows seconds windows))
      ≡ later (seconds + a) (window_of channel windows)
unfolding age_windows
window_of-age channel a seconds windows u = elim (Bool-cases (seconds == 0)) [
  | inl e ↦ rw (e) (ap (λ k. later k (window_of channel windows)) (ground (arith, e)))
  | inr e ↦ rw (e) (
      ap (later a) (window_of-open channel seconds windows u)
      ∙ later-later a seconds (window_of channel windows))
]

-- A window that is open stays so or is gone after a wait.
pub IsOpen-age :
    (channel : String) (seconds : ℕ) (windows : List Window)
    → Unique windows
    → later 0 (window_of channel windows) ≡ window_of channel windows
    → later 0 (window_of channel (age_windows seconds windows))
      ≡ window_of channel (age_windows seconds windows)
unfolding age_windows
IsOpen-age channel seconds windows u k = elim (Bool-cases (seconds == 0)) [
  | inl e ↦ rw (e) k
  | inr e ↦ rw (e) (
      ap (later 0) (window_of-open channel seconds windows u)
      ∙ later-later 0 seconds (window_of channel windows)
      ∙ ap (λ k. later k (window_of channel windows)) (omega arith)
      ∙ sym (window_of-open channel seconds windows u))
]
