-- ===== src/Workflows/Delivery/Above.antt =====
-- Which windows are open at a step, told by the way up from it (`getPathContext` of
-- src/modules/workflows/workflow-delivery-rulebook.ts).
use desk_be.Common.{
  ℕ, ◌+◌, ◌*◌, String, List, [], ◌∷◌, Bool, true, false, Option, none, some, str_eq, ltb, ◌==◌, ◌≡◌,
  refl, sym, ◌∙◌, ap, Bool-cases, inl, inr, if◌then◌else◌, arith,
}
use desk_be.Workflows.Config.{Step, is_connector}
use desk_be.Workflows.Delivery.{ChannelFacts, capability_of, specific_channel_id}
use desk_be.Workflows.Delivery.Windows.{
  with_window, is_wait, Window, channel_by_id, open_window, window_from_parent, tells_reply,
  window_from_connector, aged, wait_seconds, pass, reversed, pass_all, lineage, open_windows,
  step_by_id,
}
use desk_be.Workflows.Delivery.Unique.{
  window_of, Unique, later, Unique-replace, Unique-age, window_of-replace, window_of-age,
  IsOpen-age,
}

-- the window of a channel, by the window that a connector opens and the one from further up
abbrev unless_opened : String → Option Window → ℕ → Option Window → Option Window
unless_opened channel none seconds further = further
unless_opened channel (some w) seconds further =
    if str_eq w.channel_id channel then later seconds (some w) else further

positive_minutes : (minutes : ℕ) → (minutes == 0) ≡ false → ltb 0 (minutes * 60) ≡ true
positive_minutes minutes e = ground (arith, e)

module _ (channels : List ChannelFacts) (steps : List Step) where
  -- The window on a channel that the nearest connector above opened, where it is still open
  -- `seconds` and the waits between later.
  unfoldable pub nearest : String → ℕ → List Step → Option Window
  unfolding is_connector is_wait window_from_connector wait_seconds
  nearest channel seconds [] = none
  nearest channel seconds (s ∷ up) =
      let further = nearest channel seconds up in
      let waited = nearest channel (wait_seconds s.step_data + seconds) up in
      if is_connector s.kind
      then unless_opened channel (window_from_connector channels steps s) seconds further
      else if is_wait s.kind
      then waited
      else further

  -- the windows at the end of a path, its steps from the last to the first
  above : List Step → List Window
  unfolding pass
  above [] = []
  above (s ∷ up) = pass channels steps (above up) s

  Unique-with :
      (o : Option Window) (windows : List Window) → Unique windows → Unique (with_window o windows)
  unfolding with_window
  Unique-with none windows u = u
  Unique-with (some w) windows u = Unique-replace windows w u

  Unique-if : (b : Bool) (v w : List Window) → Unique v → Unique w → Unique (if b then v else w)
  Unique-if true v w h k = h
  Unique-if false v w h k = k

  Unique-above : (up : List Step) → Unique (above up)
  unfolding above pass
  Unique-above [] = tt
  Unique-above (s ∷ up) =
      let u = Unique-above up in
      Unique-if (is_connector s.kind) _ _
        (Unique-with (window_from_connector channels steps s) (above up) u)
        (Unique-if (is_wait s.kind) _ _ (Unique-age (wait_seconds s.step_data) (above up) u) u)

  window_of-with :
      (channel : String) (a : ℕ) (o : Option Window) (windows : List Window)
      → later a (window_of channel (with_window o windows))
        ≡ unless_opened channel o a (later a (window_of channel windows))
  unfolding with_window
  window_of-with channel a none windows = refl
  window_of-with channel a (some w) windows =
      ap (later a) (window_of-replace channel windows w) ∙ ground arith

  later_if :
      (channel : String) (a : ℕ) (b : Bool) (v w : List Window) (x y : Option Window)
      → later a (window_of channel v) ≡ x
      → later a (window_of channel w) ≡ y
      → later a (window_of channel (if b then v else w)) ≡ (if b then x else y)
  later_if channel a true v w x y h k = h
  later_if channel a false v w x y h k = k

  -- The windows that the loop gathers on the way down are those that the way up tells.
  window_of-above :
      (channel : String) (a : ℕ) (up : List Step)
      → later a (window_of channel (above up)) ≡ nearest channel a up
  unfolding above pass nearest
  window_of-above channel a [] = refl
  window_of-above channel a (s ∷ up) =
      let same = window_of-above channel a up in
      later_if channel a (is_connector s.kind) _ _ _ _
        (window_of-with channel a (window_from_connector channels steps s) (above up)
          ∙ ap (unless_opened channel (window_from_connector channels steps s) a) same)
        (later_if channel a (is_wait s.kind) _ _ _ _
          (window_of-age channel a (wait_seconds s.step_data) (above up) (Unique-above up)
            ∙ window_of-above channel (wait_seconds s.step_data + a) up)
          same)

  -- A window that is gathered is open.
  abbrev IsOpen : Option Window → Type 0
  IsOpen o = later 0 o ≡ o

  IsOpen-elim :
      {A : Type 0} (o : Option A) (f : A → Option Window)
      → ((a : A) → IsOpen (f a))
      → IsOpen (elim o [ none ↦ none | some a ↦ f a ])
  IsOpen-elim none f h = refl
  IsOpen-elim (some a) f h = h a

  IsOpen-if : (b : Bool) (o p : Option Window) → IsOpen o → IsOpen p → IsOpen (if b then o else p)
  IsOpen-if true o p h k = h
  IsOpen-if false o p h k = k

  opened-IsOpen :
      (id : String) (minutes : ℕ)
      → IsOpen (
          if minutes == 0
          then none
          else some (record { channel_id = id; elapsed = 0; expires_after = minutes * 60 }))
  unfolding aged
  opened-IsOpen id minutes = elim (Bool-cases (minutes == 0)) [
    | inl e ↦ rw (e) refl
    | inr e ↦
        let positive : ltb 0 (minutes * 60) ≡ true = positive_minutes minutes e in
        rw (e, positive) refl
  ]

  open_window-IsOpen : (id : String) → IsOpen (open_window channels id)
  unfolding open_window
  open_window-IsOpen id = IsOpen-elim (channel_by_id channels id) _ (λ c.
      IsOpen-elim (capability_of c.kind).reply_window_minutes _
        (λ minutes. opened-IsOpen id minutes))

  connector-IsOpen : (s : Step) → IsOpen (window_from_connector channels steps s)
  unfolding window_from_connector window_from_parent
  connector-IsOpen s = IsOpen-elim s.parent_id _ (λ p. IsOpen-if (str_eq p "") none _ refl (
      IsOpen-elim (step_by_id steps p) _ (λ parent.
        IsOpen-if (tells_reply s parent) _ none
          (IsOpen-elim (specific_channel_id parent.step_data.message.channel) _
            (λ id. open_window-IsOpen id))
          refl)))

  IsOpen-with :
      (channel : String) (o : Option Window) (windows : List Window)
      → IsOpen o
      → IsOpen (window_of channel windows)
      → IsOpen (window_of channel (with_window o windows))
  unfolding with_window
  IsOpen-with channel none windows h k = k
  IsOpen-with channel (some w) windows h k =
      rw (window_of-replace channel windows w)
        (IsOpen-if (str_eq w.channel_id channel) (some w) (window_of channel windows) h k)

  IsOpen-list :
      (channel : String) (b : Bool) (v w : List Window)
      → IsOpen (window_of channel v)
      → IsOpen (window_of channel w)
      → IsOpen (window_of channel (if b then v else w))
  IsOpen-list channel true v w h k = h
  IsOpen-list channel false v w h k = k

  above-IsOpen : (channel : String) (up : List Step) → IsOpen (window_of channel (above up))
  unfolding above pass
  above-IsOpen channel [] = refl
  above-IsOpen channel (s ∷ up) =
      let k = above-IsOpen channel up in
      IsOpen-list channel (is_connector s.kind) _ _
        (IsOpen-with channel (window_from_connector channels steps s) (above up)
          (connector-IsOpen s) k)
        (IsOpen-list channel (is_wait s.kind) _ _
          (IsOpen-age channel (wait_seconds s.step_data) (above up) (Unique-above up) k) k)

  pass_all-reversed :
      (path done : List Step) (windows : List Window)
      → pass_all channels steps windows (reversed path done)
        ≡ pass_all channels steps (pass_all channels steps windows (reversed path [])) done
  unfolding pass_all reversed
  pass_all-reversed [] done windows = refl
  pass_all-reversed (s ∷ path) done windows =
      pass_all-reversed path (s ∷ done) windows
      ∙ sym (ap (λ v. pass_all channels steps v done) (pass_all-reversed path (s ∷ []) windows))

  pass_all-above : (path : List Step) → pass_all channels steps [] (reversed path []) ≡ above path
  unfolding pass_all reversed above
  pass_all-above [] = refl
  pass_all-above (s ∷ path) =
      pass_all-reversed path (s ∷ []) [] ∙ ap (λ v. pass channels steps v s) (pass_all-above path)

-- A channel has an open window at a step exactly where, on the way up from the step to the trigger,
-- the nearest connector that tells of a reply on this channel is less than the channel's window
-- of waits away.
pub open_windows-nearest :
    (channels : List ChannelFacts) (steps : List Step) (id channel : String)
    → window_of channel (open_windows channels steps id)
      ≡ nearest channels steps channel 0 (lineage steps id)
unfolding open_windows
open_windows-nearest channels steps id channel =
    ap (window_of channel) (pass_all-above channels steps (lineage steps id))
    ∙ sym (above-IsOpen channels steps channel (lineage steps id))
    ∙ window_of-above channels steps channel 0 (lineage steps id)
