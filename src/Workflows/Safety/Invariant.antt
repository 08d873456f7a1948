-- ===== src/Workflows/Safety/Invariant.antt =====
-- The invariant of the runs, the contexts and the active runs.
use desk_be.Common.{String, Bool, true, false, some, lookup, ◌≡◌, if◌then◌else◌}
use desk_be.Workflows.World.{Run, Context, ActiveRun, World, find_run, active_run_key}
use desk_be.Workflows.Runs.{is_live}

-- The run with an id is there, has not ended and is of the workspace and the contact.
pub record IsRunning (w : World) (id workspace contact : String) : Type 0 where
  pub run : Run
  pub found : find_run id w ≡ some run
  pub live : is_live run.status ≡ true
  pub in_workspace : run.workspace_id ≡ workspace
  pub of_contact : run.contact_id ≡ contact

pub record OwnsContext (w : World) (id : String) (c : Context) : Type 0 where
  pub own : c.run_id ≡ id
  pub runs : IsRunning w id c.workspace_id c.contact_id

pub record OwnsKey (w : World) (key : String) (a : ActiveRun) : Type 0 where
  pub workspace : String
  pub contact : String
  pub of_key : key ≡ active_run_key workspace contact
  pub runs : IsRunning w a.run_id workspace contact

-- Every context is one of a run that has not ended, and every contact's key names such a run, of
-- the contact.
pub record IsSound (w : World) : Type 0 where
  pub contexts : (id : String) (c : Context) → lookup id w.contexts ≡ some c → OwnsContext w id c
  pub active : (key : String) (a : ActiveRun) → lookup key w.active ≡ some a → OwnsKey w key a

-- A run that has ended stays as it is.
pub record EndedStay (u w : World) : Type 0 where
  pub stay :
      (id : String) (r : Run)
      → find_run id u ≡ some r
      → is_live r.status ≡ false
      → find_run id w ≡ some r

pub record Keeps (u w : World) : Type 0 where
  pub sound : IsSound u → IsSound w
  pub ended : IsSound u → EndedStay u w

pub Keeps-refl : (w : World) → Keeps w w
Keeps-refl w = record { sound = λ s. s; ended = λ s. record { stay = λ id r h e. h } }

pub Keeps-trans : {u v w : World} → Keeps u v → Keeps v w → Keeps u w
Keeps-trans h k = record {
  sound = λ s. k.sound (h.sound s);
  ended = λ s. record {
    stay = λ id r f e. (k.ended (h.sound s)).stay id r ((h.ended s).stay id r f e) e;
  };
}

-- what follows when the invariant is known before
pub Keeps-given : {u w : World} → (IsSound u → Keeps u w) → Keeps u w
Keeps-given h = record { sound = λ s. (h s).sound s; ended = λ s. (h s).ended s }

pub Keeps-if : (b : Bool) (u v w : World) → Keeps u v → Keeps u w → Keeps u (if b then v else w)
Keeps-if true u v w h k = h
Keeps-if false u v w h k = k
