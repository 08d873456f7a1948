-- ===== src/Workflows/Safety/Changes.antt =====
-- The single changes of the runs, the contexts and the active runs keep the invariant (the rows and
-- the Redis keys of src/modules/workflows/workflow-engine.service.ts).
use desk_be.Common.{
  String, [], ◌∷◌, ◌++◌, Bool, true, false, none, some, find, lookup, str_eq, ◌≡◌, refl, sym, ◌∙◌,
  ap, eq_iff, if◌then◌else◌, arith,
}
use desk_be.Workflows.World.{Run, World, find_run, update_run}
use desk_be.Workflows.Runs.{is_live}
use desk_be.Workflows.Tables.{changed, find-map_update, find-id, find-append_found, find-append_new}
use desk_be.Workflows.Safety.Invariant.{IsRunning, IsSound, Keeps}

-- what an update of a run that goes on keeps
pub record GoesOn (f : Run → Run) : Type 0 where
  pub id : (r : Run) → (f r).id ≡ r.id
  pub workspace : (r : Run) → (f r).workspace_id ≡ r.workspace_id
  pub contact : (r : Run) → (f r).contact_id ≡ r.contact_id
  pub live : (r : Run) → is_live r.status ≡ true → is_live (f r).status ≡ true

module _ (id : String) (f : Run → Run) (g : GoesOn f) where
  find-update :
      (w : World) (j : String) → find_run j (update_run id f w) ≡ changed id f (find_run j w)
  unfolding update_run
  find-update w j = find-map_update id j f w.runs g.id

  updated-IsRunning :
      (w : World) (j workspace contact : String) (k : IsRunning w j workspace contact)
      → (b : Bool) → find_run j (update_run id f w) ≡ some (if b then f k.run else k.run)
      → IsRunning (update_run id f w) j workspace contact
  updated-IsRunning w j workspace contact k true e = record {
    run = f k.run;
    found = e;
    live = g.live k.run k.live;
    in_workspace = g.workspace k.run ∙ k.in_workspace;
    of_contact = g.contact k.run ∙ k.of_contact;
  }
  updated-IsRunning w j workspace contact k false e = record {
    run = k.run;
    found = e;
    live = k.live;
    in_workspace = k.in_workspace;
    of_contact = k.of_contact;
  }

  -- An update that goes on leaves every run that runs running.
  pub IsRunning-update :
      (w : World) (j workspace contact : String)
      → IsRunning w j workspace contact
      → IsRunning (update_run id f w) j workspace contact
  IsRunning-update w j workspace contact k =
      updated-IsRunning w j workspace contact k (str_eq k.run.id id)
        (find-update w j ∙ ap (changed id f) k.found)

  IsSound-update : (w : World) → IsSound w → IsSound (update_run id f w)
  unfolding update_run
  IsSound-update w s = record {
    contexts = λ j c h.
        let o = s.contexts j c h in
        record { own = o.own; runs = IsRunning-update w j c.workspace_id c.contact_id o.runs };
    active = λ key a h.
        let o = s.active key a h in
        record {
          workspace = o.workspace;
          contact = o.contact;
          of_key = o.of_key;
          runs = IsRunning-update w a.run_id o.workspace o.contact o.runs;
        };
  }

  other_row :
      (w : World) (workspace contact j : String) (r : Run)
      → IsRunning w id workspace contact
      → find_run j w ≡ some r
      → is_live r.status ≡ false
      → str_eq r.id id ≡ false
  other_row w workspace contact j r k h e =
      ground (arith, k.found, k.live, h, e, eq_iff r.id id, find-id j w.runs r h)

  -- An update of a run that goes on keeps the invariant and the runs that ended.
  pub Keeps-update :
      (w : World) (workspace contact : String)
      → IsRunning w id workspace contact
      → Keeps w (update_run id f w)
  Keeps-update w workspace contact k = record {
    sound = IsSound-update w;
    ended = λ s. record {
      stay = λ j r h e.
          find-update w j
          ∙ ap (changed id f) h
          ∙ ap (λ b. some (if b then f r else r)) (other_row w workspace contact j r k h e);
    };
  }

pub IsRunning-frame :
    (u w : World) (j workspace contact : String)
    → w.runs ≡ u.runs
    → IsRunning u j workspace contact
    → IsRunning w j workspace contact
IsRunning-frame u w j workspace contact hr k = record {
  run = k.run;
  found = ap (find (λ r. str_eq r.id j)) hr ∙ k.found;
  live = k.live;
  in_workspace = k.in_workspace;
  of_contact = k.of_contact;
}

-- the invariant is about the three tables
pub Keeps-frame :
    (u w : World) → w.runs ≡ u.runs → w.contexts ≡ u.contexts → w.active ≡ u.active → Keeps u w
Keeps-frame u w hr hc ha = record {
  sound = λ s. record {
    contexts = λ j c h.
        let o = s.contexts j c (sym (ap (lookup j) hc) ∙ h) in
        record { own = o.own; runs = IsRunning-frame u w j c.workspace_id c.contact_id hr o.runs };
    active = λ key a h.
        let o = s.active key a (sym (ap (lookup key) ha) ∙ h) in
        record {
          workspace = o.workspace;
          contact = o.contact;
          of_key = o.of_key;
          runs = IsRunning-frame u w a.run_id o.workspace o.contact hr o.runs;
        };
  };
  ended = λ s. record { stay = λ j r h e. ap (find (λ r. str_eq r.id j)) hr ∙ h };
}

grown :
    (w : World) (r : Run) (j workspace contact : String)
    → IsRunning w j workspace contact
    → IsRunning (record w { runs = w.runs ++ r ∷ [] }) j workspace contact
grown w r j workspace contact k = record {
  run = k.run;
  found = find-append_found j w.runs k.run r k.found;
  live = k.live;
  in_workspace = k.in_workspace;
  of_contact = k.of_contact;
}

-- A run with a new id keeps them.
pub Keeps-create : (w : World) (r : Run) → Keeps w (record w { runs = w.runs ++ r ∷ [] })
Keeps-create w r = record {
  sound = λ s. record {
    contexts = λ j d h.
        let o = s.contexts j d h in
        record { own = o.own; runs = grown w r j d.workspace_id d.contact_id o.runs };
    active = λ key a h.
        let o = s.active key a h in
        record {
          workspace = o.workspace;
          contact = o.contact;
          of_key = o.of_key;
          runs = grown w r a.run_id o.workspace o.contact o.runs;
        };
  };
  ended = λ s. record { stay = λ j t h e. find-append_found j w.runs t r h };
}

pub IsRunning-create :
    (w : World) (r : Run)
    → find_run r.id w ≡ none
    → is_live r.status ≡ true
    → IsRunning (record w { runs = w.runs ++ r ∷ [] }) r.id r.workspace_id r.contact_id
IsRunning-create w r h l = record {
  run = r;
  found = find-append_new w.runs r h;
  live = l;
  in_workspace = refl;
  of_contact = refl;
}
