-- ===== src/Workflows/Safety/Cleanup.antt =====
-- The cleanup of a run that ends keeps the invariant: its context and its contact's key are gone
-- (`cleanupRun` of src/modules/workflows/workflow-engine.service.ts).
use desk_be.Common.{
  String, Bool, true, false, some, lookup, str_eq, ◌≡◌, refl, sym, ◌∙◌, ap, eq_iff, eq_refl,
  Bool-cases, inl, inr, if◌then◌else◌, arith, ◌⊎◌,
}
use desk_be.Workflows.Values.{remove}
use desk_be.Workflows.World.{Run, Context, ActiveRun, World, find_run, active_run_key}
use desk_be.Workflows.Runs.{is_live, cleanup_run, names_run}
use desk_be.Workflows.Tables.{lookup-remove_same, lookup-remove_other, changed, find-id}
use desk_be.Workflows.Safety.Invariant.{IsRunning, OwnsContext, OwnsKey, IsSound, Keeps}
use desk_be.Workflows.Safety.Changes.{IsRunning-frame}

-- The rows, the contexts and the keys between the update of the status and the cleanup.
pub record IsEnding (id : String) (f : Run → Run) (w v : World) : Type 0 where
  pub rows : (j : String) → find_run j v ≡ changed id f (find_run j w)
  pub contexts : v.contexts ≡ w.contexts
  pub active : v.active ≡ w.active

module _ (id : String) (f : Run → Run) (w v : World) (i : IsEnding id f w v) where
  -- another run than the one that ends
  other-IsRunning :
      (j workspace contact : String)
      → IsRunning w j workspace contact
      → str_eq j id ≡ false
      → IsRunning v j workspace contact
  other-IsRunning j workspace contact k h = record {
    run = k.run;
    found =
        i.rows j
        ∙ ap (changed id f) k.found
        ∙ ap (λ b. some (if b then f k.run else k.run))
            (ap (λ x. str_eq x id) (find-id j w.runs k.run k.found) ∙ h);
    live = k.live;
    in_workspace = k.in_workspace;
    of_contact = k.of_contact;
  }

  ended_row :
      (workspace contact j : String) (r : Run)
      → IsRunning w id workspace contact
      → find_run j w ≡ some r
      → is_live r.status ≡ false
      → str_eq r.id id ≡ false
  ended_row workspace contact j r k h e =
      ground (arith, k.found, k.live, h, e, eq_iff r.id id, find-id j w.runs r h)

  left_context :
      (c d : Context) (j : String)
      → IsSound w
      → (str_eq id j ≡ true) ⊎ (str_eq id j ≡ false)
      → lookup j (remove id w.contexts) ≡ some d
      → OwnsContext v j d
  left_context c d j s (inl e) h =
      absurd (ground (arith, (eq_iff id j).0 e, h, lookup-remove_same j w.contexts))
  left_context c d j s (inr e) h =
      let o = s.contexts j d (sym (lookup-remove_other id j w.contexts e) ∙ h) in
      record {
        own = o.own;
        runs =
            other-IsRunning j d.workspace_id d.contact_id o.runs
              (ground (arith, e, eq_iff j id, eq_iff id j));
      }

  abbrev own_key : Context → String
  own_key c = active_run_key c.workspace_id c.contact_id

  -- The keys that name the run are those of its contact.
  same_key :
      (c : Context) (key : String) (a : ActiveRun)
      → IsSound w
      → IsRunning w id c.workspace_id c.contact_id
      → lookup key w.active ≡ some a
      → a.run_id ≡ id
      → key ≡ own_key c
  same_key c key a s k h e =
      let o = s.active key a h in
      let same : o.runs.run ≡ k.run =
        ground (arith, o.runs.found, k.found, ap (λ x. find_run x w) e) in
      o.of_key
      ∙ ap (λ x. active_run_key x o.contact)
          (sym o.runs.in_workspace ∙ ap (λ r. r.workspace_id) same ∙ k.in_workspace)
      ∙ ap (active_run_key c.workspace_id)
          (sym o.runs.of_contact ∙ ap (λ r. r.contact_id) same ∙ k.of_contact)

  other_key :
      (key : String) (a : ActiveRun)
      → OwnsKey w key a
      → str_eq a.run_id id ≡ false
      → OwnsKey v key a
  other_key key a o e = record {
    workspace = o.workspace;
    contact = o.contact;
    of_key = o.of_key;
    runs = other-IsRunning a.run_id o.workspace o.contact o.runs e;
  }

  -- A key that the cleanup leaves names another run.
  left_other :
      (c : Context) (key : String) (a : ActiveRun)
      → IsSound w
      → IsRunning w id c.workspace_id c.contact_id
      → (b : Bool) → names_run id (lookup (own_key c) w.active) ≡ b
      → lookup key (if b then remove (own_key c) w.active else w.active) ≡ some a
      → (lookup key w.active ≡ some a) × (str_eq a.run_id id ≡ false)
  unfolding names_run
  left_other c key a s k true n h = elim (Bool-cases (str_eq (own_key c) key)) [
    | inl e ↦
        absurd (ground (arith, (eq_iff (own_key c) key).0 e, h, lookup-remove_same key w.active))
    | inr e ↦
        let found = sym (lookup-remove_other (own_key c) key w.active e) ∙ h in
        (
          found,
          ground (arith, e, eq_iff a.run_id id, eq_refl (own_key c), same_key c key a s k found),
        )
  ]
  left_other c key a s k false n h =
      (h, ground (arith, h, n, eq_iff a.run_id id, same_key c key a s k h))

  left_key :
      (c : Context) (key : String) (a : ActiveRun)
      → IsSound w
      → IsRunning w id c.workspace_id c.contact_id
      → lookup key (
          if names_run id (lookup (own_key c) w.active)
          then remove (own_key c) w.active
          else w.active)
        ≡ some a
      → OwnsKey v key a
  left_key c key a s k h =
      let l = left_other c key a s k (names_run id (lookup (own_key c) w.active)) refl h in
      other_key key a (s.active key a l.0) l.1

  cleaned-IsRunning :
      (c : Context) (j workspace contact : String)
      → IsRunning v j workspace contact
      → IsRunning (cleanup_run id c v) j workspace contact
  unfolding cleanup_run
  cleaned-IsRunning c j workspace contact k = IsRunning-frame v _ j workspace contact refl k

  -- The end of a run keeps the invariant and the runs that ended before.
  pub Keeps-cleanup :
      (c : Context) → IsRunning w id c.workspace_id c.contact_id → Keeps w (cleanup_run id c v)
  unfolding cleanup_run
  Keeps-cleanup c k = record {
    sound = λ s. record {
      contexts = λ j d h.
          let o =
            left_context c d j s (Bool-cases (str_eq id j))
              (sym (ap (λ m. lookup j (remove id m)) i.contexts) ∙ h) in
          record { own = o.own; runs = cleaned-IsRunning c j d.workspace_id d.contact_id o.runs };
      active = λ key a h.
          let o = left_key c key a s k (
            sym (
              ap
                (λ m.
                  lookup key
                    (if names_run id (lookup (own_key c) m) then remove (own_key c) m else m))
                i.active)
            ∙ h) in
          record {
            workspace = o.workspace;
            contact = o.contact;
            of_key = o.of_key;
            runs = cleaned-IsRunning c a.run_id o.workspace o.contact o.runs;
          };
    };
    ended = λ s. record {
      stay = λ j r h e.
          i.rows j
          ∙ ap (changed id f) h
          ∙ ap (λ b. some (if b then f r else r)) (ended_row c.workspace_id c.contact_id j r k h e);
    };
  }
