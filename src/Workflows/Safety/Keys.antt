-- ===== src/Workflows/Safety/Keys.antt =====
-- The keys of contexts and active runs keep the invariant when they are set for a run that is
-- running (`saveContext` and `markActiveRun` of
-- src/modules/workflows/workflow-engine.service.ts).
use mathlib.Core.Path.{subst}
use desk_be.Common.{
  String, true, false, some, lookup, str_eq, ◌≡◌, refl, sym, ◌∙◌, eq_iff, Bool-cases, inl, inr,
  arith, ◌⊎◌,
}
use desk_be.Workflows.Values.{put}
use desk_be.Workflows.World.{
  Context, ActiveRun, World, save_context, mark_active_run, active_run_key,
}
use desk_be.Workflows.Tables.{lookup-put_same, lookup-put_other}
use desk_be.Workflows.Safety.Invariant.{IsRunning, OwnsContext, OwnsKey, IsSound, Keeps}
use desk_be.Workflows.Safety.Changes.{IsRunning-frame}

owned_context :
    (w : World) (c : Context) (j : String) (d : Context)
    → IsSound w
    → IsRunning w c.run_id c.workspace_id c.contact_id
    → (str_eq c.run_id j ≡ true) ⊎ (str_eq c.run_id j ≡ false)
    → lookup j (put c.run_id c w.contexts) ≡ some d
    → OwnsContext w j d
owned_context w c j d s k (inl e) h =
    subst (λ x. OwnsContext w x d) ((eq_iff c.run_id j).0 e)
      (subst (OwnsContext w c.run_id) {x = c}
        (ground (arith, lookup-put_same c.run_id c w.contexts, h, (eq_iff c.run_id j).0 e))
        (record { own = refl; runs = k }))
owned_context w c j d s k (inr e) h =
    s.contexts j d (sym (lookup-put_other c.run_id j c w.contexts e) ∙ h)

-- Saving the context of a run that goes on keeps them.
pub Keeps-save_context :
    (w : World) (c : Context)
    → IsRunning w c.run_id c.workspace_id c.contact_id
    → Keeps w (save_context c w)
unfolding save_context
Keeps-save_context w c k = record {
  sound = λ s. record {
    contexts = λ j d h.
        let o = owned_context w c j d s k (Bool-cases (str_eq c.run_id j)) h in
        record {
          own = o.own;
          runs = IsRunning-frame w _ j d.workspace_id d.contact_id refl o.runs;
        };
    active = λ key a h.
        let o = s.active key a h in
        record {
          workspace = o.workspace;
          contact = o.contact;
          of_key = o.of_key;
          runs = IsRunning-frame w _ a.run_id o.workspace o.contact refl o.runs;
        };
  };
  ended = λ s. record { stay = λ j r h e. h };
}

pub IsRunning-saved :
    (w : World) (c : Context) (j workspace contact : String)
    → IsRunning w j workspace contact
    → IsRunning (save_context c w) j workspace contact
unfolding save_context
IsRunning-saved w c j workspace contact k = IsRunning-frame w _ j workspace contact refl k

owned_key :
    (w : World) (c : Context) (a b : ActiveRun) (own key : String)
    → IsSound w
    → OwnsKey w own b
    → (str_eq own key ≡ true) ⊎ (str_eq own key ≡ false)
    → lookup key (put own b w.active) ≡ some a
    → OwnsKey w key a
owned_key w c a b own key s k (inl e) h =
    subst (λ x. OwnsKey w x a) ((eq_iff own key).0 e)
      (subst (OwnsKey w own)
        (ground (arith, lookup-put_same own b w.active, h, (eq_iff own key).0 e)) k)
owned_key w c a b own key s k (inr e) h =
    s.active key a (sym (lookup-put_other own key b w.active e) ∙ h)

-- Marking a run that goes on as its contact's active one keeps them.
pub Keeps-mark_active_run :
    (w : World) (c : Context)
    → IsRunning w c.run_id c.workspace_id c.contact_id
    → Keeps w (mark_active_run c w)
unfolding mark_active_run
Keeps-mark_active_run w c k = record {
  sound = λ s. record {
    contexts = λ j d h.
        let o = s.contexts j d h in
        record {
          own = o.own;
          runs = IsRunning-frame w _ j d.workspace_id d.contact_id refl o.runs;
        };
    active = λ key a h.
        let o =
          owned_key w c a _ (active_run_key c.workspace_id c.contact_id) key s
            (record { workspace = c.workspace_id; contact = c.contact_id; of_key = refl; runs = k })
            (Bool-cases (str_eq (active_run_key c.workspace_id c.contact_id) key)) h in
        record {
          workspace = o.workspace;
          contact = o.contact;
          of_key = o.of_key;
          runs = IsRunning-frame w _ a.run_id o.workspace o.contact refl o.runs;
        };
  };
  ended = λ s. record { stay = λ j r h e. h };
}
