-- ===== src/Storage/Convergence.antt =====
-- pkg/controllerstorage/node_control_states.go: what a command's result does to the convergence of its node.
use aria.Prelude.{
  String, ◌≡◌, refl, ◌∙◌, ap, true, false, some, arith, inl, inr, Bool-cases, ◌&&◌, not, str_eq,
  eq_refl, trim, trim-trim,
}
use aria.Storage.{Uuid, Params, Texts, completed, failed, NodeControlState, Env, text_at}
use aria.Storage.ControlState.{
  converged, diverged, read_text, get_convergence_status, NodeControlStateReport, reported_row,
  merge_report, command_report, first_string, default_observed, or_else,
}

-- a text that is blank-free at both ends and not empty is chosen
first_string-given : (a b : String) → trim a ≡ a → str_eq a "" ≡ false → first_string a b ≡ a
first_string-given a b whole given = rw (whole, given)

-- a report with an error leaves the node diverged
error-diverged :
    (env : Env) (tenant node : Uuid) (r : NodeControlStateReport) (s : NodeControlState)
    → str_eq r.last_sync_error "" ≡ false
    → get_convergence_status true (merge_report env (reported_row env tenant node r) s) ≡ diverged
unfolding get_convergence_status
error-diverged env tenant node r s given = ground arith

-- a report without an error, of the version that is desired, leaves the node converged
settled-converged :
    (env : Env) (tenant node : Uuid) (r : NodeControlStateReport) (s : NodeControlState)
    → r.last_sync_error ≡ ""
    → r.last_sync_at ≡ some env.clock
    → (str_eq (read_text s.desired_state_version) "" ≡ false
        → r.applied_state_version ≡ read_text s.desired_state_version)
    → get_convergence_status true (merge_report env (reported_row env tenant node r) s) ≡ converged
unfolding get_convergence_status
settled-converged env tenant node r s clean now same =
    elim (Bool-cases (str_eq (read_text s.desired_state_version) "")) [
      | inl e ↦ rw (clean, now, e)
      | inr e ↦ rw (clean, now, same e, e, e, eq_refl (read_text s.desired_state_version))
    ]

failed-error :
    (env : Env) (command : String) (params : Params) (note : String) (result : Texts)
    → str_eq (trim note) "" ≡ false
    → str_eq (command_report env command params failed note result).last_sync_error "" ≡ false
unfolding command_report
failed-error env command params note result given =
    elim (Bool-cases (str_eq (trim (text_at "observed_message" result)) "")) [
      | inl e ↦ ground (arith, trim-trim note)
      | inr e ↦ ground (arith, trim-trim (text_at "observed_message" result))
    ]

-- A failed command that came with a note makes an online node diverged, whatever its state was.
pub failed-diverged :
    (env : Env) (tenant node : Uuid) (command : String) (params : Params) (note : String)
    (result : Texts) (s : NodeControlState)
    → str_eq (trim note) "" ≡ false
    → get_convergence_status true (
        merge_report env
          (reported_row env tenant node (command_report env command params failed note result))
          s)
      ≡ diverged
failed-diverged env tenant node command params note result s given =
    error-diverged env tenant node (command_report env command params failed note result) s
      (failed-error env command params note result given)

or_else-fine :
    (o d : String)
    → str_eq o "error" ≡ false
    → str_eq d "error" ≡ false
    → str_eq (or_else o d) "error" ≡ false
or_else-fine o d h k = elim (Bool-cases (str_eq o "")) [ inl e ↦ rw e k | inr e ↦ rw e h ]

healthy_by_default :
    (command applied : String) → str_eq (default_observed completed command applied) "error" ≡ false
healthy_by_default command applied =
    elim (Bool-cases (str_eq command "sync" && not (str_eq applied ""))) [
      | inl e ↦ rw e
      | inr e ↦ rw e
    ]

-- A completed sync that reports the state version that is desired makes an online node converged.
pub completed-converged :
    (env : Env) (tenant node : Uuid) (params : Params) (note : String) (result : Texts)
    (s : NodeControlState)
    → str_eq (trim (text_at "observed_state" result)) "error" ≡ false
    → trim (text_at "applied_state_version" result) ≡ read_text s.desired_state_version
    → get_convergence_status true (
        merge_report env
          (reported_row env tenant node (command_report env "sync" params completed note result))
          s)
      ≡ converged
unfolding command_report
completed-converged env tenant node params note result s fine same =
    settled-converged env tenant node (command_report env "sync" params completed note result) s
      (rw
        (or_else-fine (trim (text_at "observed_state" result)) _ fine (healthy_by_default "sync" _))
        refl)
      refl (λ e. let given = ap (λ x. str_eq x "") same ∙ e in rw given same)
