-- ===== src/Samples.antt =====
-- Concrete values of the parameters, for the tests and witnesses of the other modules.
use devops_agent.Prelude.{◌+◌, refl, Bool, true, [], ◌∷◌, if◌then◌else◌}
use devops_agent.Text.{Unicode, codes, ascii_word, is_upper}
use devops_agent.Whitelist.{compiled_patterns}
use devops_agent.Control.State.{Phase, low, pending, OutcomeStatus}
use devops_agent.Control.Host.{Host, finished}
use devops_agent.Control.Session.{PlannedAction, ControlState}

-- a Unicode database that knows ASCII only
abbrev pub ascii : Unicode
ascii = record {
  is_word = ascii_word;
  lower = λ c. (if is_upper c then c + 32 else c) ∷ [];
  is_word-ascii = λ c h. refl;
  lower-ascii = λ c h. refl;
}

-- a host on which every command prints a line of `docker ps` and every request is answered alike
abbrev pub quiet_host : Bool → Host
quiet_host answer = record {
  unicode = ascii;
  patterns = compiled_patterns;
  is_configured = true;
  execute = λ h c. finished (codes "web|Up 2 minutes|running") true;
  approve = λ h request. answer;
}

-- a host on which every command says that the container is gone
abbrev pub broken_host : Host
broken_host = record (quiet_host true) {
  execute = λ h c. finished (codes "web|Exited (1)|exited") true;
}

abbrev pub restart_web : PlannedAction
restart_web = record { action_type = codes "restart_container"; target = codes "web" }

abbrev pub new_state : ControlState
new_state = record {
  current_phase = Phase.idle;
  phase_history = [];
  audit_trail = [];
  timeline = [];
  confidence = 60;
  risk_level = low;
  approval_status = pending;
  actions_attempted = [];
  verification_results = [];
  rollback_results = [];
  final_outcome = OutcomeStatus.unknown;
  action_count = 0;
}
