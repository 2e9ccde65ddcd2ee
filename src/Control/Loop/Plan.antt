-- ===== src/Control/Loop/Plan.antt =====
-- The command of a rollback plan is the command of the action that it rolls back.
use devops_agent.Prelude.{◌≡◌, true, false, some, ◌++◌, Bool-cases, inl, inr, refl}
use devops_agent.Text.{Unicode, Text, codes, text_eq, text_eq→eq}
use devops_agent.Whitelist.{is_action_command_allowed}
use devops_agent.Control.Policy.{restart_template, validate_target_name}
use devops_agent.Control.Actions.{allowed_only, fill_action, build_action_command}
use devops_agent.Control.Rollback.{create_rollback_plan}

filled :
    (u : Unicode) (b target c : Text) → fill_action u (some b) target ≡ some c → c ≡ b ++ target
unfolding fill_action allowed_only
filled u b target c h = elim (Bool-cases (validate_target_name target)) [
  | inr bad ↦ cc (rw bad at h)
  | inl good ↦ elim (Bool-cases (is_action_command_allowed u (b ++ target))) [
    | inr refused ↦ cc (rw (good, refused) at h)
    | inl listed ↦ cc (rw (good, listed) at h)
  ]
]

built_container :
    (u : Unicode) (target c : Text)
    → build_action_command u (codes "restart_container") target ≡ some c
    → c ≡ (create_rollback_plan (codes "restart_container") target).command
unfolding build_action_command restart_template create_rollback_plan text_eq
built_container u target c = filled u (codes "docker restart ") target c

built_service :
    (u : Unicode) (target c : Text)
    → build_action_command u (codes "restart_service") target ≡ some c
    → c ≡ (create_rollback_plan (codes "restart_service") target).command
unfolding build_action_command restart_template create_rollback_plan text_eq
built_service u target c = filled u (codes "systemctl restart ") target c

no_plan :
    (t target : Text)
    → text_eq t (codes "restart_container") ≡ false
    → text_eq t (codes "restart_service") ≡ false
    → (create_rollback_plan t target).available ≡ false
unfolding create_rollback_plan
no_plan t target other none_known = rw (other, none_known) refl

-- The command of a rollback is the command of its action.
pub build_action_command-plan :
    (u : Unicode) (t target c : Text)
    → (create_rollback_plan t target).available ≡ true
    → build_action_command u t target ≡ some c
    → c ≡ (create_rollback_plan t target).command
build_action_command-plan u t target c can built =
    elim (Bool-cases (text_eq t (codes "restart_container"))) [
      | inl container ↦
          let same : t ≡ codes "restart_container" = text_eq→eq t _ container in
          rw same (built_container u target c (rw same at built))
      | inr other ↦ elim (Bool-cases (text_eq t (codes "restart_service"))) [
        | inl service ↦
            let same : t ≡ codes "restart_service" = text_eq→eq t _ service in
            rw same (built_service u target c (rw same at built))
        | inr none_known ↦ absurd (cc (no_plan t target other none_known, can))
      ]
    ]
