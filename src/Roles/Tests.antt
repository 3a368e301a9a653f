-- ===== src/Roles/Tests.antt =====
-- Roles and scopes at concrete texts.
use uptimeflow.Common.{◌≡◌, refl, Bool, true, false, [], ◌∷◌}
use uptimeflow.Common.Text.{Text, codes, text_eq, split}
use uptimeflow.Roles.{
  developer, monitor, member, delete, cancel, has_permission, assignable_roles, answers, throws,
  check_parts, check_action, check_split, is_valid_scope,
}
use uptimeflow.Roles.Scopes.{single_scope, supports, single_scope_valid}
use uptimeflow.Roles.Delegation.{delegation_never_escalates}

abbrev to_string : Text → Bool
to_string t = text_eq t (codes "toString")

manager_removes_nobody : has_permission (codes "manager") member (delete ∷ []) ≡ false
unfolding has_permission text_eq
manager_removes_nobody = refl

-- A name that every object inherits passes as a resource.
inherited_name_is_valid : is_valid_scope to_string (codes "toString:*") ≡ answers true
unfolding is_valid_scope check_split check_parts check_action text_eq split
inherited_name_is_valid = refl

inherited_name_throws : is_valid_scope to_string (codes "toString:read") ≡ throws
unfolding is_valid_scope check_split check_parts check_action text_eq split
inherited_name_throws = refl

delegation_never_escalates_example : has_permission (codes "manager") monitor (delete ∷ []) ≡ true
unfolding has_permission assignable_roles text_eq
delegation_never_escalates_example =
    delegation_never_escalates (codes "manager") developer monitor (delete ∷ []) refl refl

single_scope_valid_example :
    is_valid_scope to_string (single_scope member cancel) ≡ answers (supports member cancel)
single_scope_valid_example = single_scope_valid to_string member cancel
