-- ===== src/Roles/Scopes.antt =====
-- The scopes of API keys in packages/shared/src/roles.ts.
use uptimeflow.Common.{◌≡◌, refl, Bool, true, false, not, any, all, if◌then◌else◌}
use uptimeflow.Common.Text.{Text, text_eq, split}
use uptimeflow.Roles.{
  Resource, Action, resources, actions, resource_text, action_text, same_action,
  permission_statements, scope_text, ScopeCheck, answers, throws, check_parts, check_action,
  check_split, is_valid_scope,
}
use uptimeflow.Roles.Delegation.{every_resource, every_action}

abbrev pub supports : Resource → Action → Bool
supports r a = any (same_action a) (permission_statements r)

abbrev pub single_scope : Resource → Action → Text
single_scope r a = scope_text (resource_text r) (action_text a)

abbrev is_answer : Bool → ScopeCheck → Bool
is_answer b throws = false
is_answer b (answers c) = if b then c else not c

is_answer-eq : (b : Bool) (c : ScopeCheck) → is_answer b c ≡ true → c ≡ answers b
is_answer-eq b throws h = cc
is_answer-eq true (answers true) h = refl
is_answer-eq true (answers false) h = cc
is_answer-eq false (answers true) h = cc
is_answer-eq false (answers false) h = refl

module _ (inherited : Text → Bool) where
  checked :
      all
        (λ r.
          all (λ a. is_answer (supports r a) (is_valid_scope inherited (single_scope r a))) actions)
        resources
      ≡ true
  unfolding is_valid_scope check_split check_parts check_action text_eq split
  checked = refl

  -- The scope that names a resource and one action of the model is valid exactly where the
  -- permission statements list that action for that resource.
  pub single_scope_valid :
      (r : Resource) (a : Action)
      → is_valid_scope inherited (single_scope r a) ≡ answers (supports r a)
  single_scope_valid r a =
      is_answer-eq (supports r a) (is_valid_scope inherited (single_scope r a)) (
        every_action (λ b. is_answer (supports r b) (is_valid_scope inherited (single_scope r b)))
          (every_resource
            (λ q.
              all (λ b. is_answer (supports q b) (is_valid_scope inherited (single_scope q b)))
                actions)
            checked r)
          a)
