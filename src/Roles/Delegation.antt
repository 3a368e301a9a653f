-- ===== src/Roles/Delegation.antt =====
-- Delegation in packages/shared/src/roles.ts: what the roles that a member may hand out can do.
use uptimeflow.Common.{
  ◌≡◌, refl, sym, subst, ◌∙◌, inl, inr, Bool, true, false, not, ◌&&◌, ◌||◌, Option, none, some,
  List, [], ◌∷◌, any, all, is_some, Bool-cases, arith,
}
use uptimeflow.Common.Text.{Text, codes, text_eq, text_eq→eq}
use uptimeflow.Roles.{
  OrgRole, owner, admin, manager, developer, viewer, Resource, organization, member, invitation,
  billing, audit_log, api_key, monitor, status_page, alert_channel, escalation_policy,
  on_call_schedule, Action, read, create, update, delete, cancel, manage, revoke, resources,
  actions, role_text, same_action, role_permissions, granted_all, has_permission, assignable_roles,
}

-- A test that holds on the whole list holds of every resource, and of every action.
pub every_resource : (p : Resource → Bool) → all p resources ≡ true → (r : Resource) → p r ≡ true
every_resource p h organization = ground arith
every_resource p h member = ground arith
every_resource p h invitation = ground arith
every_resource p h billing = ground arith
every_resource p h audit_log = ground arith
every_resource p h api_key = ground arith
every_resource p h monitor = ground arith
every_resource p h status_page = ground arith
every_resource p h alert_channel = ground arith
every_resource p h escalation_policy = ground arith
every_resource p h on_call_schedule = ground arith

pub every_action : (p : Action → Bool) → all p actions ≡ true → (a : Action) → p a ≡ true
every_action p h read = ground arith
every_action p h create = ground arith
every_action p h update = ground arith
every_action p h delete = ground arith
every_action p h cancel = ground arith
every_action p h manage = ground arith
every_action p h revoke = ground arith

abbrev includes_action : Option (List Action) → Action → Bool
includes_action none a = false
includes_action (some granted) a = any (same_action a) granted

-- Everything that `p` grants, `q` grants.
abbrev covers : Option (List Action) → Option (List Action) → Bool
covers q p =
    (not (is_some p) || is_some q)
    && all (λ a. not (includes_action p a) || includes_action q a) actions

covered :
    (q p : Option (List Action)) (wanted : List Action)
    → covers q p ≡ true
    → granted_all p wanted ≡ true
    → granted_all q wanted ≡ true
covered q none wanted c h = cc
covered none (some p) wanted c h = ground arith
covered (some q) (some p) [] c h = refl
covered (some q) (some p) (a ∷ wanted) c h =
    let at_a =
      every_action (λ a. not (includes_action (some p) a) || includes_action (some q) a)
        (ground arith) a in
    ground (arith, at_a, covered (some q) (some p) wanted c)

abbrev role_covers : OrgRole → OrgRole → Resource → Bool
role_covers boss r resource = covers (role_permissions boss resource) (role_permissions r resource)

abbrev same_role : OrgRole → OrgRole → Bool
same_role r s = text_eq (role_text r) (role_text s)

-- The member of role `boss` may do what a role can that it covers.
inherits :
    (boss r : OrgRole) (resource : Resource) (wanted : List Action)
    → all (role_covers boss r) resources ≡ true
    → granted_all (role_permissions r resource) wanted ≡ true
    → granted_all (role_permissions boss resource) wanted ≡ true
inherits boss r resource wanted c h =
    covered (role_permissions boss resource) (role_permissions r resource) wanted
      (every_resource (role_covers boss r) c resource) h

has_permission-role :
    (r : OrgRole) (resource : Resource) (wanted : List Action)
    → has_permission (role_text r) resource wanted
      ≡ granted_all (role_permissions r resource) wanted
unfolding has_permission text_eq
has_permission-role owner resource wanted = refl
has_permission-role admin resource wanted = refl
has_permission-role manager resource wanted = refl
has_permission-role developer resource wanted = refl
has_permission-role viewer resource wanted = refl

-- The roles that each actor may assign are covered by the actor's own role.
assignable_covered :
    (boss r : OrgRole)
    → any (same_role r) (assignable_roles (role_text boss)) ≡ true
    → all (role_covers boss r) resources ≡ true
unfolding assignable_roles text_eq
assignable_covered owner owner h = refl
assignable_covered owner admin h = refl
assignable_covered owner manager h = refl
assignable_covered owner developer h = refl
assignable_covered owner viewer h = refl
assignable_covered admin owner h = cc
assignable_covered admin admin h = refl
assignable_covered admin manager h = refl
assignable_covered admin developer h = refl
assignable_covered admin viewer h = refl
assignable_covered manager owner h = cc
assignable_covered manager admin h = cc
assignable_covered manager manager h = cc
assignable_covered manager developer h = refl
assignable_covered manager viewer h = refl
assignable_covered developer r h = cc
assignable_covered viewer r h = cc

-- Only the text of a role lets anything be assigned.
assigner :
    (actor : Text) (r : OrgRole)
    → any (same_role r) (assignable_roles actor) ≡ true
    → (boss : OrgRole) × (actor ≡ role_text boss)
unfolding assignable_roles
assigner actor r h = elim (Bool-cases (text_eq actor (codes "owner"))) [
  | inl o ↦ (owner, text_eq→eq actor (codes "owner") o)
  | inr o ↦ elim (Bool-cases (text_eq actor (codes "admin"))) [
    | inl a ↦ (admin, text_eq→eq actor (codes "admin") a)
    | inr a ↦ elim (Bool-cases (text_eq actor (codes "manager"))) [
      | inl m ↦ (manager, text_eq→eq actor (codes "manager") m)
      | inr m ↦ absurd (ground (arith, o, a, m, h))
    ]
  ]
]

-- Nobody can hand out a permission that they lack: whatever a role that an actor may assign is
-- permitted to do, the actor is permitted to do.
pub delegation_never_escalates :
    (actor : Text) (r : OrgRole) (resource : Resource) (wanted : List Action)
    → any (same_role r) (assignable_roles actor) ≡ true
    → has_permission (role_text r) resource wanted ≡ true
    → has_permission actor resource wanted ≡ true
delegation_never_escalates actor r resource wanted may can =
    let (boss, e) = assigner actor r may in
    subst (λ text. has_permission text resource wanted ≡ true) (sym e)
      (has_permission-role boss resource wanted
        ∙ inherits boss r resource wanted
            (assignable_covered boss r
              (subst (λ text. any (same_role r) (assignable_roles text) ≡ true) e may))
            (sym (has_permission-role r resource wanted) ∙ can))
