-- ===== src/Roles.antt =====
-- packages/shared/src/roles.ts: the permissions of the five organization roles, who may hand out
-- which role, and the scopes of API keys.
pub mod Delegation
pub mod Scopes
mod Tests
use mathlib.Core.Option
use uptimeflow.Common.{
  Bool, true, false, ◌||◌, Option, none, some, List, [], ◌∷◌, ◌++◌, any, all, find, if◌then◌else◌,
}
use uptimeflow.Common.Text.{Text, codes, text_eq, split}

pub data OrgRole : Type 0 where
  owner admin manager developer viewer : OrgRole

pub data Resource : Type 0 where
  organization member invitation billing audit_log api_key monitor status_page alert_channel
        escalation_policy on_call_schedule :
      Resource

pub data Action : Type 0 where
  read create update delete cancel manage revoke : Action

abbrev pub org_roles : List OrgRole
org_roles = owner ∷ (admin ∷ (manager ∷ (developer ∷ (viewer ∷ []))))

abbrev pub resources : List Resource
resources =
    organization
    ∷ (member
        ∷ (invitation
            ∷ (billing
                ∷ (audit_log
                    ∷ (api_key
                        ∷ (monitor
                            ∷ (status_page
                                ∷ (alert_channel
                                    ∷ (escalation_policy ∷ (on_call_schedule ∷ []))))))))))

abbrev pub actions : List Action
actions = read ∷ (create ∷ (update ∷ (delete ∷ (cancel ∷ (manage ∷ (revoke ∷ []))))))

-- The text of a role, of a resource and of an action.
abbrev pub role_text : OrgRole → Text
role_text owner = codes "owner"
role_text admin = codes "admin"
role_text manager = codes "manager"
role_text developer = codes "developer"
role_text viewer = codes "viewer"

abbrev pub resource_text : Resource → Text
resource_text organization = codes "organization"
resource_text member = codes "member"
resource_text invitation = codes "invitation"
resource_text billing = codes "billing"
resource_text audit_log = codes "auditLog"
resource_text api_key = codes "apiKey"
resource_text monitor = codes "monitor"
resource_text status_page = codes "statusPage"
resource_text alert_channel = codes "alertChannel"
resource_text escalation_policy = codes "escalationPolicy"
resource_text on_call_schedule = codes "onCallSchedule"

abbrev pub action_text : Action → Text
action_text read = codes "read"
action_text create = codes "create"
action_text update = codes "update"
action_text delete = codes "delete"
action_text cancel = codes "cancel"
action_text manage = codes "manage"
action_text revoke = codes "revoke"

abbrev pub same_action : Action → Action → Bool
same_action a b = text_eq (action_text a) (action_text b)

abbrev pub crud : List Action
crud = read ∷ (create ∷ (update ∷ (delete ∷ [])))

abbrev pub permission_statements : Resource → List Action
permission_statements organization = read ∷ (update ∷ (delete ∷ []))
permission_statements member = crud
permission_statements invitation = read ∷ (create ∷ (cancel ∷ []))
permission_statements billing = read ∷ (manage ∷ [])
permission_statements audit_log = read ∷ []
permission_statements api_key = read ∷ (create ∷ (revoke ∷ []))
permission_statements monitor = crud
permission_statements status_page = crud
permission_statements alert_channel = crud
permission_statements escalation_policy = crud
permission_statements on_call_schedule = crud

abbrev pub PermissionSet : Type 0
PermissionSet = Resource → Option (List Action)

abbrev pub all_permissions : PermissionSet
all_permissions r = some (permission_statements r)

abbrev pub read_everything : PermissionSet
read_everything r =
    if any (same_action read) (permission_statements r) then some (read ∷ []) else none

-- `OPERATE`
abbrev pub operate : PermissionSet
operate monitor = some crud
operate status_page = some crud
operate alert_channel = some crud
operate escalation_policy = some crud
operate on_call_schedule = some crud
operate _ = none

abbrev manager_permissions : PermissionSet
manager_permissions organization = some (read ∷ [])
manager_permissions member = some (read ∷ (create ∷ (update ∷ [])))
manager_permissions invitation = some (read ∷ (create ∷ (cancel ∷ [])))
manager_permissions billing = some (read ∷ [])
manager_permissions audit_log = some (read ∷ [])
manager_permissions api_key = some (read ∷ (create ∷ (revoke ∷ [])))
manager_permissions r = operate r

abbrev developer_permissions : PermissionSet
developer_permissions organization = some (read ∷ [])
developer_permissions api_key = some (read ∷ (create ∷ (revoke ∷ [])))
developer_permissions r = operate r

abbrev admin_permissions : PermissionSet
admin_permissions organization = some (read ∷ (update ∷ []))
admin_permissions billing = some (read ∷ [])
admin_permissions r = all_permissions r

abbrev pub role_permissions : OrgRole → PermissionSet
role_permissions owner r = all_permissions r
role_permissions admin r = admin_permissions r
role_permissions manager r = manager_permissions r
role_permissions developer r = developer_permissions r
role_permissions viewer r = read_everything r

-- `isOrgRole`, with the role that the text names
abbrev pub parse_role : Text → Option OrgRole
parse_role text = find (λ r. text_eq (role_text r) text) org_roles

abbrev pub granted_all : Option (List Action) → List Action → Bool
granted_all none wanted = false
granted_all (some granted) wanted = all (λ a. any (same_action a) granted) wanted

unfoldable pub has_permission : Text → Resource → List Action → Bool
has_permission role resource wanted = elim (parse_role role) [
  | none ↦ false
  | some r ↦ granted_all (role_permissions r resource) wanted
]

unfoldable pub assignable_roles : Text → List OrgRole
assignable_roles actor_role =
    if text_eq actor_role (codes "owner")
    then org_roles
    else if text_eq actor_role (codes "admin")
    then admin ∷ (manager ∷ (developer ∷ (viewer ∷ [])))
    else if text_eq actor_role (codes "manager")
    then developer ∷ (viewer ∷ [])
    else []

abbrev pub any_scope : Text
any_scope = codes "*"

-- `${resource}:${action}`
abbrev pub scope_text : Text → Text → Text
scope_text resource action = resource ++ (codes ":" ++ action)

unfoldable pub scope_allows : List Text → Text → Text → Bool
scope_allows scopes resource action =
    any
      (λ s.
        text_eq s any_scope
        || (text_eq s (scope_text resource (codes "*")) || text_eq s (scope_text resource action)))
      scopes

unfoldable pub has_scope_permission : List Text → Resource → List Action → Bool
unfolding scope_allows
has_scope_permission scopes resource wanted =
    all (λ a. scope_allows scopes (resource_text resource) (action_text a)) wanted

-- What isValidScope does: it answers, or it throws.
pub data ScopeCheck : Type 0 where
  answers : Bool → ScopeCheck
  throws : ScopeCheck

-- `resource in permissionStatements` also holds for the names that objects inherit, which are a
-- parameter; under such a name there is no list of actions to search, and the search throws.
module _ (inherited : Text → Bool) where
  abbrev known_resource : Text → Option Resource
  known_resource text = find (λ r. text_eq (resource_text r) text) resources

  unfoldable pub check_action : Option Resource → Text → Text → ScopeCheck
  check_action (some r) resource action =
      if text_eq action (codes "*")
      then answers true
      else answers (any (λ a. text_eq (action_text a) action) (permission_statements r))
  check_action none resource action =
      if inherited resource
      then if text_eq action (codes "*") then answers true else throws
      else answers false

  unfoldable pub check_parts : Text → Text → ScopeCheck
  unfolding check_action
  check_parts resource action = check_action (known_resource resource) resource action

  -- the parts of the scope, with `!resource || !action` for the empty text
  unfoldable pub check_split : List Text → ScopeCheck
  unfolding check_parts
  check_split ((c ∷ resource) ∷ ((d ∷ action) ∷ [])) = check_parts (c ∷ resource) (d ∷ action)
  check_split _ = answers false

  unfoldable pub is_valid_scope : Text → ScopeCheck
  unfolding check_split
  is_valid_scope scope =
      if text_eq scope any_scope then answers true else check_split (split b':' scope)
