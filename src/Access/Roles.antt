-- ===== src/Access/Roles.antt =====
-- The roles and permissions of src/common/constants/permissions.ts.
use desk_be.Common.{String, List, [], ◌∷◌, map, get_or, lookup}

pub data OrgPermission : Type 0 where
  org_settings_manage org_settings_view org_delete billing_manage billing_view : OrgPermission
  subscription_cancel users_manage users_view workspaces_manage workspaces_view : OrgPermission

-- The string values of the enum.
abbrev pub org_value : OrgPermission → String
org_value org_settings_manage = "org:settings:manage"
org_value org_settings_view = "org:settings:view"
org_value org_delete = "org:delete"
org_value billing_manage = "org:billing:manage"
org_value billing_view = "org:billing:view"
org_value subscription_cancel = "org:subscription:cancel"
org_value users_manage = "org:users:manage"
org_value users_view = "org:users:view"
org_value workspaces_manage = "org:workspaces:manage"
org_value workspaces_view = "org:workspaces:view"

-- `Object.values(OrgPermission)`
abbrev pub all_org_permissions : List OrgPermission
all_org_permissions =
    org_settings_manage ∷ org_settings_view ∷ org_delete ∷ billing_manage ∷ billing_view
    ∷ subscription_cancel ∷ users_manage ∷ users_view ∷ workspaces_manage ∷ workspaces_view ∷ []

-- `ORG_ROLE_PERMISSIONS`, keyed by the role's string
abbrev pub org_role_permissions : List (String × List OrgPermission)
org_role_permissions =
    ("ORG_ADMIN", all_org_permissions)
    ∷ (
      "ORG_BILLING_ADMIN",
      org_settings_view ∷ billing_manage ∷ billing_view ∷ users_view ∷ workspaces_view ∷ [],
    )
    ∷ (
      "ORG_USER_ADMIN",
      org_settings_view ∷ billing_view ∷ users_manage ∷ users_view ∷ workspaces_manage
          ∷ workspaces_view ∷ [],
    )
    ∷ ("ORG_MEMBER", [])
    ∷ []

pub data WorkspacePermission : Type 0 where
  dashboard_view contacts_view contacts_manage messages_view messages_send : WorkspacePermission
  shortcuts_use shortcuts_manage broadcasts_view broadcasts_send : WorkspacePermission
  reports_view settings_view settings_manage settings_limited profile_manage : WorkspacePermission
  notifications_manage teams_manage workflows_view workflows_manage : WorkspacePermission
  channels_manage files_access ai_agents_view ai_agents_manage : WorkspacePermission

abbrev pub ws_value : WorkspacePermission → String
ws_value dashboard_view = "ws:dashboard:view"
ws_value contacts_view = "ws:contacts:view"
ws_value contacts_manage = "ws:contacts:manage"
ws_value messages_view = "ws:messages:view"
ws_value messages_send = "ws:messages:send"
ws_value shortcuts_use = "ws:shortcuts:use"
ws_value shortcuts_manage = "ws:shortcuts:manage"
ws_value broadcasts_view = "ws:broadcasts:view"
ws_value broadcasts_send = "ws:broadcasts:send"
ws_value reports_view = "ws:reports:view"
ws_value settings_view = "ws:settings:view"
ws_value settings_manage = "ws:settings:manage"
ws_value settings_limited = "ws:settings:limited"
ws_value profile_manage = "ws:profile:manage"
ws_value notifications_manage = "ws:notifications:manage"
ws_value teams_manage = "ws:teams:manage"
ws_value workflows_view = "ws:workflows:view"
ws_value workflows_manage = "ws:workflows:manage"
ws_value channels_manage = "ws:channels:manage"
ws_value files_access = "ws:files:access"
ws_value ai_agents_view = "ws:ai-agents:view"
ws_value ai_agents_manage = "ws:ai-agents:manage"

-- `Object.values(WorkspacePermission)`
abbrev pub all_ws_permissions : List WorkspacePermission
all_ws_permissions =
    dashboard_view ∷ contacts_view ∷ contacts_manage ∷ messages_view ∷ messages_send ∷ shortcuts_use
    ∷ shortcuts_manage ∷ broadcasts_view ∷ broadcasts_send ∷ reports_view ∷ settings_view
    ∷ settings_manage ∷ settings_limited ∷ profile_manage ∷ notifications_manage ∷ teams_manage
    ∷ workflows_view ∷ workflows_manage ∷ channels_manage ∷ files_access ∷ ai_agents_view
    ∷ ai_agents_manage ∷ []

-- `WS_ROLE_PERMISSIONS`
abbrev pub ws_role_permissions : List (String × List WorkspacePermission)
ws_role_permissions =
    ("WS_OWNER", all_ws_permissions)
    ∷ (
      "WS_MANAGER",
      dashboard_view ∷ contacts_view ∷ contacts_manage ∷ messages_view ∷ messages_send
          ∷ shortcuts_use ∷ shortcuts_manage ∷ broadcasts_view ∷ broadcasts_send ∷ reports_view
          ∷ settings_view ∷ settings_limited ∷ profile_manage ∷ notifications_manage
          ∷ workflows_view ∷ ai_agents_view ∷ ai_agents_manage ∷ files_access ∷ [],
    )
    ∷ (
      "WS_AGENT",
      messages_view ∷ messages_send ∷ shortcuts_use ∷ ai_agents_view ∷ profile_manage
          ∷ notifications_manage ∷ [],
    )
    ∷ []

-- `ORG_ROLE_PERMISSIONS[role] ?? []`, as strings, and the same for a workspace role
unfoldable pub org_granted : String → List String
org_granted role = map org_value (get_or (lookup role org_role_permissions) [])

unfoldable pub ws_granted : String → List String
ws_granted role = map ws_value (get_or (lookup role ws_role_permissions) [])
