-- ===== src/Authorization.antt =====
-- lib/authorization.ts: the permission matrix and the decision on a request. The matrix is a table
-- of tables by resource, action and role, as the source's nested objects are. Names that reach the
-- decision are text, since callers may cast them from input. A role may be a name that every
-- JavaScript object inherits; what a resource or an action of such a name finds is not modelled, and
-- the theorems ask that they are none. The warnings that are logged on a denial are left out.
pub mod Decision
mod Tests
use talenttrust_backend.Prelude.{
  String, Bool, true, false, ◌||◌, Option, none, some, List, [], ◌∷◌, ◌++◌, Table, get, str_eq,
  if◌then◌else◌,
}

-- `false`, `true` and `{ ownOnly: true }`
pub data CellValue : Type 0 where
  deny : CellValue
  allow : CellValue
  own : CellValue

abbrev pub RoleCells : Type 0
RoleCells = Table CellValue

abbrev pub PermissionMatrix : Type 0
PermissionMatrix = Table (Table RoleCells)

abbrev cells : CellValue → CellValue → CellValue → CellValue → RoleCells
cells admin auditor client freelancer =
    ("admin", admin) ∷ ("auditor", auditor) ∷ ("client", client) ∷ ("freelancer", freelancer) ∷ []

abbrev actions : RoleCells → RoleCells → RoleCells → RoleCells → RoleCells → Table RoleCells
actions create read update delete listed =
    ("create", create)
    ∷ ("read", read)
    ∷ ("update", update)
    ∷ ("delete", delete)
    ∷ ("list", listed)
    ∷ []

unfoldable pub permission_matrix : PermissionMatrix
permission_matrix =
    (
      "users",
      actions (cells allow deny deny deny) (cells allow allow deny deny)
          (cells allow deny deny deny) (cells allow deny deny deny) (cells allow allow deny deny),
    )
    ∷ (
      "jobs",
      actions (cells allow deny allow deny) (cells allow allow allow allow)
          (cells allow deny own deny) (cells allow deny own deny) (cells allow allow allow allow),
    )
    ∷ (
      "proposals",
      actions (cells allow deny deny allow) (cells allow allow own own) (cells allow deny deny own)
          (cells allow deny deny own) (cells allow allow own own),
    )
    ∷ (
      "contracts",
      actions (cells allow deny allow deny) (cells allow allow own own) (cells allow deny own own)
          (cells allow deny deny deny) (cells allow allow own own),
    )
    ∷ (
      "payments",
      actions (cells allow deny allow deny) (cells allow allow own own) (cells allow deny deny deny)
          (cells allow deny deny deny) (cells allow allow own own),
    )
    ∷ (
      "reviews",
      actions (cells allow deny allow allow) (cells allow allow allow allow)
          (cells allow deny own own) (cells allow deny deny deny) (cells allow allow allow allow),
    )
    ∷ (
      "reports",
      actions (cells allow deny deny deny) (cells allow allow deny deny)
          (cells allow deny deny deny) (cells allow deny deny deny) (cells allow allow deny deny),
    )
    ∷ (
      "settings",
      actions (cells allow deny deny deny) (cells allow allow own own) (cells allow deny own own)
          (cells allow deny deny deny) (cells allow allow deny deny),
    )
    ∷ (
      "disputes",
      actions (cells allow deny allow allow) (cells allow allow own own) (cells allow deny own deny)
          (cells allow deny deny deny) (cells allow allow own own),
    )
    ∷ ("health", ("read", cells allow allow allow allow) ∷ [])
    ∷ []

unfoldable pub is_valid_role : String → Bool
is_valid_role s =
    str_eq s "admin" || (str_eq s "auditor" || (str_eq s "client" || str_eq s "freelancer"))

pub record User : Type 0 where
  pub id : String
  pub email : String
  pub role : String

-- The reasons of the source, in its order; the texts that quote names carry them.
pub data Reason : Type 0 where
  resource_not_registered : String → Reason
  action_not_registered : String → String → Reason
  role_not_registered : String → Reason
  role_may_not : String → String → String → Reason
  permission_granted : Reason
  admin_bypass : Reason
  ownership_not_verified : Reason
  owned_by_other : Reason
  owner_granted : Reason

pub record AuthorizationResult : Type 0 where
  pub granted : Bool
  pub reason : Reason

abbrev answer : Bool → Reason → AuthorizationResult
answer granted reason = record { granted = granted; reason = reason }

abbrev check_owner : String → Option String → AuthorizationResult
check_owner user_id none = answer false ownership_not_verified
check_owner user_id (some owner) =
    if str_eq owner user_id then answer true owner_granted else answer false owned_by_other

-- The names of the properties that every JavaScript object inherits.
unfoldable pub is_inherited : String → Bool
is_inherited s =
    str_eq s "constructor"
    || (str_eq s "hasOwnProperty"
        || (str_eq s "isPrototypeOf"
            || (str_eq s "propertyIsEnumerable"
                || (str_eq s "toLocaleString"
                    || (str_eq s "toString"
                        || (str_eq s "valueOf"
                            || (str_eq s "__proto__"
                                || (str_eq s "__defineGetter__"
                                    || (str_eq s "__defineSetter__"
                                        || (str_eq s "__lookupGetter__"
                                            || str_eq s "__lookupSetter__"))))))))))

-- What a role finds in the cells. An inherited name finds a function or an object, which is neither
-- true nor false, and so is treated as `own` is.
abbrev pub cell_or : Bool → Option CellValue → Option CellValue
cell_or inherited (some c) = some c
cell_or true none = some own
cell_or false none = none

abbrev pub check_cell :
    User → String → String → Option String → Option CellValue → AuthorizationResult
check_cell u resource action owner none = answer false (role_not_registered u.role)
check_cell u resource action owner (some deny) = answer false (role_may_not u.role action resource)
check_cell u resource action owner (some allow) = answer true permission_granted
check_cell u resource action owner (some own) =
    if str_eq u.role "admin" then answer true admin_bypass else check_owner u.id owner

abbrev pub check_roles :
    User → String → String → Option String → Option RoleCells → AuthorizationResult
check_roles u resource action owner none = answer false (action_not_registered action resource)
check_roles u resource action owner (some roles) =
    check_cell u resource action owner (cell_or (is_inherited u.role) (get u.role roles))

abbrev pub check_actions :
    User → String → String → Option String → Option (Table RoleCells) → AuthorizationResult
check_actions u resource action owner none = answer false (resource_not_registered resource)
check_actions u resource action owner (some entry) =
    check_roles u resource action owner (get action entry)

-- The decision over a matrix; `isAuthorized` takes the one above.
abbrev pub decide : PermissionMatrix → User → String → String → Option String → AuthorizationResult
decide matrix u resource action owner = check_actions u resource action owner (get resource matrix)

unfoldable pub is_authorized : User → String → String → Option String → AuthorizationResult
is_authorized u resource action owner = decide permission_matrix u resource action owner

pub record Permission : Type 0 where
  pub role : String
  pub resource : String
  pub action : String
  pub own_only : Bool

-- `Object.entries(roles).filter(cell !== false).map(...)`
unfoldable pub role_permissions : String → String → RoleCells → List Permission
role_permissions resource action [] = []
role_permissions resource action ((role, deny) ∷ roles) = role_permissions resource action roles
role_permissions resource action ((role, allow) ∷ roles) =
    record { role = role; resource = resource; action = action; own_only = false }
    ∷ role_permissions resource action roles
role_permissions resource action ((role, own) ∷ roles) =
    record { role = role; resource = resource; action = action; own_only = true }
    ∷ role_permissions resource action roles

unfoldable pub action_permissions : String → Table RoleCells → List Permission
unfolding role_permissions
action_permissions resource [] = []
action_permissions resource ((action, roles) ∷ rest) =
    role_permissions resource action roles ++ action_permissions resource rest

unfoldable pub flat_permissions : PermissionMatrix → List Permission
unfolding action_permissions
flat_permissions [] = []
flat_permissions ((resource, entry) ∷ rest) =
    action_permissions resource entry ++ flat_permissions rest

unfoldable pub flat_permission_list : List Permission
unfolding flat_permissions permission_matrix
flat_permission_list = flat_permissions permission_matrix
