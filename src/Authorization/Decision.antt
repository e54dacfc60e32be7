-- ===== src/Authorization/Decision.antt =====
-- lib/authorization.ts: the decision against the flat list of permissions derived from the matrix.
use talenttrust_backend.Prelude.{
  String, Bool, true, false, not, is_some, ◌&&◌, Option, none, some, List, [], ◌∷◌, ◌++◌, Table,
  get, IsMap, All, str_eq, if◌then◌else◌, ◌≡◌, refl, ◌⊎◌, inl, inr, ◌↔◌, arith, eq_iff, eq_refl,
  Bool-cases, Option-cases,
}
use talenttrust_backend.Authorization.{
  CellValue, deny, allow, own, RoleCells, PermissionMatrix, permission_matrix, User, Permission,
  is_authorized, role_permissions, action_permissions, flat_permissions, flat_permission_list,
  check_actions, check_cell, cell_or, is_inherited,
}

-- The permission that a list grants first for a role, resource and action: whether it is for the
-- owner only.
unfoldable pub find_permission : String → String → String → List Permission → Option Bool
find_permission role resource action [] = none
find_permission role resource action (p ∷ ps) =
    let rest = find_permission role resource action ps in
    if str_eq p.resource resource && (str_eq p.action action && str_eq p.role role)
    then some p.own_only
    else rest

abbrev first_of : Option Bool → Option Bool → Option Bool
first_of none b = b
first_of (some a) b = some a

first_of-none : (o : Option Bool) → first_of o none ≡ o
first_of-none none = refl
first_of-none (some b) = refl

find-append :
    (role resource action : String) (ps qs : List Permission)
    → find_permission role resource action (ps ++ qs)
      ≡ first_of (find_permission role resource action ps) (find_permission role resource action qs)
unfolding find_permission
find-append role resource action [] qs = refl
find-append role resource action (p ∷ ps) qs =
    ground (arith, find-append role resource action ps qs)

-- What the cells say: nothing granted, granted, or granted to the owner.
abbrev pub cell_permission : Option CellValue → Option Bool
cell_permission none = none
cell_permission (some deny) = none
cell_permission (some allow) = some false
cell_permission (some own) = some true

abbrev pub role_permission : String → Option RoleCells → Option Bool
role_permission role none = none
role_permission role (some roles) = cell_permission (get role roles)

abbrev pub action_permission : String → String → Option (Table RoleCells) → Option Bool
action_permission role action none = none
action_permission role action (some entry) = role_permission role (get action entry)

find-role_permissions :
    (role resource action : String) (roles : RoleCells)
    → IsMap roles
    → find_permission role resource action (role_permissions resource action roles)
      ≡ cell_permission (get role roles)
unfolding find_permission role_permissions get
find-role_permissions role resource action [] h = refl
find-role_permissions role resource action ((j, deny) ∷ roles) (p, h) =
    ground (arith, find-role_permissions role resource action roles h, eq_iff j role)
find-role_permissions role resource action ((j, allow) ∷ roles) (p, h) =
    ground
      (arith, find-role_permissions role resource action roles h, eq_refl resource, eq_refl action)
find-role_permissions role resource action ((j, own) ∷ roles) (p, h) =
    ground
      (arith, find-role_permissions role resource action roles h, eq_refl resource, eq_refl action)

find-role_permissions_other :
    (role resource action r a : String) (roles : RoleCells)
    → (str_eq r resource && str_eq a action) ≡ false
    → find_permission role resource action (role_permissions r a roles) ≡ none
unfolding find_permission role_permissions
find-role_permissions_other role resource action r a [] h = refl
find-role_permissions_other role resource action r a ((j, deny) ∷ roles) h =
    find-role_permissions_other role resource action r a roles h
find-role_permissions_other role resource action r a ((j, allow) ∷ roles) h =
    ground (arith, find-role_permissions_other role resource action r a roles h)
find-role_permissions_other role resource action r a ((j, own) ∷ roles) h =
    ground (arith, find-role_permissions_other role resource action r a roles h)

-- The roles of every action are a map, and the actions of every resource.
abbrev pub RolesAreMaps : Table RoleCells → Type 0
RolesAreMaps entry = IsMap entry × All (λ e. IsMap e.1) entry

abbrev pub IsMatrix : PermissionMatrix → Type 0
IsMatrix matrix = IsMap matrix × All (λ e. RolesAreMaps e.1) matrix

find-action_permissions :
    (role resource action : String) (entry : Table RoleCells)
    → IsMap entry
    → All (λ e. IsMap e.1) entry
    → find_permission role resource action (action_permissions resource entry)
      ≡ role_permission role (get action entry)
unfolding find_permission action_permissions get
find-action_permissions role resource action [] h q = refl
find-action_permissions role resource action ((j, roles) ∷ rest) (p, h) (u, q) =
    elim (Bool-cases (str_eq j action)) [
      | inl same ↦
          let e : j ≡ action = (eq_iff j action).0 same in
          let here : find_permission role resource action (role_permissions resource j roles)
              ≡ cell_permission (get role roles) =
            rw e (find-role_permissions role resource action roles u) in
          let absent : get action rest ≡ none = rw e at p in
          let later = find-action_permissions role resource action rest h q in
          rw (find-append, here, later, same, absent)
            (first_of-none (cell_permission (get role roles)))
      | inr other ↦
          let elsewhere =
            find-role_permissions_other role resource action resource j roles
              (ground (arith, other)) in
          rw (find-append, elsewhere, other) (find-action_permissions role resource action rest h q)
    ]

find-action_permissions_other :
    (role resource action r : String) (entry : Table RoleCells)
    → str_eq r resource ≡ false
    → find_permission role resource action (action_permissions r entry) ≡ none
unfolding find_permission action_permissions
find-action_permissions_other role resource action r [] h = refl
find-action_permissions_other role resource action r ((a, roles) ∷ rest) h =
    let here = find-role_permissions_other role resource action r a roles (ground (arith, h)) in
    rw (find-append, here) (find-action_permissions_other role resource action r rest h)

find-flat_permissions :
    (role resource action : String) (matrix : PermissionMatrix)
    → IsMap matrix
    → All (λ e. RolesAreMaps e.1) matrix
    → find_permission role resource action (flat_permissions matrix)
      ≡ action_permission role action (get resource matrix)
unfolding find_permission flat_permissions get
find-flat_permissions role resource action [] h q = refl
find-flat_permissions role resource action ((j, entry) ∷ rest) (p, h) ((u, w), q) =
    elim (Bool-cases (str_eq j resource)) [
      | inl same ↦
          let e : j ≡ resource = (eq_iff j resource).0 same in
          let here : find_permission role resource action (action_permissions j entry)
              ≡ role_permission role (get action entry) =
            rw e (find-action_permissions role resource action entry u w) in
          let absent : get resource rest ≡ none = rw e at p in
          let later = find-flat_permissions role resource action rest h q in
          rw (find-append, here, later, same, absent)
            (first_of-none (role_permission role (get action entry)))
      | inr other ↦
          rw (find-append, find-action_permissions_other role resource action j entry other, other)
            (find-flat_permissions role resource action rest h q)
    ]

permission_matrix-IsMatrix : IsMatrix permission_matrix
unfolding permission_matrix get
permission_matrix-IsMatrix = ground arith

-- What the decision needs of a permission: it is not for owners only, or the caller is an admin,
-- or the caller owns the record.
abbrev pub Satisfied : User → Option String → Bool → Type 0
Satisfied u owner own_only = (own_only ≡ false) ⊎ ((u.role ≡ "admin") ⊎ (owner ≡ some u.id))

own-granted :
    (u : User) (resource action : String) (owner : Option String)
    → ((check_cell u resource action owner (some own)).granted ≡ true)
      ↔ ((u.role ≡ "admin") ⊎ (owner ≡ some u.id))
own-granted u resource action none = ground (arith, eq_iff u.role "admin")
own-granted u resource action (some o) = ground (arith, eq_iff u.role "admin", eq_iff o u.id)

check_cell-granted :
    (u : User) (resource action : String) (owner : Option String) (c : Option CellValue)
    → ((check_cell u resource action owner c).granted ≡ true)
      ↔ ((own_only : Bool) × (cell_permission c ≡ some own_only) × Satisfied u owner own_only)
check_cell-granted u resource action owner none = ground arith
check_cell-granted u resource action owner (some deny) = ground arith
check_cell-granted u resource action owner (some allow) = (λ h. (false, refl, inl refl), λ h. refl)
check_cell-granted u resource action owner (some own) =
    let (forth, back) = own-granted u resource action owner in
    (
      λ h. (true, refl, inr (forth h)),
      λ (b, e, s). elim s [ inl any ↦ cc (e, any) | inr owned ↦ back owned ],
    )

-- Whether a role is an inherited name that is not among the cells.
abbrev unlisted_role : String → Option RoleCells → Bool
unlisted_role role none = false
unlisted_role role (some roles) = is_inherited role && not (is_some (get role roles))

-- Whether a role is such a name for an action of a resource's table.
abbrev pub unlisted_action : String → String → Option (Table RoleCells) → Bool
unlisted_action role action none = false
unlisted_action role action (some entry) = unlisted_role role (get action entry)

inherited_no_admin : (role : String) → is_inherited role ≡ true → ¬ (role ≡ "admin")
unfolding is_inherited
inherited_no_admin role h e = cc (rw e at h)

-- What is granted: by a permission, or to an owner of an inherited role.
abbrev pub Granted : User → Option String → Option Bool → Bool → Type 0
Granted u owner permission unlisted =
    ((own_only : Bool) × (permission ≡ some own_only) × Satisfied u owner own_only)
    ⊎ ((unlisted ≡ true) × (owner ≡ some u.id))

check_role-granted :
    (u : User) (resource action : String) (owner : Option String) (roles : RoleCells)
    → ((check_cell u resource action owner
          (cell_or (is_inherited u.role) (get u.role roles))).granted
        ≡ true)
      ↔ Granted u owner (cell_permission (get u.role roles)) (unlisted_role u.role (some roles))
check_role-granted u resource action owner roles = elim (Option-cases (get u.role roles)) [
  | inr (c, found) ↦
      let (forth, back) = check_cell-granted u resource action owner (some c) in
      rw found (
        λ h. inl (forth h),
        λ g. elim g [
          | inl listed ↦ back listed
          | inr (unlisted, owned) ↦ absurd (no_both (is_inherited u.role) unlisted)
        ],
      )
  | inl missing ↦ elim (Bool-cases (is_inherited u.role)) [
    | inr plain ↦ rw (missing, plain) (ground arith)
    | inl inherited ↦
        let (forth, back) = own-granted u resource action owner in
        rw (missing, inherited)
          (
            λ h. inr (
              refl,
              elim (forth h) [
                | inl admin ↦ absurd (inherited_no_admin u.role inherited admin)
                | inr owned ↦ owned
              ],
            ),
            λ g. elim g [
              | inl (own_only, none_listed, satisfied) ↦ cc none_listed
              | inr (_, owned) ↦ back (inr owned)
            ],
          )
  ]
]
  where
    no_both : (b : Bool) → ¬ ((b && false) ≡ true)
    no_both true h = cc h
    no_both false h = cc h

check_actions-granted :
    (u : User) (resource action : String) (owner : Option String) (o : Option (Table RoleCells))
    → ((check_actions u resource action owner o).granted ≡ true)
      ↔ Granted u owner (action_permission u.role action o) (unlisted_action u.role action o)
check_actions-granted u resource action owner none = ground arith
check_actions-granted u resource action owner (some entry) =
    elim (Option-cases (get action entry)) [
      | inl missing ↦ rw missing (ground arith)
      | inr (roles, found) ↦ rw found (check_role-granted u resource action owner roles)
    ]

-- A request, for a resource and an action whose names no object inherits, is granted if and only if
-- either the flat list of permissions, in which the first entry for the role, resource and action
-- counts, has one for it, and this is not for owners only, or the caller is an admin, or the
-- caller's id is that of the owner given; or the caller's role is a name that every object
-- inherits, such as toString, which the matrix does not list for that action of that resource, and
-- the caller's id is that of the owner given. So whatever is not in the matrix is denied, but for
-- owners of such a role.
pub is_authorized-listed :
    (u : User) (resource action : String) (owner : Option String)
    → is_inherited resource ≡ false
    → is_inherited action ≡ false
    → ((is_authorized u resource action owner).granted ≡ true) ↔ (
        ((own_only : Bool) × (find_permission u.role resource action flat_permission_list
            ≡ some own_only)
          × Satisfied u owner own_only)
        ⊎ ((unlisted_action u.role action (get resource permission_matrix) ≡ true)
            × (owner ≡ some u.id)))
unfolding is_authorized flat_permission_list
is_authorized-listed u resource action owner plain_resource plain_action =
    let (h, q) = permission_matrix-IsMatrix in
    rw (find-flat_permissions u.role resource action permission_matrix h q)
      (check_actions-granted u resource action owner (get resource permission_matrix))
