-- ===== src/Authorization/Tests.antt =====
-- The theorems on the permission matrix for a few users.
use talenttrust_backend.Prelude.{◌≡◌, refl, ◌↔◌, ◌⊎◌, Bool, true, some, none, get}
use talenttrust_backend.Authorization.{
  User, is_inherited, is_authorized, permission_matrix, flat_permission_list, flat_permissions,
  action_permissions, role_permissions, owned_by_other, resource_not_registered,
}
use talenttrust_backend.Authorization.Decision.{
  unlisted_action, is_authorized-listed, find_permission, Satisfied,
}

abbrev ada : User
ada = record { id = "u1"; email = "ada@example.com"; role = "admin" }

abbrev bob : User
bob = record { id = "u2"; email = "bob@example.com"; role = "client" }

other_owner : (is_authorized bob "jobs" "delete" (some "u1")).reason ≡ owned_by_other
unfolding is_authorized permission_matrix get
other_owner = refl

unregistered : (is_authorized ada "secrets" "read" none).reason ≡ resource_not_registered "secrets"
unfolding is_authorized permission_matrix get
unregistered = refl

own_job : find_permission "client" "jobs" "delete" flat_permission_list ≡ some true
unfolding find_permission flat_permission_list flat_permissions action_permissions role_permissions
    permission_matrix
own_job = refl

-- A role that is no role, but the name of a method of every object, is granted to owners.
abbrev eve : User
eve = record { id = "u3"; email = "eve@example.com"; role = "toString" }

inherited_granted : (is_authorized eve "jobs" "create" (some "u3")).granted ≡ true
unfolding is_authorized permission_matrix get is_inherited
inherited_granted = refl

abbrev Expected : User → Type 0
Expected u = ((is_authorized u "jobs" "delete" (some u.id)).granted ≡ true) ↔ (
    ((own_only : Bool) × (find_permission u.role "jobs" "delete" flat_permission_list
        ≡ some own_only)
      × Satisfied u (some u.id) own_only)
    ⊎ ((unlisted_action u.role "delete" (get "jobs" permission_matrix) ≡ true)
        × (some u.id ≡ some u.id)))

is_authorized-listed_example : Expected bob
unfolding is_inherited
is_authorized-listed_example = is_authorized-listed bob "jobs" "delete" (some "u2") refl refl
