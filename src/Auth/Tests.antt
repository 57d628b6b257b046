-- ===== src/Auth/Tests.antt =====
-- A user of each kind at a guarded route.
use nest_microservices_tempo.Prelude.{◌≡◌, refl, true, some, List, [], ◌∷◌}
use nest_microservices_tempo.Errors.{err}
use nest_microservices_tempo.Auth.{UserRole, admin, staff, JwtPayload, no_role, roles_can_activate}
use nest_microservices_tempo.Auth.Roles.{admin_refused}

abbrev user_of : UserRole → JwtPayload
user_of r = record { user_id = 1; email = "a@b.c"; role = some r }

abbrev required : List UserRole
required = admin ∷ staff ∷ []

admin_refused_example : roles_can_activate true (some required) (some (user_of admin)) ≡ err no_role
admin_refused_example = admin_refused required (user_of admin) refl
