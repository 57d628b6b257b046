-- ===== src/Auth/Roles.antt =====
-- Who passes the roles guard.
use nest_microservices_tempo.Prelude.{
  ◌≡◌, ◌≢◌, ◌↔◌, refl, Bool, true, false, Option, none, some, List, if◌then◌else◌,
}
use nest_microservices_tempo.Errors.{Result, ok, err}
use nest_microservices_tempo.Auth.{
  UserRole, admin, staff, customer, JwtPayload, includes, has_role, no_role, not_permitted,
  roles_can_activate,
}

abbrev decided : Option UserRole → Bool → Result (Unit {0})
decided role included =
    if has_role role then (if included then ok tt else err not_permitted) else err no_role

decided_lem :
    (role : Option UserRole) (included : Bool)
    → (role ≡ none → included ≡ false)
    → (decided role included ≡ ok tt) ↔ ((role ≢ some admin) × (included ≡ true))
decided_lem none true h = cc (h refl)
decided_lem none false h = ((λ e. cc), (λ e. cc))
decided_lem (some admin) b h = ((λ e. cc), (λ (n, e). absurd (n refl)))
decided_lem (some staff) true h = ((λ e. ((λ q. cc), refl)), (λ e. refl))
decided_lem (some staff) false h = ((λ e. cc), (λ e. cc))
decided_lem (some customer) true h = ((λ e. ((λ q. cc), refl)), (λ e. refl))
decided_lem (some customer) false h = ((λ e. cc), (λ e. cc))

-- A request over HTTP to a route with required roles passes the guard exactly where its user has one
-- of them, and that one is not ADMIN.
pub roles_can_activate_lem :
    (required : List UserRole) (user : JwtPayload)
    → (roles_can_activate true (some required) (some user) ≡ ok tt)
      ↔ ((user.role ≢ some admin) × (includes required user.role ≡ true))
unfolding roles_can_activate
roles_can_activate_lem required user =
    decided_lem user.role (includes required user.role) (λ e. rw e refl)

-- An ADMIN is refused at every route with required roles, whichever they are, as having no role.
pub admin_refused :
    (required : List UserRole) (user : JwtPayload)
    → user.role ≡ some admin
    → roles_can_activate true (some required) (some user) ≡ err no_role
unfolding roles_can_activate
admin_refused required user e = rw e refl
