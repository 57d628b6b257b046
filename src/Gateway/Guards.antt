-- ===== src/Gateway/Guards.antt =====
-- The guards of every route (the providers of apps/api-gateway/src/api-gateway.module.ts), in their
-- order: ThrottlerGuard, JwtAuthGuard and RolesGuard of libs/auth/src/guard. What the throttler answers
-- where it is not skipped, and what Passport makes of the token, are parts of the request.
mod Tests
use nest_microservices_tempo.Prelude.{
  ℕ, String, ◌≡◌, ◌≢◌, ◌↔◌, refl, subst, ◌⊎◌, inl, inr, Bool, true, false, ◌||◌, Option, none, some,
  List, if◌then◌else◌,
}
use text.Mathlib.Text.{◌==◌ as str_eq, find? as index_of}
use nest_microservices_tempo.Errors.{Result, ok, err, ◌>>=◌}
use nest_microservices_tempo.Auth.{
  UserRole, JwtPayload, Info, admin, includes, roles_can_activate, jwt_can_activate, handle_request,
}
use nest_microservices_tempo.Auth.Roles.{roles_can_activate_lem}

pub record Request : Type 0 where
  pub url : String
  pub is_public : Bool
  pub required_roles : Option (List UserRole)
  pub throttler : Result (Unit {0})
  pub has_err : Bool
  pub payload : Option JwtPayload
  pub info : Info

-- `url.includes('/metrics')`
unfoldable pub has_metrics_url : String → Bool
has_metrics_url url = elim (index_of url "/metrics") [ none ↦ false | some _ ↦ true ]

-- The throttler's `skipIf`.
unfoldable pub skip_if : String → Bool
skip_if url = str_eq url "/health" || has_metrics_url url

abbrev pub authenticated : Request → Result JwtPayload
authenticated r = (handle_request r.has_err r.payload r.info none).0

abbrev pub is_skipped : Request → Bool
is_skipped r = has_metrics_url r.url || r.is_public

-- `request.user`, which Passport sets where the token is looked at.
abbrev pub request_user : Request → Option JwtPayload
request_user r =
    if is_skipped r then none else elim (authenticated r) [ ok u ↦ some u | err _ ↦ none ]

-- The first guard that throws ends the request.
unfoldable pub guards : Request → Result (Unit {0})
guards r = do
  _ ← if skip_if r.url then ok tt else r.throttler
  _ ← jwt_can_activate true (has_metrics_url r.url) r.is_public (authenticated r >>= λ _. ok tt)
  roles_can_activate true r.required_roles (request_user r)

-- A token that Passport accepts.
abbrev pub HasToken : Request → JwtPayload → Type 0
HasToken r u = (r.has_err ≡ false) × (r.payload ≡ some u)

abbrev pub IsPermitted : JwtPayload → Option (List UserRole) → Type 0
IsPermitted u none = Unit
IsPermitted u (some roles) = (u.role ≢ some admin) × (includes roles u.role ≡ true)

abbrev pub IsLet : Request → Type 0
IsLet r =
    ((skip_if r.url ≡ true) ⊎ (r.throttler ≡ ok tt))
    × (((is_skipped r ≡ true) × (r.required_roles ≡ none))
        ⊎ ((u : JwtPayload) × (is_skipped r ≡ false)
            × HasToken r u
            × IsPermitted u r.required_roles))

throttled :
    (skip : Bool) (t k : Result (Unit {0}))
    → ((if skip then ok tt else t) >>= (λ _. k) ≡ ok tt)
      ↔ (((skip ≡ true) ⊎ (t ≡ ok tt)) × (k ≡ ok tt))
throttled true t k = ((λ e. (inl refl, e)), (λ (_, e). e))
throttled false (ok _) k = ((λ e. (inr refl, e)), (λ (_, e). e))
throttled false (err z) k = ((λ e. cc), (λ (h, _). elim h [ inl e ↦ cc | inr e ↦ cc ]))

abbrev user_of : Bool → Result JwtPayload → Option JwtPayload
user_of skipped a = if skipped then none else elim a [ ok u ↦ some u | err _ ↦ none ]

abbrev after_throttler :
    Bool → Bool → Option JwtPayload → Info → Option (List UserRole) → Result (Unit {0})
after_throttler skipped e p info required =
    let a = (handle_request e p info none).0 in
    (if skipped then ok tt else a >>= λ _. ok tt) >>= λ _.
    roles_can_activate true required (user_of skipped a)

abbrev IsIn : Bool → Bool → Option JwtPayload → Option (List UserRole) → Type 0
IsIn skipped e p required =
    ((skipped ≡ true) × (required ≡ none))
    ⊎ ((u : JwtPayload) × (skipped ≡ false) × ((e ≡ false) × (p ≡ some u)) × IsPermitted u required)

is_in :
    (skipped e : Bool) (p : Option JwtPayload) (info : Info) (required : Option (List UserRole))
    → (after_throttler skipped e p info required ≡ ok tt) ↔ IsIn skipped e p required
unfolding roles_can_activate handle_request
is_in true e p info none = ((λ _. inl (refl, refl)), (λ _. refl))
is_in true e p info (some roles) =
    ((λ h. cc), (λ h. elim h [ inl (_, n) ↦ cc | inr (_, n, _, _) ↦ cc ]))
is_in false true p info required =
    ((λ h. cc), (λ h. elim h [ inl (n, _) ↦ cc | inr (_, _, (n, _), _) ↦ cc ]))
is_in false false none info required =
    ((λ h. cc), (λ h. elim h [ inl (n, _) ↦ cc | inr (_, _, (_, n), _) ↦ cc ]))
is_in false false (some u) info none = ((λ _. inr (u, refl, (refl, refl), tt)), (λ _. refl))
is_in false false (some u) info (some roles) =
    let (there, back) = roles_can_activate_lem roles u in
    (
      (λ h. inr (u, refl, (refl, refl), there h)),
      (λ h. elim h [
        | inl (n, _) ↦ cc
        | inr (w, _, (_, same), permitted) ↦
            let is : w ≡ u = cc in back (subst (λ z. IsPermitted z (some roles)) is permitted)
      ]),
    )

-- A request reaches its handler exactly where the throttler lets it through or is skipped, and either
-- its URL contains /metrics or its route is public, and no roles are required; or Passport accepts its
-- token, and the user has one of the required roles, if there are any, other than ADMIN.
pub guards_lem : (r : Request) → (guards r ≡ ok tt) ↔ IsLet r
unfolding guards jwt_can_activate
guards_lem r =
    let (there, back) =
      throttled (skip_if r.url) r.throttler
        (after_throttler (is_skipped r) r.has_err r.payload r.info r.required_roles) in
    let (into, out) = is_in (is_skipped r) r.has_err r.payload r.info r.required_roles in
    ((λ e. let (h, k) = there e in (h, into k)), (λ (h, k). back (h, out k)))
