-- ===== src/User/Tests.antt =====
-- A registration with a hash that is no secret, and the theorem at it.
use text.Mathlib.Text.{◌==◌ as str_eq}
use text.Mathlib.TextEquality.{eq_iff}
use nest_microservices_tempo.Prelude.{String, ◌≡◌, refl, true, [], ◌==◌, if◌then◌else◌}
use nest_microservices_tempo.Errors.{ok, err}
use nest_microservices_tempo.User.{
  RegisterUserDto, Crypto, invalid_credentials, register_user, login_user,
}
use nest_microservices_tempo.User.Login.{login-register}

-- A token tells whether it was made at the start.
abbrev crypto : Crypto
crypto = record {
  hash = λ salt p. p;
  compare = λ p h. str_eq p h;
  sign = λ now payload. if now == 0 then payload.email else "later";
}

matches : (salt p : String) → crypto.compare p (crypto.hash salt p) ≡ true
matches salt p = (eq_iff p p).1 refl

abbrev ann : RegisterUserDto
ann = record { email = "ann@b.c"; password = "secret"; first_name = "Ann"; last_name = "B" }

login-register_example :
    let (r, t') = register_user crypto 0 1 "salt" ann [] in
    (r ≡ ok "ann@b.c")
    × (login_user crypto 5 "ann@b.c" "secret" t' ≡ ok "later")
    × (login_user crypto 5 "ann@b.c" "guess" t' ≡ err invalid_credentials)
login-register_example = login-register crypto matches 1 "salt" ann [] 0 5 "guess" refl refl
