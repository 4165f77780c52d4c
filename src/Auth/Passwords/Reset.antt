-- ===== src/Auth/Passwords/Reset.antt =====
-- What a password reset does to the account and its sessions.
use learn_nestjs.Common.{
  ◌+◌, ◌≡◌, inl, inr, refl, subst, true, false, none, some, arith, Option-cases,
}
use learn_nestjs.Common.Text.{Text, text_eq_refl}
use learn_nestjs.Common.Results.{ok, err}
use learn_nestjs.Database.{User}
use learn_nestjs.Auth.Keys.{refresh_session_key}
use learn_nestjs.Auth.World.{Services, World, cache_get, find_user}
use learn_nestjs.Auth.Tokens.{revoke_user_sessions}
use learn_nestjs.Auth.Passwords.{
  hash_password, set_password, reset_password_by_token, has_reset_token, invalid_reset_token,
}
use learn_nestjs.Auth.Tokens.Revocation.{
  IsPlain, revoke_user_sessions_exact, revoke_user_sessions_result,
}

-- What `resetPassword` leaves of the account.
abbrev pub with_password : Text → User → User
with_password hashed u = record u {
  password = some hashed;
  password_reset_token = none;
  password_reset_expires = none;
}

module _ (S : Services) where
  revoke_user_sessions_users :
      (u : Text) (w : World S) → (revoke_user_sessions S u w).1.users ≡ w.users
  unfolding revoke_user_sessions
  revoke_user_sessions_users u w = refl

  set_password_lem :
      (u : User) (pw : Text) (w : World S)
      → find_user S u.id w ≡ some u
      → ((set_password S u pw w).0 ≡ ok tt)
        × (find_user S u.id (set_password S u pw w).1
            ≡ some (with_password (S.bcrypt_hash pw w.draws) u))
        × ((h : Text)
            → IsPlain u.id
            → cache_get S (refresh_session_key u.id h) (set_password S u pw w).1 ≡ none)
  unfolding set_password hash_password
  set_password_lem u pw w found =
      let change = with_password (S.bcrypt_hash pw w.draws) in
      let w1 : World S = record w {
        draws = w.draws + 1;
        users = S.users.update u.id change w.users;
      } in
      (
        ground (arith, revoke_user_sessions_result S u.id w1),
        ground (
          arith,
          revoke_user_sessions_users u.id w1,
          S.users.find_unique-update u.id change u w.users found refl,
        ),
        λ h plain.
            ground
              (arith, revoke_user_sessions_exact S u.id u.id h w1 plain plain, text_eq_refl u.id),
      )

  -- Where identifiers have no colon and no character of a pattern, `resetPassword` succeeds only with the unexpired reset token of an account. It then replaces
  -- the password of that account by the hash of the new one, takes its token away and ends all of
  -- its sessions.
  pub reset_password_sound :
      (token pw : Text) (w w' : World S)
      → ((u : User) → find_user S u.id w ≡ some u → IsPlain u.id)
      → reset_password_by_token S token pw w ≡ (ok tt, w')
      → (u : User) × (find_user S u.id w ≡ some u)
        × (has_reset_token token w.now u ≡ true)
        × (find_user S u.id w' ≡ some (with_password (S.bcrypt_hash pw w.draws) u))
        × ((h : Text) → cache_get S (refresh_session_key u.id h) w' ≡ none)
  unfolding reset_password_by_token
  reset_password_sound token pw w w' plain done =
      elim (Option-cases (S.users.find_first (has_reset_token token w.now) w.users)) [
        | inl missing ↦ absurd (ground arith)
        | inr (u, e) ↦
            let (live, found) =
              S.users.find_first_sound (has_reset_token token w.now) u w.users e in
            let (_, changed, ended) = set_password_lem u pw w found in
            let same : (set_password S u pw w).1 ≡ w' = ground arith in
            (
              u,
              found,
              live,
              subst (λ v. find_user S u.id v ≡ some (with_password (S.bcrypt_hash pw w.draws) u))
                  same changed,
              λ h.
                  subst (λ v. cache_get S (refresh_session_key u.id h) v ≡ none) same
                    (ended h (plain u found)),
            )
      ]

  -- `resetPassword` with the unexpired reset token of some account succeeds.
  pub reset_password_complete :
      (token pw k : Text) (u : User) (w : World S)
      → find_user S k w ≡ some u
      → has_reset_token token w.now u ≡ true
      → (reset_password_by_token S token pw w).0 ≡ ok tt
  unfolding reset_password_by_token
  reset_password_complete token pw k u w found live =
      let holds = has_reset_token token w.now in
      elim (Option-cases (S.users.find_first holds w.users)) [
        | inl missing ↦ absurd (S.users.find_first_complete holds k u w.users found live missing)
        | inr (v, e) ↦
            rw (e, reset_password_by_token)
              (set_password_lem v pw w (S.users.find_first_sound holds v w.users e).1).0
      ]

  -- Where no account has the token unexpired, `resetPassword` throws "Invalid or expired reset
  -- token" and changes nothing.
  pub reset_password_refused :
      (token pw : Text) (w : World S)
      → ((u : User) → find_user S u.id w ≡ some u → has_reset_token token w.now u ≡ false)
      → reset_password_by_token S token pw w ≡ (err invalid_reset_token, w)
  unfolding reset_password_by_token
  reset_password_refused token pw w dead =
      let holds = has_reset_token token w.now in
      elim (Option-cases (S.users.find_first holds w.users)) [
        | inl missing ↦ rw (missing, reset_password_by_token)
        | inr (v, e) ↦
            let (live, found) = S.users.find_first_sound holds v w.users e in
            absurd (ground (arith, dead v found))
      ]
