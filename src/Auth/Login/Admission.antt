-- ===== src/Auth/Login/Admission.antt =====
-- Which accounts `login` lets in.
use learn_nestjs.Common.{
  ◌≡◌, refl, ap, subst, ◌∙◌, true, false, Option, none, some, or_else, [], String, arith,
}
use learn_nestjs.Common.Text.{Text}
use learn_nestjs.Common.Results.{Result, Exec, return, ◌>>=◌, ok, is_ok, unless, bind-eq-ok}
use learn_nestjs.Database.{User}
use learn_nestjs.Auth.Keys.{login}
use learn_nestjs.Auth.World.{Services, World, AuthContext, OtpPayload, find_user, audit}
use learn_nestjs.Auth.Users.{
  resolve_tenant_id_pure, truthy, is_banned, is_unverified, resolve_tenant_id,
  find_user_by_identifier, assert_user_can_authenticate,
}
use learn_nestjs.Auth.Tokens.{TokenPair, issue_tokens, touch_presence}
use learn_nestjs.Auth.Tokens.Issued.{IssuedTo, IssuedTo-from, finish_login-IssuedTo}
use learn_nestjs.Auth.OtpGuards.{enforce_login_rate_limit}
use learn_nestjs.Auth.Otp.{SafeUser, get_safe_user_by_id, finish_login, finish_otp}
use learn_nestjs.Auth.Login.{
  LoginDto, LoggedIn, by_password, enter_by_password, login_with_password, dispatch_login,
  login_user, password_required,
}

-- What `login` by password demands of an account.
pub record MayLogIn (S : Services) (password : Text) (u : User) : Type 0 where
  pub has_password : truthy u.password ≡ true
  pub right_password : S.bcrypt_compare password (or_else u.password []) ≡ true
  pub not_banned : is_banned u.status ≡ false
  pub is_verified : is_unverified u ≡ false

-- The answer of a login by password names the user, and its tokens are issued to the user.
pub record AnswersFor (S : Services) (u : User) (t : Option Text) (r : LoggedIn) (w w' : World S)
    : Type 0 where
  pub safe : SafeUser
  pub tokens : TokenPair
  pub answer : r ≡ by_password safe tokens
  pub same_user : safe.id ≡ u.id
  pub issued : IssuedTo S u.id t tokens w w'

pair_of : {A B : Type 0} (q : Result A × B) (a : A) (b : B) → q.0 ≡ ok a → q.1 ≡ b → q ≡ (ok a, b)
pair_of q a b e f = cc

module _ (S : Services) where
  enter_by_password_may :
      (u : User) (password : Text) (dto : LoginDto) (t : Option Text) (ctx : AuthContext)
      (r : LoggedIn) (w w' : World S)
      → enter_by_password S (some u) password dto t ctx w ≡ (ok r, w')
      → MayLogIn S password u
  unfolding enter_by_password assert_user_can_authenticate
  enter_by_password_may u password dto t ctx r w w' h = record {
    has_password = ground arith;
    right_password = ground arith;
    not_banned = ground arith;
    is_verified = ground arith;
  }

  enter_by_password_done :
      (u : User) (password : Text) (dto : LoginDto) (t : Option Text) (ctx : AuthContext)
      (r : LoggedIn) (w w' : World S)
      → MayLogIn S password u
      → enter_by_password S (some u) password dto t ctx w ≡ (ok r, w')
      → (done : SafeUser × TokenPair) × (finish_login S u t "password" dto.identifier ctx w
          ≡ (ok done, w'))
        × (r ≡ by_password done.0 done.1)
  unfolding enter_by_password assert_user_can_authenticate
  enter_by_password_done u password dto t ctx r w w' may h =
      let rest : Exec (World S) LoggedIn = (do
        done ← finish_login S u t "password" dto.identifier ctx
        return (by_password done.0 done.1)) in
      let passed : rest w ≡ (ok r, w') =
        subst (λ m. m ≡ (ok r, w'))
          (rw (may.has_password, may.right_password, may.not_banned, may.is_verified)) h in
      let (done, e, returned) =
        bind-eq-ok (finish_login S u t "password" dto.identifier ctx)
          (λ done. return (by_password done.0 done.1)) w passed in
      let last : (finish_login S u t "password" dto.identifier ctx w).1 ≡ w' =
        ap (λ q. q.1) returned in
      let answer : r ≡ by_password done.0 done.1 = ground (arith, ap (λ q. q.0) returned) in
      (done, pair_of _ done w' e last, answer)

  -- A password login that gets past the account's checks is for an account that meets them, and
  -- answers for it.
  enter_by_password_sound :
      (found : Option User) (password : Text) (dto : LoginDto) (t : Option Text) (ctx : AuthContext)
      (r : LoggedIn) (w w' : World S)
      → enter_by_password S found password dto t ctx w ≡ (ok r, w')
      → (u : User) × (found ≡ some u) × MayLogIn S password u × AnswersFor S u t r w w'
  unfolding enter_by_password
  enter_by_password_sound none password dto t ctx r w w' h = cc
  enter_by_password_sound (some u) password dto t ctx r w w' h =
      let may = enter_by_password_may u password dto t ctx r w w' h in
      let (done, finished, answer) = enter_by_password_done u password dto t ctx r w w' may h in
      let (same_user, issued) =
        finish_login-IssuedTo S u t "password" dto.identifier ctx done.0 done.1 w w' finished in
      (
        u,
        refl,
        may,
        record {
          safe = done.0;
          tokens = done.1;
          answer = answer;
          same_user = same_user;
          issued = issued;
        },
      )

  enforce_login_rate_limit_users :
      (i : Text) (t : Option Text) (w : World S)
      → (enforce_login_rate_limit S i t w).1.users ≡ w.users
  unfolding enforce_login_rate_limit
  enforce_login_rate_limit_users i t w = ground arith

  enforce_login_rate_limit_now :
      (i : Text) (t : Option Text) (w : World S) → (enforce_login_rate_limit S i t w).1.now ≡ w.now
  unfolding enforce_login_rate_limit
  enforce_login_rate_limit_now i t w = ground arith

  login_with_password_sound :
      (dto : LoginDto) (ctx : AuthContext) (r : LoggedIn) (w w' : World S)
      → login_with_password S dto ctx w ≡ (ok r, w')
      → (t : Option Text) × (u : User) × (find_user_by_identifier S dto.identifier t w ≡ some u)
        × (truthy dto.password ≡ true)
        × MayLogIn S (or_else dto.password []) u
        × AnswersFor S u t r w w'
  unfolding login_with_password
  login_with_password_sound dto ctx r w w' h =
      let asked = unless {S = World S} (truthy dto.password) password_required in
      let (_, given, h1) = bind-eq-ok asked _ w h in
      let (t, resolved, h2) =
        bind-eq-ok (resolve_tenant_id S ctx.tenant_id ctx.tenant_domain) _ (asked w).1 h1 in
      let same : (resolve_tenant_id S ctx.tenant_id ctx.tenant_domain (asked w).1).1 ≡ w =
        resolve_tenant_id_pure S ctx.tenant_id ctx.tenant_domain (asked w).1 ∙ ground arith in
      let entered : enter_by_password S (find_user_by_identifier S dto.identifier t w)
            (or_else dto.password []) dto t ctx w
          ≡ (ok r, w') =
        subst
          (λ v.
            enter_by_password S (find_user_by_identifier S dto.identifier t v)
              (or_else dto.password []) dto t ctx v
            ≡ (ok r, w'))
          same h2 in
      let (u, found, may, answers) = enter_by_password_sound _ _ dto t ctx r w w' entered in
      (t, u, found, ground arith, may, answers)

  -- A login by password returns only for an account that the identifier finds in some tenant, with
  -- a password set that the given one matches, not banned, and not waiting for its verification.
  -- The user of the answer is that account, and the two tokens of the answer are signed for it and
  -- the tenant at the time of the request; the refresh token is the one stored for it.
  pub login_user_sound :
      (dto : LoginDto) (ctx : AuthContext) (r : LoggedIn) (w w' : World S)
      → truthy dto.provider ≡ false
      → truthy dto.code ≡ false
      → login_user S dto ctx w ≡ (ok r, w')
      → (t : Option Text) × (u : User) × (find_user_by_identifier S dto.identifier t w ≡ some u)
        × (truthy dto.password ≡ true)
        × MayLogIn S (or_else dto.password []) u
        × AnswersFor S u t r w w'
  unfolding login_user dispatch_login find_user_by_identifier
  login_user_sound dto ctx r w w' no_provider no_code h =
      let limited = enforce_login_rate_limit S dto.identifier ctx.tenant_id in
      let (_, passed, h1) = bind-eq-ok limited _ w h in
      let entered : login_with_password S dto ctx (limited w).1 ≡ (ok r, w') =
        subst (λ a. dispatch_login S a false dto ctx (limited w).1 ≡ (ok r, w')) no_provider
          (subst (λ b. dispatch_login S (truthy dto.provider) b dto ctx (limited w).1 ≡ (ok r, w'))
            no_code h1) in
      let (t, u, found, given, may, answers) =
        login_with_password_sound dto ctx r (limited w).1 w' entered in
      (
        t,
        u,
        ground (arith, enforce_login_rate_limit_users dto.identifier ctx.tenant_id w),
        given,
        may,
        record {
          safe = answers.safe;
          tokens = answers.tokens;
          answer = answers.answer;
          same_user = answers.same_user;
          issued =
              IssuedTo-from S u.id t answers.tokens (limited w).1 w w'
                (enforce_login_rate_limit_now dto.identifier ctx.tenant_id w) answers.issued;
        },
      )

  finish_login-is_ok :
      (u : User) (t : Option Text) (m : String) (i : Text) (ctx : AuthContext) (w : World S)
      → find_user S u.id w ≡ some u
      → is_ok (finish_login S u t m i ctx w).0 ≡ true
  unfolding finish_login touch_presence issue_tokens audit get_safe_user_by_id
  finish_login-is_ok u t m i ctx w found = ground (
    arith,
    found,
    S.users.find_unique-update u.id (λ r. record r { is_online = true }) u w.users found refl,
  )

  -- A login by a code that was accepted succeeds for a banned account: unlike the login by
  -- password it never looks at the ban.
  pub finish_otp_banned :
      (stored : OtpPayload) (u : User) (i : Text) (t : Option Text) (ctx : AuthContext)
      (w : World S)
      → is_banned u.status ≡ true
      → find_user S u.id w ≡ some u
      → is_ok (finish_otp S login stored u i t ctx w).0 ≡ true
  unfolding finish_otp assert_user_can_authenticate
  finish_otp_banned stored u i t ctx w ban found =
      ground (arith, finish_login-is_ok u t "otp" i ctx w found)
