-- ===== src/Auth/Register/Fresh.antt =====
-- `register` and the identities that exist.
use learn_nestjs.Common.{◌∙◌, subst}
use learn_nestjs.Common.Results.{ok}
use learn_nestjs.Common.{
  ℕ, zero, suc, ◌+◌, ◌≡◌, inl, inr, refl, true, false, ◌||◌, Option, some, or_else, [], ◌++◌, arith,
  Bool-cases,
}
use learn_nestjs.Common.Text.{Text, codes, to_lower, trim}
use learn_nestjs.Common.Results.{ok, unless, bind-eq-ok}
use learn_nestjs.Database.{User}
use learn_nestjs.Auth.World.{Services, World, AuthContext, find_user}
use learn_nestjs.Auth.Users.{truthy, resolve_tenant_id, resolve_tenant_id_pure}
use learn_nestjs.Auth.Tokens.{print_number}
use learn_nestjs.Auth.Register.{
  slug_of, RegisterDto, Registered, identity_missing, is_duplicate, slugify, try_username,
  resolve_username, ensure_no_duplicate_identity, register,
}

is_duplicate_given :
    (mail tel username : Option Text) (u : User)
    → is_duplicate mail tel username u ≡ true
    → (truthy mail || truthy tel || truthy username) ≡ true
unfolding is_duplicate
is_duplicate_given mail tel username u h = ground arith

module _ (S : Services) where
  try_username_users :
      (n : ℕ) (base candidate : Text) (w : World S)
      → (try_username S n base candidate w).1.users ≡ w.users
  unfolding try_username
  try_username_users zero base candidate w = refl
  try_username_users (suc n) base candidate w = ground (
    arith,
    try_username_users n base (base ++ print_number (1000 + S.random_below 9000 w.draws))
        (record w { draws = w.draws + 1 }),
  )

  resolve_username_users :
      (provided : Option Text) (full_name : Text) (w : World S)
      → (resolve_username S provided full_name w).1.users ≡ w.users
  unfolding resolve_username slugify
  resolve_username_users provided full_name w =
      let given = to_lower (trim (or_else provided [])) in
      let slug = to_lower (slug_of full_name) in
      let made = to_lower (codes "user" ++ print_number (1000 + S.random_below 9000 w.draws)) in
      ground (
        arith,
        try_username_users 10 given given w,
        try_username_users 10 slug slug w,
        try_username_users 10 made made (record w { draws = w.draws + 1 }),
      )

  ensure_no_duplicate_identity_sound :
      (mail tel username : Option Text) (k : Text) (u : User) (w w' : World S)
      → find_user S k w ≡ some u
      → ensure_no_duplicate_identity S mail tel username w ≡ (ok tt, w')
      → is_duplicate mail tel username u ≡ false
  unfolding ensure_no_duplicate_identity
  ensure_no_duplicate_identity_sound mail tel username k u w w' found passed =
      elim (Bool-cases (is_duplicate mail tel username u)) [
        | inl held ↦ absurd (
            ground (
              arith,
              S.users.find_first_complete (is_duplicate mail tel username) k u w.users found held,
              is_duplicate_given mail tel username u,
            ))
        | inr free ↦ free
      ]

  -- `register` returns only where no account, of any tenant, had the email in lower case, the phone
  -- number or the user name that `resolveUsername` chose.
  pub register_fresh :
      (dto : RegisterDto) (ctx : AuthContext) (k : Text) (u : User) (r : Registered)
      (w w' : World S)
      → find_user S k w ≡ some u
      → register S dto ctx w ≡ (ok r, w')
      → (username : Text) × ((resolve_username S dto.username dto.full_name w).0 ≡ ok username)
        × (is_duplicate dto.email dto.phone (some username) u ≡ false)
  unfolding register
  register_fresh dto ctx k u r w w' found h =
      let asked = unless {S = World S} (truthy dto.email || truthy dto.phone) identity_missing in
      let (_, given, h1) = bind-eq-ok asked _ w h in
      let resolved = resolve_tenant_id S ctx.tenant_id ctx.tenant_domain in
      let (t, at_tenant, h2) = bind-eq-ok resolved _ (asked w).1 h1 in
      let w2 = (resolved (asked w).1).1 in
      let (name, chosen, h3) = bind-eq-ok (resolve_username S dto.username dto.full_name) _ w2 h2 in
      let w3 = (resolve_username S dto.username dto.full_name w2).1 in
      let (_, passed, h4) =
        bind-eq-ok (ensure_no_duplicate_identity S dto.email dto.phone (some name)) _ w3 h3 in
      let start : w2 ≡ w =
        resolve_tenant_id_pure S ctx.tenant_id ctx.tenant_domain (asked w).1 ∙ ground arith in
      let same : w3.users ≡ w.users = ground (
        arith,
        resolve_username_users dto.username dto.full_name w2,
        resolve_tenant_id_pure S ctx.tenant_id ctx.tenant_domain (asked w).1,
      ) in
      (
        name,
        subst (λ v. (resolve_username S dto.username dto.full_name v).0 ≡ ok name) start chosen,
        ensure_no_duplicate_identity_sound dto.email dto.phone (some name) k u w3
            (ensure_no_duplicate_identity S dto.email dto.phone (some name) w3).1
            (ground (arith, same)) (ground (arith, passed)),
      )
