-- ===== src/Auth/Otp/SingleUse.antt =====
-- What `verifyOtp` does with the stored code.
use learn_nestjs.Auth.OtpGuards.Limits.{assert_otp_not_blocked_pure}
use learn_nestjs.Common.{
  ◌≡◌, inl, inr, ap, subst, ◌∙◌, Option, none, some, or_else, or_option, arith, Option-cases,
}
use learn_nestjs.Common.Text.{Text, text_eq_refl, text_eq_iff, trim}
use learn_nestjs.Common.Results.{ok, continue, bind-eq-ok}
use learn_nestjs.Database.{User}
use learn_nestjs.Auth.Keys.{OtpPurpose, login, otp_key, otp_token_key}
use learn_nestjs.Auth.World.{Services, World, AuthContext, OtpPayload, cache_get}
use learn_nestjs.Auth.Users.{resolve_tenant_id_pure, resolve_tenant_id}
use learn_nestjs.Auth.OtpGuards.{assert_otp_not_blocked, clear_otp_guard_keys}
use learn_nestjs.Auth.Otp.{
  OtpVerifyDto, OtpVerified, find_stored_otp, delete_otp_payload, otp_user, finish_otp, accept_otp,
  judge_otp, code_matches, verify_otp,
}
use learn_nestjs.Auth.Keys.Distinct.{
  presence_key-ne-otp_key, presence_key-ne-otp_token_key, refresh_session_key-ne-otp_key,
  refresh_session_key-ne-otp_token_key, refresh_token_key-ne-otp_key,
  refresh_token_key-ne-otp_token_key,
}
use learn_nestjs.Auth.Otp.Frames.{Untouched-finish_otp}

-- Neither key of the code is left.
abbrev pub Spent : (S : Services) → OtpPayload → World S → Type 0
Spent S stored w =
    (cache_get S (otp_key stored.purpose stored.channel stored.identifier stored.tenant_id) w
      ≡ none)
    × (cache_get S (otp_token_key stored.token) w ≡ none)

module _ (S : Services) where
  delete_otp_payload-Spent :
      (stored : OtpPayload) (w : World S) → Spent S stored (delete_otp_payload S stored w).1
  unfolding delete_otp_payload
  delete_otp_payload-Spent stored w =
      let key = otp_key stored.purpose stored.channel stored.identifier stored.tenant_id in
      let token = otp_token_key stored.token in
      let first = S.cache.del key w.cache in
      ground (
        arith,
        S.cache.get-del token key first,
        S.cache.get-del token token first,
        S.cache.get-del key key w.cache,
        text_eq_refl key,
        text_eq_refl token,
      )

  finish_otp-Spent :
      (p : OtpPurpose) (stored : OtpPayload) (u : User) (i : Text) (t : Option Text)
      (ctx : AuthContext) (w : World S)
      → Spent S stored w
      → Spent S stored (finish_otp S p stored u i t ctx w).1
  finish_otp-Spent p stored u i t ctx w (gone, token_gone) = (
    (Untouched-finish_otp S _ (λ a. presence_key-ne-otp_key a _ _ _ _)
            (λ a h. refresh_session_key-ne-otp_key a h _ _ _ _)
            (λ a. refresh_token_key-ne-otp_key a _ _ _ _) p stored u i t ctx).at
          w
        ∙ gone,
    (Untouched-finish_otp S _ (λ a. presence_key-ne-otp_token_key a _)
            (λ a h. refresh_session_key-ne-otp_token_key a h _)
            (λ a. refresh_token_key-ne-otp_token_key a _) p stored u i t ctx).at
          w
        ∙ token_gone,
  )

  accept_otp-Spent :
      (stored : OtpPayload) (p : OtpPurpose) (i : Text) (t : Option Text) (ctx : AuthContext)
      (r : OtpVerified) (w : World S)
      → (accept_otp S stored p i t ctx w).0 ≡ ok r
      → Spent S stored (accept_otp S stored p i t ctx w).1
  unfolding accept_otp clear_otp_guard_keys delete_otp_payload
  accept_otp-Spent stored p i t ctx r w h =
      let cleared = (clear_otp_guard_keys S p i t w).1 in
      elim (Option-cases (otp_user S stored i t cleared)) [
        | inl missing ↦ absurd (ground arith)
        | inr (u, e) ↦
            rw (e, continue)
              (finish_otp-Spent stored.purpose stored u i t ctx
                (delete_otp_payload S stored cleared).1 (delete_otp_payload-Spent stored cleared))
      ]

  code_matches_sound :
      (o : Option OtpPayload) (code : Text) (stored : OtpPayload)
      → code_matches o code ≡ some stored
      → (o ≡ some stored) × (stored.code ≡ code)
  code_matches_sound none code stored h = cc
  code_matches_sound (some p) code stored h = ground (arith, text_eq_iff p.code code)

  judge_otp-Spent :
      (o : Option OtpPayload) (code : Text) (p : OtpPurpose) (i : Text) (t : Option Text)
      (ctx : AuthContext) (r : OtpVerified) (w w' : World S)
      → judge_otp S (code_matches o code) p i t ctx w ≡ (ok r, w')
      → (stored : OtpPayload) × (o ≡ some stored) × (stored.code ≡ code) × Spent S stored w'
  unfolding judge_otp
  judge_otp-Spent o code p i t ctx r w w' h = elim (Option-cases (code_matches o code)) [
    | inl wrong ↦ absurd (ground arith)
    | inr (stored, e) ↦
        let (found, right) = code_matches_sound o code stored e in
        let accepted : accept_otp S stored p i t ctx w ≡ (ok r, w') = ground arith in
        (
          stored,
          found,
          right,
          subst (Spent S stored) (ap (λ q. q.1) accepted)
              (accept_otp-Spent stored p i t ctx r w (ap (λ q. q.0) accepted)),
        )
  ]

  -- `verifyOtp` returns only for a code that equals the code of the request and is stored for the
  -- identifier and purpose of the request and the tenant that it resolves to, or under its token;
  -- after it neither key of the stored code is left in Redis, so the code cannot be used again.
  pub verify_otp-Spent :
      (dto : OtpVerifyDto) (ctx : AuthContext) (r : OtpVerified) (w w' : World S)
      → verify_otp S dto ctx w ≡ (ok r, w')
      → (tenant_id : Option Text) × (stored : OtpPayload) × ((resolve_tenant_id S
            (or_option dto.tenant_id ctx.tenant_id)
            ctx.tenant_domain
            w).0
          ≡ ok tenant_id)
        × (find_stored_otp S (trim dto.identifier) tenant_id (or_else dto.purpose login) dto.token w
            ≡ some stored)
        × (stored.code ≡ dto.code)
        × Spent S stored w'
  unfolding verify_otp
  verify_otp-Spent dto ctx r w w' h =
      let p = or_else dto.purpose login in
      let i = trim dto.identifier in
      let given = or_option dto.tenant_id ctx.tenant_id in
      let (t, resolved, h1) = bind-eq-ok (resolve_tenant_id S given ctx.tenant_domain) _ w h in
      let (_, open_otp, h2) = bind-eq-ok (assert_otp_not_blocked S p i t) _ _ h1 in
      let same : (assert_otp_not_blocked S p i t
            (resolve_tenant_id S given ctx.tenant_domain w).1).1
          ≡ w =
        assert_otp_not_blocked_pure S p i t _
        ∙ resolve_tenant_id_pure S given ctx.tenant_domain w in
      let judged : judge_otp S (code_matches (find_stored_otp S i t p dto.token w) dto.code) p i t
            ctx w
          ≡ (ok r, w') =
        subst
          (λ v.
            judge_otp S (code_matches (find_stored_otp S i t p dto.token v) dto.code) p i t ctx v
            ≡ (ok r, w'))
          same h2 in
      let (stored, found, right, spent) =
        judge_otp-Spent (find_stored_otp S i t p dto.token w) dto.code p i t ctx r w w' judged in
      (t, stored, resolved, found, right, spent)
