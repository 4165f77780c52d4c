-- ===== src/Auth/Otp/Frames.antt =====
-- What the handlers leave untouched in Redis.
use learn_nestjs.Common.{
  ℕ, ◌+◌, ◌/◌, ◌≡◌, refl, Bool, true, false, Option, some, List, [], ◌∷◌, String, arith,
}
use learn_nestjs.Common.Text.{Text, codes, text_eq}
use learn_nestjs.Common.Results.{Exec, return, gets}
use learn_nestjs.Redis.Driver.{Stored, text}
use learn_nestjs.Database.{User}
use learn_nestjs.Auth.Keys.{
  OtpPurpose, login, account_verification, password_reset, refresh_session_key, refresh_token_key,
  presence_key, channel_text,
}
use learn_nestjs.Auth.World.{
  Services, World, AuthContext, OtpPayload, Payload, cache_get, cache_set, cache_del, update_user,
  generate_secure_token, audit,
}
use learn_nestjs.Auth.Users.{assert_user_can_authenticate}
use learn_nestjs.Auth.Tokens.{issue_tokens, touch_presence}
use learn_nestjs.Common.Frames.{Keeps, Keeps-unless, Keeps-bind}
use learn_nestjs.Auth.Otp.{
  verified, reset_allowed, logged_in, password_reset_token_ttl_ms, mark_verified,
  get_safe_user_by_id, finish_verification, finish_reset, finish_login, finish_otp,
}

-- `m` leaves what is stored under `key` as it was.
abbrev pub Untouched : (S : Services) {A : Type 0} → Text → Exec (World S) A → Type 0
Untouched S key m = Keeps (cache_get S key) m

module _ (S : Services) (key : Text) where
  Untouched-set :
      (k : Text) (v : Stored Payload) (n : ℕ)
      → text_eq k key ≡ false
      → Untouched S key (cache_set S k v n)
  Untouched-set k v n ne = record { at = λ w. ground (arith, S.cache.get-set k key v n w.cache) }

  Untouched-del : (k : Text) → text_eq k key ≡ false → Untouched S key (cache_del S k)
  Untouched-del k ne = record { at = λ w. ground (arith, S.cache.get-del k key w.cache) }

  Untouched-update : (id : Text) (f : User → User) → Untouched S key (update_user S id f)
  Untouched-update id f = record { at = λ w. ground arith }

  Untouched-audit :
      (a : String) (u t : Option Text) (d : List (String × Text)) (ctx : AuthContext)
      → Untouched S key (audit S a u t d ctx)
  unfolding audit
  Untouched-audit a u t d ctx = record { at = λ w. ground arith }

  Untouched-get_safe : (u : Text) → Untouched S key (get_safe_user_by_id S u)
  unfolding get_safe_user_by_id
  Untouched-get_safe u = record { at = λ w. ground arith }

  module _ (presence : (u : Text) → text_eq (presence_key u) key ≡ false)
      (sessions : (u h : Text) → text_eq (refresh_session_key u h) key ≡ false)
      (tokens : (u : Text) → text_eq (refresh_token_key u) key ≡ false) where
    Untouched-issue_tokens :
        (u : Text) (t : Option Text) (ctx : AuthContext) → Untouched S key (issue_tokens S u t ctx)
    unfolding issue_tokens
    Untouched-issue_tokens u t ctx = record { at = λ w. simp (S.cache.get-set, tokens, sessions) }

    Untouched-touch_presence :
        (u : Text) (online : Bool) → Untouched S key (touch_presence S u online)
    unfolding touch_presence
    Untouched-touch_presence u true =
        Keeps-bind (update_user S u (λ r. record r { is_online = true })) _
          (Untouched-update u (λ r. record r { is_online = true }))
          (λ _. Untouched-set (presence_key u) (text (codes "true")) 120 (presence u))
    Untouched-touch_presence u false = record {
      at = λ w. ground (arith, S.cache.get-del (presence_key u) key w.cache, presence u);
    }

    Untouched-finish_login :
        (u : User) (t : Option Text) (m : String) (i : Text) (ctx : AuthContext)
        → Untouched S key (finish_login S u t m i ctx)
    unfolding finish_login
    Untouched-finish_login u t m i ctx =
        Keeps-bind (touch_presence S u.id true) _ (Untouched-touch_presence u.id true) λ _.
          Keeps-bind (issue_tokens S u.id t ctx) _ (Untouched-issue_tokens u.id t ctx) λ tokens.
            Keeps-bind
              (audit S "auth.user.login" (some u.id) t
                (("method", codes m) ∷ ("identifier", i) ∷ []) ctx)
              _ (Untouched-audit _ _ _ _ _)
              λ _.
                Keeps-bind (get_safe_user_by_id S u.id) (λ safe. return (safe, tokens))
                  (Untouched-get_safe u.id) λ safe. record { at = λ w. refl }

    pub Untouched-finish_otp :
        (p : OtpPurpose) (stored : OtpPayload) (u : User) (i : Text) (t : Option Text)
        (ctx : AuthContext)
        → Untouched S key (finish_otp S p stored u i t ctx)
    unfolding finish_otp finish_verification finish_reset assert_user_can_authenticate
    Untouched-finish_otp account_verification stored u i t ctx =
        Keeps-bind (update_user S u.id (mark_verified stored.channel)) _ (Untouched-update _ _) λ _.
          Keeps-bind
            (audit S "auth.user.verified" (some u.id) t
              (("channel", channel_text stored.channel) ∷ ("method", codes "otp") ∷ []) ctx)
            (λ _. return (verified stored.channel)) (Untouched-audit _ _ _ _ _)
            λ _. record { at = λ w. refl }
    Untouched-finish_otp password_reset stored u i t ctx =
        Keeps-bind (generate_secure_token S) _ (record { at = λ w. refl })
          λ token.
            Keeps-bind (gets (λ (w : World S). w.now)) _ (record { at = λ w. refl })
              λ now.
                Keeps-bind
                  (update_user S u.id (λ r. record r {
                    password_reset_token = some token;
                    password_reset_expires = some (now + password_reset_token_ttl_ms);
                  }))
                  _ (Untouched-update _ _)
                  λ _.
                    Keeps-bind
                      (audit S "auth.password.reset.otp_verified" (some u.id) t
                        (("channel", channel_text stored.channel) ∷ []) ctx)
                      (λ _. return (reset_allowed token (password_reset_token_ttl_ms / 1000)))
                      (Untouched-audit _ _ _ _ _) λ _. record { at = λ w. refl }
    Untouched-finish_otp login stored u i t ctx =
        Keeps-bind (assert_user_can_authenticate S u) _ (Keeps-unless _ _) λ _.
          Keeps-bind (finish_login S u t "otp" i ctx) (λ done. return (logged_in done.0 done.1))
            (Untouched-finish_login u t "otp" i ctx) λ _. record { at = λ w. refl }
