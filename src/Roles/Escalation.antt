-- ===== src/Roles/Escalation.antt =====
-- What the open routes of the roles give to a user.
use learn_nestjs.Common.{◌≡◌, Bool, true, some, List}
use learn_nestjs.Common.Text.{Text, text_eq}
use learn_nestjs.Common.Lists.{any}
use learn_nestjs.Database.{Role, AppRole, UserRole, Permission}
use learn_nestjs.Auth.World.{Services, World}
use learn_nestjs.Auth.Tokens.{role_text}

-- Roles are the same.
abbrev pub same_role : Role → Role → Bool
same_role r q = text_eq (role_text r) (role_text q)

abbrev pub names_role : Role → Role × List Permission → Bool
names_role name g = same_role g.0 name

-- What the query of `buildAuthorizationClaims` is documented to include: the role of each link of the user.
abbrev pub IncludesLinks : Services → Type 0
IncludesLinks S =
    (id : Text) (links : S.user_roles.State) (roles : S.app_roles.State) (link : UserRole)
    (role : AppRole)
    → S.user_roles.find_unique link.id links ≡ some link
    → link.user_id ≡ id
    → S.app_roles.find_unique link.role_id roles ≡ some role
    → any (names_role role.name) (S.grants id roles links).roles ≡ true
