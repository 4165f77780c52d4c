-- ===== src/Storage/Paths.antt =====
-- `buildUploadPath` of src/modules/upload/utils/upload.util.ts, for `UploadService.resolveUploadPath`.
use learn_nestjs.Common.{
  ℕ, ◌≡◌, refl, ◌∙◌, Bool, true, false, not, ◌&&◌, ◌||◌, [], ◌∷◌, ◌++◌, if◌then◌else◌, ◌==◌, leb,
  arith,
}
use learn_nestjs.Common.Text.{Text, codes, trim}
use learn_nestjs.Common.Lists.{every, every-reverse}
use mathlib.Core.List.{reverse}

-- `[a-zA-Z0-9._-]`
unfoldable pub is_path_char : ℕ → Bool
is_path_char c =
    (leb b'a' c && leb c b'z')
    || (leb b'A' c && leb c b'Z')
    || (leb b'0' c && leb c b'9')
    || c == b'.'
    || c == b'_'
    || c == b'-'

-- `.replace(/[^a-zA-Z0-9._-]+/g, '-')` for the characters that pass the test; the first Boolean says that
-- the character before was replaced.
unfoldable pub dash_others : (ℕ → Bool) → Bool → Text → Text
dash_others keeps run [] = []
dash_others keeps run (c ∷ s) =
    let rest = dash_others keeps (not (keeps c)) s in
    if keeps c then c ∷ rest else if run then rest else b'-' ∷ rest

-- `.replace(/-+/g, '-')`
unfoldable pub single_dashes : Bool → Text → Text
single_dashes run [] = []
single_dashes run (c ∷ s) =
    let rest = single_dashes (c == b'-') s in if run && c == b'-' then rest else c ∷ rest

-- `.replace(/^[-.]+/, '')`
unfoldable pub strip_dots : Text → Text
strip_dots [] = []
strip_dots (c ∷ s) = let rest = strip_dots s in if c == b'-' || c == b'.' then rest else c ∷ s

unfoldable pub upload_name : Text → Text
unfolding dash_others single_dashes strip_dots trim
upload_name file_name = reverse (
    strip_dots (
      reverse (strip_dots (single_dashes false (dash_others is_path_char false (trim file_name))))))

unfoldable pub build_upload_path : Text → Text
unfolding upload_name
build_upload_path file_name = codes "/uploads/" ++ upload_name file_name

dash-is_path_char : is_path_char b'-' ≡ true
unfolding is_path_char
dash-is_path_char = refl

every-dash_others :
    (keeps : ℕ → Bool) (run : Bool) (s : Text)
    → keeps b'-' ≡ true
    → every keeps (dash_others keeps run s) ≡ true
unfolding dash_others every
every-dash_others keeps run [] h = refl
every-dash_others keeps run (c ∷ s) h = ground (arith, every-dash_others keeps (not (keeps c)) s h)

every-single_dashes :
    (run : Bool) (s : Text)
    → every is_path_char s ≡ true
    → every is_path_char (single_dashes run s) ≡ true
unfolding single_dashes every
every-single_dashes run [] h = refl
every-single_dashes run (c ∷ s) h = ground (arith, every-single_dashes (c == b'-') s)

every-strip_dots :
    (s : Text) → every is_path_char s ≡ true → every is_path_char (strip_dots s) ≡ true
unfolding strip_dots every
every-strip_dots [] h = refl
every-strip_dots (c ∷ s) h = ground (arith, every-strip_dots s)

-- Whatever the name of a file is: after `/uploads/` its path has letters, digits, dots, underscores and
-- dashes only, so no further slash.
pub every-upload_name : (file_name : Text) → every is_path_char (upload_name file_name) ≡ true
unfolding upload_name
every-upload_name file_name =
    let a = dash_others is_path_char false (trim file_name) in
    let b = strip_dots (single_dashes false a) in
    let good_b : every is_path_char b ≡ true = every-strip_dots (single_dashes false a) (
      every-single_dashes false a
        (every-dash_others is_path_char false (trim file_name) dash-is_path_char)) in
    every-reverse is_path_char (strip_dots (reverse b))
    ∙ every-strip_dots (reverse b) (every-reverse is_path_char b ∙ good_b)
