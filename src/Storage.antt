-- ===== src/Storage.antt =====
-- `StorageService` of src/shared/storage.service.ts: uploads on the local disk and their removal.
--
-- The disk and the functions of `path` are parameters. A key is the path of a file below the
-- directory of the uploads. Creating the directories at start is left out.
pub mod Uploads
pub mod Paths
use learn_nestjs.Common.{
  ℕ, ◌+◌, ◌-◌, ◌/◌, ◌^◌, ◌≡◌, Bool, not, ◌&&◌, ◌||◌, Option, none, some, List, [], ◌∷◌, ◌++◌, map,
  if◌then◌else◌, ◌==◌, leb,
}
use learn_nestjs.Common.Text.{Text, codes, text_eq, is_empty, to_lower, starts_with, drop}
use learn_nestjs.Common.Lists.{contains}
use learn_nestjs.Common.Results.{
  Failure, Exec, ok, err, bad_request, unsupported_media_type, internal_server_error, return,
  unless, ◌>>=◌, ◌>>◌,
}
use learn_nestjs.Redis.Driver.{text}
use learn_nestjs.Auth.OtpGuards.Limits.{after}
use learn_nestjs.Common.Maps.{keys}

pub record MulterFile : Type 0 where
  pub originalname : Text
  pub mimetype : Text
  pub size : ℕ

pub record UploadedFile : Type 0 where
  pub url : Text
  pub name : Text
  pub mime_type : Text
  pub size : ℕ
  pub key : Text

-- Files by their paths. `write` answers `none` where it throws.
pub record Disk : Type 1 where
  pub State : Type 0
  pub write : Text → MulterFile → State → Option State
  pub unlink : Text → State → State
  pub exists : Text → State → Bool
  pub exists-write :
      (p q : Text) (f : MulterFile) (s t : State)
      → write p f s ≡ some t
      → exists q t ≡ (text_eq p q || exists q s)
  pub exists-unlink :
      (p q : Text) (s : State) → exists q (unlink p s) ≡ (not (text_eq p q) && exists q s)

pub record Storage : Type 1 where
  pub upload_dir : Text
  pub max_file_size : ℕ
  pub disk : Disk
  -- `path.join`, `path.extname`, `path.posix.normalize` and `uuidv4()`
  pub join : Text → Text → Text
  pub extname : Text → Text
  pub normalize : Text → Text
  pub uuid : ℕ → Text

-- The disk, and the count of the identifiers drawn.
pub record StorageState (S : Storage) : Type 0 where
  pub disk : S.disk.State
  pub draws : ℕ

abbrev pub allowed_image_types : List Text
allowed_image_types =
    codes "image/jpeg" ∷ codes "image/png" ∷ codes "image/gif" ∷ codes "image/webp" ∷ []

abbrev pub allowed_video_types : List Text
allowed_video_types = codes "video/mp4" ∷ codes "video/webm" ∷ codes "video/quicktime" ∷ []

abbrev pub allowed_audio_types : List Text
allowed_audio_types = codes "audio/mpeg" ∷ codes "audio/ogg" ∷ codes "audio/wav" ∷ []

abbrev pub allowed_doc_types : List Text
allowed_doc_types = codes "application/pdf" ∷ codes "text/plain" ∷ []

abbrev pub all_allowed_types : List Text
all_allowed_types =
    allowed_image_types ++ allowed_video_types ++ allowed_audio_types ++ allowed_doc_types

unfoldable pub get_category : Text → Text
get_category mime_type =
    if contains allowed_image_types mime_type
    then codes "images"
    else if contains allowed_video_types mime_type
    then codes "videos"
    else if contains allowed_audio_types mime_type
    then codes "audio"
    else codes "documents"

abbrev pub file_too_large : Failure
file_too_large = bad_request "File too large"

abbrev pub type_not_allowed : Failure
type_not_allowed = unsupported_media_type "File type not allowed"

abbrev pub avatar_type : Failure
avatar_type = unsupported_media_type "Avatar must be JPEG, PNG, GIF or WebP"

-- What `[^/]+` leaves: nothing of the host.
unfoldable pub drop_host : Text → Text
drop_host [] = []
drop_host (x ∷ xs) = let rest = drop_host xs in if x == b'/' then x ∷ xs else rest

-- `[^/]+` after the scheme wants one character at least.
abbrev pub host_dropped : Text → Text → Text
host_dropped s [] = s
host_dropped s (x ∷ xs) = if x == b'/' then s else drop_host (x ∷ xs)

-- `.replace(/^https?:\/\/[^/]+/i, '')`
unfoldable pub strip_host : Text → Text
unfolding starts_with drop to_lower drop_host
strip_host s =
    if starts_with (to_lower s) (codes "https://")
    then host_dropped s (drop 8 s)
    else if starts_with (to_lower s) (codes "http://")
    then host_dropped s (drop 7 s)
    else s

-- `.replace(/^\/+/, '')`
unfoldable pub strip_slashes : Text → Text
strip_slashes [] = []
strip_slashes (x ∷ xs) = let rest = strip_slashes xs in if x == b'/' then rest else x ∷ xs

-- `.replace(/^uploads\//i, '')`, with the separator
unfoldable pub strip_uploads : ℕ → Text → Text
unfolding starts_with drop to_lower
strip_uploads separator s =
    if starts_with (to_lower s) (codes "uploads" ++ separator ∷ []) then drop 8 s else s

abbrev pub slash : ℕ → ℕ
slash c = if c == b'\\' then b'/' else c

-- `.replace(/\\/g, '/')`
abbrev pub forward : Text → Text
forward = map slash

-- The key in a key or URL: `resolveUploadKey`, and what `normalizeKey` starts with.
unfoldable pub resolve_upload_key : Text → Text
unfolding strip_host strip_slashes strip_uploads
resolve_upload_key value =
    forward (strip_uploads b'\\' (strip_uploads b'/' (strip_slashes (strip_host value))))

-- `[folder, filename].filter(Boolean).join('/')`
abbrev pub join_parts : Text → Text → Text
join_parts [] filename = filename
join_parts (x ∷ folder) [] = x ∷ folder
join_parts (x ∷ folder) (y ∷ filename) = (x ∷ folder) ++ b'/' ∷ y ∷ filename

module _ (S : Storage) where
  unfoldable pub normalize_key : Text → Text
  unfolding resolve_upload_key starts_with text_eq
  normalize_key key_or_url =
      let normalized = S.normalize (resolve_upload_key key_or_url) in
      if is_empty normalized
        || text_eq normalized (codes ".")
        || starts_with normalized (codes "..")
      then []
      else normalized

  unfoldable pub upload_to_local : MulterFile → Text → Exec (StorageState S) UploadedFile
  upload_to_local file folder w =
      let filename = S.uuid w.draws ++ to_lower (S.extname file.originalname) in
      let key = forward (join_parts folder filename) in
      elim (S.disk.write (S.join S.upload_dir key) file w.disk) [
        | none ↦ (err (internal_server_error "write"), record w { draws = w.draws + 1 })
        | some disk ↦ (
          ok (record {
            url = codes "/uploads/" ++ key;
            name = file.originalname;
            mime_type = file.mimetype;
            size = file.size;
            key = key;
          }),
          record w { disk = disk; draws = w.draws + 1 },
        )
      ]

  unfoldable pub validate_file : MulterFile → Exec (StorageState S) Unit
  unfolding contains
  validate_file file = do
    unless (leb file.size S.max_file_size) file_too_large
    unless (contains all_allowed_types file.mimetype) type_not_allowed

  abbrev pub folder_of : Text → Text → Text
  folder_of [] mime_type = get_category mime_type
  folder_of (x ∷ subfolder) mime_type = x ∷ subfolder

  unfoldable pub upload_file : MulterFile → Text → Exec (StorageState S) UploadedFile
  unfolding get_category validate_file upload_to_local
  upload_file file subfolder = do
    validate_file file
    upload_to_local file (folder_of subfolder file.mimetype)

  unfoldable pub upload_files : List MulterFile → Text → Exec (StorageState S) (List UploadedFile)
  upload_files [] subfolder = return []
  upload_files (file ∷ files) subfolder = do
    uploaded ← upload_file file subfolder
    rest ← upload_files files subfolder
    return (uploaded ∷ rest)

  unfoldable pub upload_avatar : MulterFile → Exec (StorageState S) Text
  upload_avatar file = do
    unless (contains allowed_image_types file.mimetype) avatar_type
    result ← upload_to_local file (codes "avatars")
    return result.url

  -- A failure of `unlink` is logged and swallowed.
  unfoldable pub delete_file : Text → StorageState S → StorageState S
  unfolding normalize_key
  delete_file key_or_url w =
      let key = normalize_key key_or_url in
      if is_empty key then w else record w { disk = S.disk.unlink (S.join S.upload_dir key) w.disk }

  unfoldable pub delete_files : List Text → StorageState S → StorageState S
  delete_files [] w = w
  delete_files (key ∷ keys) w = delete_files keys (if is_empty key then w else delete_file key w)
