-- ===== src/Storage/Uploads.antt =====
-- The keys of uploads, from the upload to the removal.
use learn_nestjs.Common.{
  ◌≡◌, inl, inr, refl, true, false, not, ◌&&◌, some, [], ◌∷◌, ◌++◌, arith, Bool-cases, Option-cases,
}
use learn_nestjs.Common.Text.{Text, codes, text_eq, text_eq_refl, is_empty, to_lower, starts_with}
use learn_nestjs.Common.Lists.{contains}
use learn_nestjs.Common.Results.{ok}
use learn_nestjs.Storage.{
  allowed_audio_types, allowed_video_types, allowed_image_types, MulterFile, UploadedFile, Storage,
  StorageState, get_category, forward, resolve_upload_key, join_parts, normalize_key,
  upload_to_local, validate_file, upload_file, delete_file,
}

forward-forward : (s : Text) → forward (forward s) ≡ forward s
forward-forward [] = refl
forward-forward (x ∷ s) = ground (arith, forward-forward s)

-- The URL of an upload leads back to its key.
abbrev LeadsBack : Text → Type 0
LeadsBack folder =
    (filename : Text)
    → resolve_upload_key (codes "/uploads/" ++ forward (join_parts folder filename))
      ≡ forward (join_parts folder filename)

LeadsBack-images : LeadsBack (codes "images")
unfolding resolve_upload_key
LeadsBack-images [] = refl
LeadsBack-images (x ∷ s) = rw (forward-forward (x ∷ s)) refl

LeadsBack-videos : LeadsBack (codes "videos")
unfolding resolve_upload_key
LeadsBack-videos [] = refl
LeadsBack-videos (x ∷ s) = rw (forward-forward (x ∷ s)) refl

LeadsBack-audio : LeadsBack (codes "audio")
unfolding resolve_upload_key
LeadsBack-audio [] = refl
LeadsBack-audio (x ∷ s) = rw (forward-forward (x ∷ s)) refl

LeadsBack-documents : LeadsBack (codes "documents")
unfolding resolve_upload_key
LeadsBack-documents [] = refl
LeadsBack-documents (x ∷ s) = rw (forward-forward (x ∷ s)) refl

LeadsBack-get_category : (mime_type : Text) → LeadsBack (get_category mime_type)
unfolding get_category
LeadsBack-get_category mime_type = elim (Bool-cases (contains allowed_image_types mime_type)) [
  | inl image ↦ rw image LeadsBack-images
  | inr other1 ↦ elim (Bool-cases (contains allowed_video_types mime_type)) [
    | inl video ↦ rw (other1, video) LeadsBack-videos
    | inr other2 ↦ elim (Bool-cases (contains allowed_audio_types mime_type)) [
      | inl audio ↦ rw (other1, other2, audio) LeadsBack-audio
      | inr other3 ↦ rw (other1, other2, other3) LeadsBack-documents
    ]
  ]
]

module _ (S : Storage) where
  -- What an upload writes and answers.
  upload_file_lem :
      (file : MulterFile) (r : UploadedFile) (w w' : StorageState S)
      → upload_file S file [] w ≡ (ok r, w')
      → (filename : Text) × (r.key ≡ forward (join_parts (get_category file.mimetype) filename))
        × (r.url ≡ codes "/uploads/" ++ r.key)
        × (S.disk.write (S.join S.upload_dir r.key) file w.disk ≡ some w'.disk)
  unfolding upload_file upload_to_local validate_file
  upload_file_lem file r w w' h =
      let filename = S.uuid w.draws ++ to_lower (S.extname file.originalname) in
      let key = forward (join_parts (get_category file.mimetype) filename) in
      elim (Option-cases (S.disk.write (S.join S.upload_dir key) file w.disk)) [
        | inl refused ↦ absurd (ground arith)
        | inr (disk, written) ↦ (filename, ground arith, ground arith, ground arith)
      ]

  normalize_key_lem :
      (url key : Text)
      → resolve_upload_key url ≡ key
      → S.normalize key ≡ key
      → is_empty key ≡ false
      → text_eq key (codes ".") ≡ false
      → starts_with key (codes "..") ≡ false
      → normalize_key S url ≡ key
  unfolding normalize_key
  normalize_key_lem url key back kept filled level down = rw (back, kept, filled, level, down) refl

  -- Where `uploadFile` without a folder returns: the file is on the disk under the key of the answer,
  -- and `deleteFile` with the URL of the answer removes it and no file of another path, for a key
  -- that `path.posix.normalize` leaves as it is and that is not a path upwards.
  pub delete_file-upload_file :
      (file : MulterFile) (r : UploadedFile) (p : Text) (w w' : StorageState S)
      → upload_file S file [] w ≡ (ok r, w')
      → S.normalize r.key ≡ r.key
      → is_empty r.key ≡ false
      → text_eq r.key (codes ".") ≡ false
      → starts_with r.key (codes "..") ≡ false
      → (S.disk.exists (S.join S.upload_dir r.key) w'.disk ≡ true)
        × (S.disk.exists p (delete_file S r.url w').disk
            ≡ (not (text_eq (S.join S.upload_dir r.key) p) && S.disk.exists p w'.disk))
  unfolding delete_file
  delete_file-upload_file file r p w w' h kept filled level down =
      let (filename, shape, at_url, written) = upload_file_lem file r w w' h in
      let back : resolve_upload_key r.url ≡ r.key =
        rw (at_url, shape) (LeadsBack-get_category file.mimetype filename) in
      let same : normalize_key S r.url ≡ r.key =
        normalize_key_lem r.url r.key back kept filled level down in
      let path = S.join S.upload_dir r.key in
      (
        ground
            (arith, S.disk.exists-write path path file w.disk w'.disk written, text_eq_refl path),
        rw (same, filled) (S.disk.exists-unlink path p w'.disk),
      )
