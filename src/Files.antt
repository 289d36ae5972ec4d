-- ===== src/Files.antt =====
-- im_server/src/HttpFileServer.cpp: uploads and downloads over HTTP. What httplib gives of a request
-- is an argument; the disk is what its calls answer, and is not changed.
pub mod Downloads
pub mod Uploads
use improject.Base.{
  ℕ, zero, suc, ℤ, pos, negsuc, ◌+◌, ◌*◌, ◌^◌, ◌-◌, ◌%◌, List, [], ◌∷◌, ◌++◌, Bool, true, false,
  not, ◌&&◌, ◌||◌, Option, none, some, Bytes, ◌==◌, ltb, leb, within, if◌then◌else◌, is_empty,
  length, take, drop, int_eq, bytes_eq, all_of, any_of, keep_if, find_if, codes, map,
}
use improject.Text.{decimal, to_string, parse_int, starts_with, find_text}
use improject.Sha256.{Sha256, reset, update, final, hex, sha256_hex}
use improject.Db.Tables.{StoredMessage}
use improject.Db.Friends.{is_friend}
use improject.Db.Messages.{get_message_by_file_id}
use improject.Tokens.{Access, validate_access}
use improject.World.{World, Env, UploadRecord, Act, pure, ◌>>=◌, ◌>>◌, sql, gets, modify}
use improject.Chat.{erase_upload_record}
use improject.Media.{
  is_alnum, is_safe_file_id, image_ext_for_bytes, behind_last, filename, name_extension, extension,
  guess_content_type,
}

-- FILE_MAX_SIZE
abbrev pub file_max_size : ℕ
file_max_size = 100 * 1024 * 1024

abbrev pub int_max : ℕ
int_max = 2 ^ 31 - 1

abbrev pub int64_max : ℕ
int64_max = 2 ^ 63 - 1

-- A header that is missing is empty.
abbrev pub Headers : Type 0
Headers = Bytes → Bytes

-- What the disk answers to an upload and to a download, and where the uploads are.
pub record Disk : Type 0 where
  pub upload_dir : Bytes
  pub opens : Bool
  pub exists : Bytes → Bool

-- What the calls of the content reader bring, and how the reader ends.
pub record Content : Type 0 where
  pub chunks : List Bytes
  pub complete : Bool

-- The variables that the callback of the reader changes.
pub record Receiving : Type 0 where
  pub received : ℕ
  pub head_bytes : Bytes
  pub hasher : Sha256

pub record UploadAnswer : Type 0 where
  pub file_id : Bytes
  pub sha256 : Bytes
  pub size : ℕ
  pub content_type : Bytes

-- An answer without a body has only its status.
pub data Response : Type 0 where
  status : ℕ → Response
  uploaded : UploadAnswer → Response
  file_content : Bytes → Bytes → Option Bytes → Response

abbrev pub bearer : Bytes
bearer = codes "Bearer "

-- The loop of the reader: `none` where the callback returned false.
unfoldable pub receive : List Bytes → Receiving → Option Receiving
receive [] r = some r
receive (chunk ∷ chunks) r =
    let rest = receive chunks (record {
      received = r.received + length chunk;
      head_bytes =
          if ltb (length r.head_bytes) 16
          then r.head_bytes ++ take (16 - length r.head_bytes) chunk
          else r.head_bytes;
      hasher = update chunk r.hasher;
    }) in
    if ltb file_max_size (r.received + length chunk) then none else rest

-- The declared size, which is -1 where the header is empty or is no number.
unfoldable pub declared_size : Bytes → ℤ
declared_size header =
    if is_empty header
    then negsuc zero
    else elim (parse_int int64_max header) [ none ↦ negsuc zero | some n ↦ n ]

abbrev pub acceptable_size : ℤ → Option ℕ
acceptable_size (negsuc n) = none
acceptable_size (pos n) = if ltb file_max_size n then none else some n

abbrev pub is_image : Bytes → Bool
is_image content_type = starts_with (codes "image/") content_type

-- finalPath
unfoldable pub final_path : Bytes → Bytes → Bytes → Bytes → Bytes → Bytes → Bytes
unfolding image_ext_for_bytes
final_path dir content_type file_id name sha head_bytes =
    if is_image content_type
    then dir ++ codes "/img/" ++ sha ++ image_ext_for_bytes head_bytes
    else dir ++ codes "/file/" ++ file_id ++ 95 ∷ name

-- The id of the file is the hash of these, with the number of the upload.
unfoldable pub file_id_of : ℤ → ℤ → Bytes → ℕ → ℕ → Bytes
file_id_of user receiver name now count = sha256_hex (
    to_string user
    ++ 124 ∷ to_string receiver
    ++ 124 ∷ name
    ++ 124 ∷ decimal now
    ++ 124 ∷ decimal count)

unfoldable pub put_upload_record : UploadRecord → List UploadRecord → List UploadRecord
unfolding erase_upload_record
put_upload_record r uploads = r ∷ erase_upload_record r.file_id uploads

-- The body of a successful answer to an upload.
unfoldable pub upload_body : UploadAnswer → Bytes
upload_body a =
    codes "{\"file_id\":\""
    ++ a.file_id
    ++ codes "\",\"sha256\":\""
    ++ a.sha256
    ++ codes "\",\"size\":"
    ++ decimal a.size
    ++ codes ",\"content_type\":\""
    ++ a.content_type
    ++ codes "\"}"

-- gcLoop, one turn: the records that stay.
unfoldable pub collect_garbage : ℕ → List UploadRecord → List UploadRecord
collect_garbage now uploads =
    keep_if (λ (r : UploadRecord). not (ltb (r.uploaded_at + 24 * 3600) now)) uploads

module _ (env : Env) (disk : Disk) where
  unfoldable pub authenticate : Headers → Act (Option Access)
  authenticate headers =
      let auth = headers (codes "Authorization") in
      let device = headers (codes "X-Device-Id") in
      if leb (length auth) (length bearer) || not (starts_with bearer auth)
      then pure none
      else if is_empty device || ltb 128 (length device)
      then pure none
      else sql (validate_access env.token_hash (drop (length bearer) auth) [] device env.now)

  -- The content is here: the record, and the answer.
  unfoldable pub store_upload : ℤ → ℤ → Bytes → Bytes → Bytes → Receiving → Act Response
  unfolding put_upload_record final_path
  store_upload user receiver name content_type file_id r = do
    let sha = hex (final r.hasher)
    modify (λ w. record w {
      uploads =
          put_upload_record
            (record {
              file_id = file_id;
              uploader_id = user;
              receiver_id = receiver;
              media_path = final_path disk.upload_dir content_type file_id name sha r.head_bytes;
              sha256 = sha;
              size = r.received;
              content_type = content_type;
              uploaded_at = env.now;
            })
            w.uploads;
    })
    pure (
        uploaded (record {
          file_id = file_id;
          sha256 = sha;
          size = r.received;
          content_type = content_type;
        }))

  -- From the generation of the id on.
  unfoldable pub take_upload : ℤ → ℤ → Bytes → Bytes → ℕ → Content → Act Response
  unfolding store_upload receive file_id_of
  take_upload user receiver name content_type size content = do
    count ← gets (λ w. w.upload_count)
    modify (λ w. record w { upload_count = suc count % 2 ^ 64 })
    if not disk.opens
        then pure (status 500)
        else elim (receive content.chunks
            (record { received = 0; head_bytes = []; hasher = reset })) [
              | none ↦ pure (status 400)
              | some r ↦
                  if not content.complete || not (r.received == size)
                  then pure (status 400)
                  else store_upload user receiver name content_type
                      (file_id_of user receiver name env.now count) r
            ]

  -- Behind the authentication.
  unfoldable pub checked_upload : ℤ → Headers → Content → Act Response
  unfolding take_upload declared_size
  checked_upload user headers content =
      let name = filename (headers (codes "X-File-Name")) in
      if is_empty name || ltb 255 (length name)
      then pure (status 400)
      else elim (parse_int int_max (headers (codes "X-Receiver-Id"))) [
        | none ↦ pure (status 400)
        | some receiver ↦ do
          friends ← sql (is_friend user receiver)
          if not friends
              then pure (status 403)
              else elim (acceptable_size (declared_size (headers (codes "Content-Length")))) [
                | none ↦ pure (status 413)
                | some size ↦
                    take_upload user receiver name (headers (codes "Content-Type")) size content
              ]
      ]

  unfoldable pub handle_upload : Headers → Content → Act Response
  unfolding authenticate checked_upload
  handle_upload headers content = do
    access ← authenticate headers
    elim access [ none ↦ pure (status 401) | some a ↦ checked_upload a.user_id headers content ]

  -- Content-Disposition of a file, not of an image.
  abbrev pub disposition : StoredMessage → Option Bytes
  disposition m =
      if m.type == 2
      then some (codes "attachment; filename=\"" ++ m.content ++ codes "\"")
      else none

  -- The message of the file is found.
  unfoldable pub answer_download : ℤ → StoredMessage → Response
  unfolding guess_content_type
  answer_download user m =
      if is_empty m.media_path
      then status 404
      else if not (int_eq user m.sender_id) && not (int_eq user m.receiver_id)
      then status 403
      else if not (disk.exists m.media_path)
      then status 404
      else file_content m.media_path (guess_content_type m.media_path) (disposition m)

  unfoldable pub handle_download : Headers → Bytes → Act Response
  unfolding authenticate is_safe_file_id answer_download
  handle_download headers file_id = do
    access ← authenticate headers
    elim access [
      | none ↦ pure (status 401)
      | some a ↦ if not (is_safe_file_id file_id) then pure (status 400) else do
        found ← sql (get_message_by_file_id file_id)
        pure (elim found [ none ↦ status 404 | some m ↦ answer_download a.user_id m ])
    ]
