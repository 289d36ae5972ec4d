-- ===== src/Client/Uploads.antt =====
-- About the answer to an upload, as ClientCore.cpp reads it and HttpFileServer.cpp writes it.
use improject.Base.{
  ℕ, ◌<◌, [], ◌∷◌, ◌++◌, true, some, Bytes, ◌≡◌, refl, sym, subst, ◌∙◌, ap, arith, length, all_of,
  codes, append_assoc, take-append,
}
use improject.Text.{decimal, starts_with, find_text}
use improject.Sha256.Hex.{is_hex_digit}
use improject.World.{World, Env, UploadRecord}
use improject.Files.{
  Disk, Headers, Content, UploadAnswer, uploaded, upload_body, authenticate, handle_upload,
}
use improject.Files.Uploads.Requests.{Accepted, handle_upload-Accepted}
use improject.Files.Uploads.{concat}
use improject.Chat.{find_upload_record}
use improject.Tokens.{Access}
use improject.Db.Friends.{is_friend}
use improject.Sha256.{sha256_hex}
use improject.Client.{Client}
use improject.Client.Transfer.{
  cut_at, up_to_quote, extract_json_string_field, upload_media, can_transfer,
}

-- The text begins with `xs`, and a quote behind it.
abbrev Quoted : Bytes → Bytes → Type 0
Quoted xs text = (rest : Bytes) × (text ≡ xs ++ 34 ∷ rest)

Quoted-append :
    (xs : Bytes) {text : Bytes} (more : Bytes) → Quoted xs text → Quoted xs (text ++ more)
Quoted-append xs more (rest, e) =
    (rest ++ more, ap (λ t. t ++ more) e ∙ append_assoc xs (34 ∷ rest) more)

find_quote_lem :
    (xs rest : Bytes)
    → all_of is_hex_digit xs ≡ true
    → find_text (34 ∷ []) (xs ++ 34 ∷ rest) ≡ some (length xs)
unfolding find_text starts_with
find_quote_lem [] rest h = refl
find_quote_lem (x ∷ xs) rest h = ground (arith, h, find_quote_lem xs rest)

up_to_quote_lem :
    (xs text : Bytes) → all_of is_hex_digit xs ≡ true → Quoted xs text → up_to_quote text ≡ xs
up_to_quote_lem xs text h (rest, e) =
    ap up_to_quote e
    ∙ ap (λ o. cut_at o (xs ++ 34 ∷ rest)) (find_quote_lem xs rest h)
    ∙ take-append xs (34 ∷ rest)

extract-upload_body :
    (a : UploadAnswer)
    → all_of is_hex_digit a.file_id ≡ true
    → extract_json_string_field (upload_body a) (codes "file_id") ≡ a.file_id
unfolding extract_json_string_field upload_body find_text starts_with
extract-upload_body a h = up_to_quote_lem a.file_id _ h (
    Quoted-append _ (codes "\"}") (
      Quoted-append _ a.content_type (
        Quoted-append _ (codes ",\"content_type\":\"") (
          Quoted-append _ (decimal a.size) (
            Quoted-append _ (codes "\",\"size\":")
              (Quoted-append _ a.sha256 (codes ",\"sha256\":\"", refl)))))))

-- What the server's table of uploads holds, behind a request, under a text.
pub record Recorded (env : Env) (disk : Disk) (headers : Headers) (content : Content) (w : World)
    (file_id : Bytes) : Type 0 where
  pub upload : UploadRecord
  pub found :
      find_upload_record file_id (handle_upload env disk headers content w).1.uploads ≡ some upload
  pub access : Access
  pub asked : (authenticate env disk headers w).0 ≡ some access
  pub uploader : upload.uploader_id ≡ access.user_id
  pub friends :
      (is_friend access.user_id upload.receiver_id (authenticate env disk headers w).1.conn).0
      ≡ true
  pub hash : upload.sha256 ≡ sha256_hex (concat content.chunks)
  pub size : upload.size ≡ length (concat content.chunks)

Accepted-Recorded :
    (env : Env) (disk : Disk) (headers : Headers) (content : Content) (w : World) (a : UploadAnswer)
    → Accepted env disk headers content w a
    → Recorded env disk headers content w a.file_id
Accepted-Recorded env disk headers content w a taken =
    let s = taken.stored in
    record {
      upload = s.upload;
      found = s.found;
      access = taken.access;
      asked = taken.asked;
      uploader = s.of_user.0;
      friends =
          subst
            (λ r.
              (is_friend taken.access.user_id r (authenticate env disk headers w).1.conn).0 ≡ true)
            (sym s.of_user.1) taken.friends;
      hash = s.of_answer.0 ∙ s.hash;
      size = s.of_answer.1 ∙ s.measured.0;
    }

-- What the file server answers to an upload that it takes, the client reads back: a client that has
-- a server's name, a port and a token, and has sent the bytes of a file that is not empty, gets the
-- very file id of the answer; and under it the server's table, as the request has left it, holds the
-- record of this upload, by the token's user for a receiver who is a friend, with the length and the
-- SHA-256 of the bytes that came.
pub upload_media-handle_upload :
    (env : Env) (disk : Disk) (headers : Headers) (content : Content) (w : World) (a : UploadAnswer)
    (c : Client) (name : Bytes) (port : ℕ)
    → (handle_upload env disk headers content w).0 ≡ uploaded a
    → can_transfer name port c ≡ true
    → 0 < length (concat content.chunks)
    → let file_id =
        upload_media name port
          (some (length (concat content.chunks)))
          (some (200, upload_body a))
          c in
      (file_id ≡ a.file_id) × Recorded env disk headers content w file_id
unfolding upload_media
upload_media-handle_upload env disk headers content w a c name port e can lo = (
  read,
  subst (Recorded env disk headers content w) (sym read)
      (Accepted-Recorded env disk headers content w a taken),
)
  where
    taken : Accepted env disk headers content w a
    taken = handle_upload-Accepted env disk headers content w a e

    read :
        upload_media name port (some (length (concat content.chunks))) (some (200, upload_body a)) c
        ≡ a.file_id
    read = ground (arith, can, lo, taken.stored.measured, extract-upload_body a taken.stored.id)
