-- ===== src/Files/Downloads.antt =====
-- About the downloads of HttpFileServer.cpp.
use improject.Base.{
  ℤ, Bool, true, false, not, Option, none, some, Bytes, ◌≡◌, refl, ◌⊎◌, if◌then◌else◌, int_eq_iff,
  is_empty, arith,
}
use improject.Db.Tables.{StoredMessage}
use improject.Db.Messages.{get_message_by_file_id}
use improject.Tokens.{Access}
use improject.World.{World, Env, Act, ◌>>=◌, pure, sql}
use improject.Files.{
  Disk, Headers, Response, status, file_content, authenticate, answer_download, handle_download,
}
use improject.Media.{is_safe_file_id, guess_content_type}

-- Why a file is sent: who asks, and of which message it is.
pub record Allowed (env : Env) (disk : Disk) (headers : Headers) (file_id : Bytes) (w : World)
    (path type : Bytes) : Type 0 where
  pub access : Access
  pub message : StoredMessage
  pub asked : (authenticate env disk headers w).0 ≡ some access
  pub found :
      (get_message_by_file_id file_id (authenticate env disk headers w).1.conn).0 ≡ some message
  pub safe : is_safe_file_id file_id ≡ true
  pub participant : (access.user_id ≡ message.sender_id) ⊎ (access.user_id ≡ message.receiver_id)
  pub content : (message.media_path ≡ path) × (guess_content_type path ≡ type)
  pub on_disk : (is_empty path ≡ false) × (disk.exists path ≡ true)

module _ (env : Env) (disk : Disk) where
  answer_download-Allowed :
      (user : ℤ) (m : StoredMessage) (path type : Bytes) (d : Option Bytes)
      → answer_download env disk user m ≡ file_content path type d
      → ((user ≡ m.sender_id) ⊎ (user ≡ m.receiver_id))
        × (m.media_path ≡ path)
        × (guess_content_type path ≡ type)
        × (is_empty path ≡ false)
        × (disk.exists path ≡ true)
  unfolding answer_download
  answer_download-Allowed user m path type d e =
      ground (arith, e, int_eq_iff user m.sender_id, int_eq_iff user m.receiver_id)

  -- A file is sent only to a request with a valid access token, for a file id of safe characters
  -- under which a message is stored, whose sender or receiver the token's user is; and what is sent
  -- is the file of that message, which exists.
  pub handle_download-Allowed :
      (headers : Headers) (file_id : Bytes) (w : World) (path type : Bytes) (d : Option Bytes)
      → (handle_download env disk headers file_id w).0 ≡ file_content path type d
      → Allowed env disk headers file_id w path type
  unfolding handle_download
  handle_download-Allowed headers file_id w path type d e =
      split (authenticate env disk headers w).0 refl e
    where
      w' : World
      w' = (authenticate env disk headers w).1

      answer :
          (access : Access) (o : Option StoredMessage)
          → (authenticate env disk headers w).0 ≡ some access
          → is_safe_file_id file_id ≡ true
          → (get_message_by_file_id file_id w'.conn).0 ≡ o
          → (elim o as (λ x. Response) [
            | none ↦ status 404
            | some m ↦ answer_download env disk access.user_id m
          ])
            ≡ file_content path type d
          → Allowed env disk headers file_id w path type
      answer access none a safe k e = cc
      answer access (some m) a safe k e =
          let r = answer_download-Allowed access.user_id m path type d e in
          record {
            access = access;
            message = m;
            asked = a;
            found = k;
            safe = safe;
            participant = r.0;
            content = (r.1, r.2);
            on_disk = (r.3, r.4);
          }

      checked :
          (access : Access) (safe : Bool)
          → (authenticate env disk headers w).0 ≡ some access
          → is_safe_file_id file_id ≡ safe
          → ((if not safe then pure (status 400) else do
            found ← sql (get_message_by_file_id file_id)
            pure (elim found as (λ x. Response) [
              | none ↦ status 404
              | some m ↦ answer_download env disk access.user_id m
            ]))
              w').0
            ≡ file_content path type d
          → Allowed env disk headers file_id w path type
      checked access false a k e = cc
      checked access true a k e =
          answer access (get_message_by_file_id file_id w'.conn).0 a k refl e

      split :
          (o : Option Access)
          → (authenticate env disk headers w).0 ≡ o
          → ((elim o as (λ x. Act Response) [
            | none ↦ pure (status 401)
            | some a ↦ if not (is_safe_file_id file_id) then pure (status 400) else do
              found ← sql (get_message_by_file_id file_id)
              pure (elim found as (λ x. Response) [
                | none ↦ status 404
                | some m ↦ answer_download env disk a.user_id m
              ])
          ])
              w').0
            ≡ file_content path type d
          → Allowed env disk headers file_id w path type
      split none a e = cc
      split (some access) a e = checked access (is_safe_file_id file_id) a refl e
