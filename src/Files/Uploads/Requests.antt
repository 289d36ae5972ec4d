-- ===== src/Files/Uploads/Requests.antt =====
-- About the requests for an upload that HttpFileServer.cpp takes.
use improject.Base.{
  ℕ, ℤ, Bool, true, false, not, ◌||◌, Option, none, some, Bytes, ◌≡◌, refl, sym, subst, ltb,
  if◌then◌else◌, is_empty, length, codes,
}
use improject.Text.{parse_int}
use improject.Db.Friends.{is_friend}
use improject.Tokens.{Access}
use improject.World.{World, Env, Act, ◌>>=◌, pure, sql}
use improject.Files.{
  Disk, Headers, Content, UploadAnswer, Response, status, uploaded, authenticate, take_upload,
  checked_upload, handle_upload, acceptable_size, declared_size, int_max,
}
use improject.Media.{filename}
use improject.Files.Uploads.{Stored, take_upload-Stored}

-- What the answer of success to an upload promises: who sent it, to whom, and what is stored.
pub record Accepted (env : Env) (disk : Disk) (headers : Headers) (content : Content) (w : World)
    (a : UploadAnswer) : Type 0 where
  pub access : Access
  pub receiver : ℤ
  pub asked : (authenticate env disk headers w).0 ≡ some access
  pub friends :
      (is_friend access.user_id receiver (authenticate env disk headers w).1.conn).0 ≡ true
  pub stored :
      Stored access.user_id receiver content a (handle_upload env disk headers content w).1.uploads

module _ (env : Env) (disk : Disk) (headers : Headers) (content : Content) where
  checked_upload-Stored :
      (user : ℤ) (w : World) (a : UploadAnswer)
      → (checked_upload env disk user headers content w).0 ≡ uploaded a
      → (receiver : ℤ) × ((is_friend user receiver w.conn).0 ≡ true)
        × Stored user receiver content a (checked_upload env disk user headers content w).1.uploads
  unfolding checked_upload
  checked_upload-Stored user w a e = named (is_empty name || ltb 255 (length name)) e
    where
      name : Bytes
      name = filename (headers (codes "X-File-Name"))

      type : Bytes
      type = headers (codes "Content-Type")

      Answered : Act Response → World → Type 0
      Answered m v =
          (m v).0 ≡ uploaded a
          → (receiver : ℤ) × ((is_friend user receiver w.conn).0 ≡ true)
            × Stored user receiver content a (m v).1.uploads

      sized : ℤ → Option ℕ → Act Response
      sized receiver none = pure (status 413)
      sized receiver (some size) = take_upload env disk user receiver name type size content

      sized-Answered :
          (receiver : ℤ) (o : Option ℕ) (v : World)
          → (is_friend user receiver w.conn).0 ≡ true
          → Answered (sized receiver o) v
      sized-Answered receiver none v f e = cc
      sized-Answered receiver (some size) v f e =
          (receiver, f, take_upload-Stored env disk user receiver name type size content v a e)

      friendly :
          (receiver : ℤ) (b : Bool)
          → (is_friend user receiver w.conn).0 ≡ b
          → Answered
              (if not b
                then pure (status 403)
                else sized receiver
                    (acceptable_size (declared_size (headers (codes "Content-Length")))))
              (record w { conn = (is_friend user receiver w.conn).1 })
      friendly receiver false f e = cc
      friendly receiver true f e = sized-Answered receiver _ _ f e

      received :
          (o : Option ℤ)
          → Answered
              (elim o as (λ x. Act Response) [
                | none ↦ pure (status 400)
                | some receiver ↦ do
                  friends ← sql (is_friend user receiver)
                  if not friends
                      then pure (status 403)
                      else sized receiver
                          (acceptable_size (declared_size (headers (codes "Content-Length"))))
              ])
              w
      received none e = cc
      received (some receiver) e = friendly receiver (is_friend user receiver w.conn).0 refl e

      named :
          (bad : Bool)
          → Answered
              (if bad
                then pure (status 400)
                else elim (parse_int int_max (headers (codes "X-Receiver-Id")))
                    as (λ x. Act Response) [
                      | none ↦ pure (status 400)
                      | some receiver ↦ do
                        friends ← sql (is_friend user receiver)
                        if not friends
                            then pure (status 403)
                            else sized receiver
                                (acceptable_size (declared_size (headers (codes "Content-Length"))))
                    ])
              w
      named true e = cc
      named false e = received (parse_int int_max (headers (codes "X-Receiver-Id"))) e

  -- An upload is answered with success only to a request with a valid access token whose user is a
  -- friend of the receiver; and then the answer's file id finds an upload record of just this user
  -- and this receiver, with the size and the hash of the answer, which are the length, at most 100
  -- MB, and the SHA-256 of all the bytes that came, in however many pieces.
  pub handle_upload-Accepted :
      (w : World) (a : UploadAnswer)
      → (handle_upload env disk headers content w).0 ≡ uploaded a
      → Accepted env disk headers content w a
  unfolding handle_upload
  handle_upload-Accepted w a e = split (authenticate env disk headers w).0 refl e
    where
      w' : World
      w' = (authenticate env disk headers w).1

      after : Option Access → Act Response
      after o = elim o [
        | none ↦ pure (status 401)
        | some access ↦ checked_upload env disk access.user_id headers content
      ]

      split :
          (o : Option Access)
          → (authenticate env disk headers w).0 ≡ o
          → (after o w').0 ≡ uploaded a
          → Accepted env disk headers content w a
      split none k e = cc
      split (some access) k e =
          let r = checked_upload-Stored access.user_id w' a e in
          record {
            access = access;
            receiver = r.0;
            asked = k;
            friends = r.1;
            stored =
                subst (λ o. Stored access.user_id r.0 content a (after o w').1.uploads) (sym k) r.2;
          }
