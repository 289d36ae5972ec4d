-- ===== src/Files/Uploads.antt =====
-- About the content of an upload, from the first byte to the record, in HttpFileServer.cpp.
pub mod Requests
use improject.Base.{
  ℕ, ℤ, suc, ◌+◌, ◌≤◌, ◌%◌, ◌^◌, List, [], ◌∷◌, ◌++◌, Bool, true, false, not, ◌||◌, Option, none,
  some, Bytes, ◌≡◌, refl, sym, ◌∙◌, ap, subst, ◌==◌, ltb, if◌then◌else◌, is_empty, length,
  bytes_eq_refl, all_of, take, ◌-◌, arith, codes, length-append,
}
use improject.Sha256.{reset, update, final, hex, digest, sha256_hex}
use improject.Sha256.Hex.{is_hex_digit, all_of-sha256_hex, update-append}
use improject.Text.{parse_int}
use improject.Db.Friends.{is_friend}
use improject.Tokens.{Access}
use improject.World.{World, Env, UploadRecord, Act, ◌>>=◌, pure, sql}
use improject.Chat.{find_upload_record}
use improject.Files.{
  Disk, Headers, Content, Receiving, UploadAnswer, Response, status, uploaded, authenticate,
  receive, store_upload, take_upload, checked_upload, handle_upload, put_upload_record,
  file_max_size, acceptable_size, declared_size, file_id_of, final_path, int_max,
}
use improject.Media.{filename}

abbrev pub concat : List Bytes → Bytes
concat [] = []
concat (xs ∷ xss) = xs ++ concat xss

-- The hash of what comes in pieces is that of the whole, and its length is what is counted.
receive_lem :
    (chunks : List Bytes) (r r' : Receiving)
    → receive chunks r ≡ some r'
    → r.received ≤ file_max_size
    → (r'.hasher ≡ update (concat chunks) r.hasher)
      × (r'.received ≡ r.received + length (concat chunks))
      × (r'.received ≤ file_max_size)
unfolding receive update
receive_lem [] r r' e h = ground (arith, e, h)
receive_lem (chunk ∷ chunks) r r' e h =
    split (ltb file_max_size (r.received + length chunk)) refl (receive_lem chunks after r') e
  where
    after : Receiving
    after = record {
      received = r.received + length chunk;
      head_bytes =
          if ltb (length r.head_bytes) 16
          then r.head_bytes ++ take (16 - length r.head_bytes) chunk
          else r.head_bytes;
      hasher = update chunk r.hasher;
    }

    split :
        (b : Bool)
        → ltb file_max_size (r.received + length chunk) ≡ b
        → (receive chunks after ≡ some r'
            → after.received ≤ file_max_size
            → (r'.hasher ≡ update (concat chunks) after.hasher)
              × (r'.received ≡ after.received + length (concat chunks))
              × (r'.received ≤ file_max_size))
        → (if b then none else receive chunks after) ≡ some r'
        → (r'.hasher ≡ update (concat (chunk ∷ chunks)) r.hasher)
          × (r'.received ≡ r.received + length (concat (chunk ∷ chunks)))
          × (r'.received ≤ file_max_size)
    split true k rest e = cc
    split false k rest e =
        let (hash, size, bound) = rest e (ground (arith, k)) in
        (
          hash ∙ sym (update-append chunk (concat chunks) r.hasher),
          omega (arith, size, length-append chunk (concat chunks)),
          bound,
        )

uploaded_injective : {a b : UploadAnswer} → uploaded a ≡ uploaded b → a ≡ b
uploaded_injective {a} {b} e = cc

-- What an upload that is answered with success has been.
pub record Stored (user receiver : ℤ) (content : Content) (a : UploadAnswer)
    (uploads : List UploadRecord) : Type 0 where
  pub upload : UploadRecord
  pub found : find_upload_record a.file_id uploads ≡ some upload
  pub of_user : (upload.uploader_id ≡ user) × (upload.receiver_id ≡ receiver)
  pub of_answer : (upload.sha256 ≡ a.sha256) × (upload.size ≡ a.size)
  pub id : all_of is_hex_digit a.file_id ≡ true
  pub hash : a.sha256 ≡ sha256_hex (concat content.chunks)
  pub measured : (a.size ≡ length (concat content.chunks)) × (a.size ≤ file_max_size)

file_id_of-digits :
    (user receiver : ℤ) (name : Bytes) (now count : ℕ)
    → all_of is_hex_digit (file_id_of user receiver name now count) ≡ true
unfolding file_id_of
file_id_of-digits user receiver name now count = all_of-sha256_hex _

module _ (env : Env) (disk : Disk) (user receiver : ℤ) (name content_type : Bytes) where
  store_upload-Stored :
      (file_id : Bytes) (content : Content) (r : Receiving) (w : World) (a : UploadAnswer)
      → all_of is_hex_digit file_id ≡ true
      → r.hasher ≡ update (concat content.chunks) reset
      → (r.received ≡ length (concat content.chunks)) × (r.received ≤ file_max_size)
      → (store_upload env disk user receiver name content_type file_id r w).0 ≡ uploaded a
      → Stored user receiver content a
          (store_upload env disk user receiver name content_type file_id r w).1.uploads
  unfolding store_upload put_upload_record find_upload_record sha256_hex digest
  store_upload-Stored file_id content r w a digits hash size e =
      subst
        (λ a.
          Stored user receiver content a
            (store_upload env disk user receiver name content_type file_id r w).1.uploads)
        (uploaded_injective e)
        (record {
          upload = record {
            file_id = file_id;
            uploader_id = user;
            receiver_id = receiver;
            media_path =
                final_path disk.upload_dir content_type file_id name (hex (final r.hasher))
                  r.head_bytes;
            sha256 = hex (final r.hasher);
            size = r.received;
            content_type = content_type;
            uploaded_at = env.now;
          };
          found = rw (bytes_eq_refl file_id) refl;
          of_user = (refl, refl);
          of_answer = (refl, refl);
          id = digits;
          hash = ap (λ h. hex (final h)) hash;
          measured = size;
        })

  pub take_upload-Stored :
      (size : ℕ) (content : Content) (w : World) (a : UploadAnswer)
      → (take_upload env disk user receiver name content_type size content w).0 ≡ uploaded a
      → Stored user receiver content a
          (take_upload env disk user receiver name content_type size content w).1.uploads
  unfolding take_upload
  take_upload-Stored size content w a e = opens disk.opens e
    where
      id : Bytes
      id = file_id_of user receiver name env.now w.upload_count

      id-digits : all_of is_hex_digit id ≡ true
      id-digits = file_id_of-digits user receiver name env.now w.upload_count

      w' : World
      w' = record w { upload_count = suc w.upload_count % 2 ^ 64 }

      begun : Receiving
      begun = record { received = 0; head_bytes = []; hasher = reset }

      Answered : Act Response → Type 0
      Answered m = (m w').0 ≡ uploaded a → Stored user receiver content a (m w').1.uploads

      whole :
          (r : Receiving) (bad : Bool)
          → receive content.chunks begun ≡ some r
          → Answered (
              if bad
              then pure (status 400)
              else store_upload env disk user receiver name content_type id r)
      whole r true k e = cc
      whole r false k e =
          let (hash, counted, bound) = receive_lem content.chunks begun r k (omega arith) in
          store_upload-Stored id content r w' a id-digits hash (omega (arith, counted), bound) e

      read :
          (o : Option Receiving)
          → receive content.chunks begun ≡ o
          → Answered (elim o as (λ x. Act Response) [
            | none ↦ pure (status 400)
            | some r ↦
                if not content.complete || not (r.received == size)
                then pure (status 400)
                else store_upload env disk user receiver name content_type id r
          ])
      read none k e = cc
      read (some r) k e = whole r (not content.complete || not (r.received == size)) k e

      opens :
          (b : Bool)
          → Answered (
              if not b
              then pure (status 500)
              else elim (receive content.chunks begun) as (λ x. Act Response) [
                | none ↦ pure (status 400)
                | some r ↦
                    if not content.complete || not (r.received == size)
                    then pure (status 400)
                    else store_upload env disk user receiver name content_type id r
              ])
      opens false e = cc
      opens true e = read (receive content.chunks begun) refl e
