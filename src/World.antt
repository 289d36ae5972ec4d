-- ===== src/World.antt =====
-- The state that the handlers of im_server share (Database, Presence, TokenService, the upload
-- records, the login of each Session, the AI limiter), and a monad for their methods.
use improject.Base.{
  ℕ, ℤ, pos, List, [], ◌∷◌, Bool, Option, none, some, Bytes, ◌==◌, if◌then◌else◌, is_pos,
}
use improject.Db.Sql.{Conn, Sql}
use improject.Db.Users.{Passwords}
use improject.Tokens.{RefreshResultCacheEntry, Service, Issued, Drawn}
use improject.Presence.{Online, get}
use improject.Ai.{Limiter}
use improject.Packets.{Packet}

-- HttpFileServer::UploadRecord, with the file_id that is its key.
pub record UploadRecord : Type 0 where
  pub file_id : Bytes
  pub uploader_id : ℤ
  pub receiver_id : ℤ
  pub media_path : Bytes
  pub sha256 : Bytes
  pub size : ℕ
  pub content_type : Bytes
  pub uploaded_at : ℕ

-- What bindAuth writes into a Session.
pub record Login : Type 0 where
  pub user_id : ℤ
  pub session_id : Bytes
  pub device_id : Bytes
  pub expires_at : ℕ

abbrev pub no_login : Login
no_login = record { user_id = pos 0; session_id = []; device_id = []; expires_at = 0 }

-- A call of a Session's method.
pub data Call : Type 0 where
  deliver_call : Packet → Call
  close_call : Call
  close_after_write_call : Call

-- A task of AiHandler's workers, with the session that asked.
pub record AiTask : Type 0 where
  pub asker : ℕ
  pub user_id : ℤ
  pub peer_id : ℤ
  pub request_id : Bytes
  pub tone : Bytes
  pub max_suggestions : ℤ

-- AiHandler beside its configuration and its counters: the keys of the requests, as requestKey
-- gives them.
pub record Assistant : Type 0 where
  pub limiter : Limiter
  pub active : List Bytes
  pub cancelled : List Bytes
  pub posted : List AiTask

-- `sent` holds the calls of methods of sessions, each with its session, the newest first.
pub record World : Type 0 where
  pub conn : Conn
  pub refresh_results : List RefreshResultCacheEntry
  pub presence : Online
  pub uploads : List UploadRecord
  pub upload_count : ℕ
  pub logins : ℕ → Login
  pub assistant : Assistant
  pub sent : List (ℕ × Call)

-- What the handler of one packet finds around it: which sessions exist, the time in seconds and in
-- ticks of the steady clock, the results that
-- the random generator and fallbackMsgId would give, and the functions of OpenSSL and Argon2.
pub record Env : Type 0 where
  pub alive : ℕ → Bool
  pub now : ℕ
  pub ticks : ℕ
  pub salt : Bytes
  pub issued : Option Issued
  pub drawn : Option Drawn
  pub fallback : Bytes
  pub passwords : Passwords
  pub token_hash : Bytes → Bytes

-- A method that ends early is `pure`, its state stays.
abbrev pub Act : Type 0 → Type 0
Act A = World → A × World

abbrev pub pure : {A : Type 0} → A → Act A
pure a w = (a, w)

infixl 5 ◌>>=◌ ◌>>◌
abbrev pub ◌>>=◌ : {A B : Type 0} → Act A → (A → Act B) → Act B
◌>>=◌ m f w = let (a, w') = m w in f a w'

abbrev pub ◌>>◌ : {A B : Type 0} → Act A → Act B → Act B
m >> k = m >>= λ _. k

abbrev pub done : Act (Unit {0})
done = pure tt

abbrev pub sql : {A : Type 0} → Sql A → Act A
sql m w = let (a, c) = m w.conn in (a, record w { conn = c })

-- A method of TokenService.
abbrev pub service : {A : Type 0} → (Service → A × Service) → Act A
service m w =
    let (a, s) = m (record { conn = w.conn; refresh_results = w.refresh_results }) in
    (a, record w { conn = s.conn; refresh_results = s.refresh_results })

abbrev pub gets : {A : Type 0} → (World → A) → Act A
gets f w = (f w, w)

abbrev pub modify : (World → World) → Act (Unit {0})
modify f w = (tt, f w)

abbrev pub call : ℕ → Call → World → World
call s c w = record w { sent = (s, c) ∷ w.sent }

abbrev pub deliver : ℕ → Packet → World → World
deliver s packet w = call s (deliver_call packet) w

abbrev pub send : ℕ → Packet → Act (Unit {0})
send s packet = modify (deliver s packet)

abbrev pub close : ℕ → Act (Unit {0})
close s = modify (call s close_call)

abbrev pub close_after_write : ℕ → Act (Unit {0})
close_after_write s = modify (call s close_after_write_call)

-- session->userId()
abbrev pub user_of : ℕ → World → ℤ
user_of s w = (w.logins s).user_id

-- session->authenticated()
abbrev pub authenticated : ℕ → World → Bool
authenticated s w = is_pos (user_of s w)

unfoldable pub put_login : ℕ → Login → (ℕ → Login) → ℕ → Login
put_login s login logins t = if t == s then login else logins t

-- bindAuth
abbrev pub bind_auth : ℕ → Login → Act (Unit {0})
bind_auth s login = modify (λ w. record w { logins = put_login s login w.logins })

-- `if (auto s = presence.get(user)) m(s);`
abbrev pub if_online : Env → ℤ → (ℕ → Act (Unit {0})) → Act (Unit {0})
if_online env user m w = elim (get env.alive user w.presence) [ none ↦ (tt, w) | some s ↦ m s w ]

-- A range-based for loop over what a query returned.
unfoldable pub for_each : {A : Type 0} → List A → (A → Act (Unit {0})) → Act (Unit {0})
for_each [] m = done
for_each (x ∷ xs) m = do m x; for_each xs m
