-- ===== src/Examples/Services.antt =====
-- The wire format, the online map, the assistant's limits and a chat message.
use improject.Base.{
  ℕ, pos, ◌<◌, ◌≤◌, List, [], ◌∷◌, Bool, true, false, ◌≡◌, refl, ◌⊎◌, none, some, Bytes, arith,
  take, get_elem?, count_if, reverse, int_eq,
}
use improject.Wire.{read_frames, is_continuation, utf8_truncate}
use improject.Wire.Frames.{raw_frames, read_frames-raw_frames}
use improject.Wire.Utf8.{utf8_truncate_lem}
use improject.Presence.{Online, find}
use improject.Presence.Registry.{
  PresenceCall, online_call, offline_call, touch_call, perform_all, specified_all, find-perform_all,
}
use improject.Ai.{at_least_one, limiter, Turn, Policy, build_reply_context}
use improject.Ai.Rate.{
  LimiterCall, acquire, finish, accepted_times, within_minute, count-accepted_times, Slots,
  perform_all-Slots,
}
use improject.Ai.Duplicates.{try_acquire-try_acquire}
use improject.Ai.{duplicate, try_acquire}
use improject.Ai.Context.{Bounded, build_reply_context-Bounded}
use improject.Db.Tables.{empty_tables, StoredMessage}
use improject.Db.Sql.{Conn, next_call}
use improject.Db.Friends.{is_friend}
use improject.Packets.{ChatInfoRq}
use improject.World.{World, no_login}
use improject.Chat.{on_chat}
use improject.Chat.Answers.{Outcome, on_chat-Outcome}

abbrev frames : List (ℕ × Bytes)
frames = (1005, 104 ∷ 105 ∷ []) ∷ (1010, []) ∷ []

read_frames-raw_frames_example : read_frames 2 (raw_frames frames) ≡ frames
read_frames-raw_frames_example =
    read_frames-raw_frames frames ((omega arith, omega arith), ((omega arith, omega arith), tt))

-- An "a" and a character of three bytes, cut at three.
utf8_truncate_lem_example :
    (n : ℕ) × (utf8_truncate (97 ∷ 228 ∷ 189 ∷ 160 ∷ []) 3 ≡ take n (97 ∷ 228 ∷ 189 ∷ 160 ∷ []))
    × (n ≤ 3)
    × ((n ≡ 0) ⊎ (is_continuation (get_elem? (97 ∷ 228 ∷ 189 ∷ 160 ∷ []) n) ≡ false))
    × ((2 ≤ n) ⊎ (3 < 2) ⊎ (is_continuation (get_elem? (97 ∷ 228 ∷ 189 ∷ 160 ∷ []) 2) ≡ true))
utf8_truncate_lem_example = utf8_truncate_lem (97 ∷ 228 ∷ 189 ∷ 160 ∷ []) 3 2 (omega arith)

abbrev all_alive : ℕ → Bool
all_alive s = true

abbrev presence_calls : List PresenceCall
presence_calls =
    offline_call (pos 1) 7 30
    ∷ touch_call (pos 1) 20
    ∷ online_call (pos 1) 8 10
    ∷ online_call (pos 1) 7 5
    ∷ []

find-perform_all_example :
    find (pos 1) (perform_all all_alive presence_calls)
    ≡ specified_all all_alive presence_calls (pos 1)
find-perform_all_example = find-perform_all all_alive presence_calls (pos 1)

abbrev one_online : Online
one_online = (pos 1, record { sess = 7; last_active = 5 }) ∷ []

abbrev limiter_calls : List LimiterCall
limiter_calls = acquire (pos 1) (2 ∷ []) 20 ∷ finish (pos 1) ∷ acquire (pos 1) (1 ∷ []) 10 ∷ []

count-accepted_times_example :
    count_if
      (within_minute 30)
      (accepted_times (limiter (pos 1) (pos 2) (pos 600)) (pos 1) limiter_calls)
    ≤ at_least_one (pos 1)
count-accepted_times_example =
    count-accepted_times (pos 1) (pos 2) (pos 600) (pos 1) limiter_calls 30
      (omega arith, (omega arith, tt)) (omega arith)

perform_all-Slots_example :
    Slots 2 (improject.Ai.Rate.perform_all (limiter (pos 1) (pos 2) (pos 600)) limiter_calls)
unfolding at_least_one
perform_all-Slots_example = perform_all-Slots (pos 1) (pos 2) (pos 600) limiter_calls

abbrev row : StoredMessage
row = record {
  msg_id = 7 ∷ [];
  sender_id = pos 1;
  receiver_id = pos 2;
  type = 0;
  content = 104 ∷ 105 ∷ [];
  media_path = [];
  img_w = pos 0;
  img_h = pos 0;
  ts = 1;
  seq = 1;
  file_id = [];
  file_size = 0;
  content_type = [];
  sha256 = [];
}

abbrev policy : Policy
policy = record { max_messages = pos 20; max_message_bytes = pos 500; max_context_bytes = pos 4000 }

abbrev unredacted : Bytes → Bytes
unredacted text = text

build_reply_context-Bounded_example :
    let r = build_reply_context unredacted (row ∷ []) (pos 1) (pos 2) (9 ∷ []) [] (pos 5) policy in
    ((newest : List Turn) × (r.turns ≡ reverse newest)
      × Bounded unredacted
          (at_least_one (pos 20))
          (at_least_one (pos 500))
          (at_least_one (pos 4000))
          newest)
    × (1 ≤ r.max_suggestions)
    × (r.max_suggestions ≤ 3)
build_reply_context-Bounded_example =
    build_reply_context-Bounded unredacted (row ∷ []) (pos 1) (pos 2) (9 ∷ []) [] (pos 5) policy

-- User 1 writes to user 2, a friend who is online, and claims to be user 4.
abbrev conn : Conn
conn = record {
  tables = record empty_tables { friends = (pos 1, pos 2) ∷ (pos 2, pos 1) ∷ [] };
  saved = none;
  works = λ n. true;
  calls = 0;
}

abbrev world : World
world = record {
  conn = conn;
  presence = (pos 2, record { sess = 8; last_active = 5 }) ∷ [];
  uploads = [];
  upload_count = 0;
  refresh_results = [];
  logins = λ s. no_login;
  assistant = record {
    limiter = limiter (pos 1) (pos 2) (pos 600);
    active = [];
    cancelled = [];
    posted = [];
  };
  sent = [];
}

abbrev request : ChatInfoRq
request = record {
  my_id = pos 4;
  fri_id = pos 2;
  msg = 104 ∷ 105 ∷ [];
  type = 0;
  image_width = pos 0;
  image_height = pos 0;
  msg_id = 7 ∷ [];
  ts = 0;
  seq = 0;
  file_name = [];
  file_size = 0;
  file_id = [];
  content_type = [];
  sha256 = [];
}

on_chat-Outcome_example :
    Outcome all_alive 7
      (pos 1)
      (pos 2)
      false
      []
      (record world { conn = next_call conn })
      (on_chat all_alive 7 (pos 1) [] 100 (some request) world)
unfolding is_friend int_eq
on_chat-Outcome_example =
    on_chat-Outcome all_alive 7 (pos 1) [] 100 request world true (next_call conn) refl refl

try_acquire-try_acquire_example :
    (try_acquire (pos 1) (2 ∷ []) 90 (
      improject.Ai.Rate.perform_all
        (try_acquire (pos 1) (2 ∷ []) 20 (limiter (pos 1) (pos 2) (pos 600))).1
        (finish (pos 1) ∷ []))).0
    ≡ duplicate
unfolding try_acquire limiter at_least_one
try_acquire-try_acquire_example =
    try_acquire-try_acquire (pos 1) (2 ∷ []) 20 90 (limiter (pos 1) (pos 2) (pos 600))
      (finish (pos 1) ∷ []) refl (omega arith) (omega arith)
