-- ===== src/Client/Receive.antt =====
-- client_core/src/ClientCore.cpp: the packets that the client receives, and their table.
use improject.Base.{
  ℕ, ℤ, ◌-◌, List, [], ◌∷◌, map, false, ◌||◌, Option, none, some, Bytes, ◌==◌, ltb, leb,
  if◌then◌else◌, length, drop, is_pos, int_eq,
}
use improject.Wire.{decode_type32}
use improject.Db.Users.{login_success}
use improject.Packets.{
  LoginRs, ChatInfoRq, ChatInfoRs, AddFriendRq, AddFriendRs, RoamMsgRs, FriendInfo,
}
use improject.Client.{
  Client, Parse, UserInfo, register_result, login_result, self_info, friend_known, chat_message,
  file_card, chat_send_result, add_friend_request, add_friend_result, friend_went, kicked_off,
  roam_list, roam_page, saved_self, saved_friend, saved_chat, notify, store, to_roam_message,
}

unfoldable pub on_register_rs : Option ℤ → Client → Client
on_register_rs none c = c
on_register_rs (some result) c = notify (register_result result) c

unfoldable pub on_login_rs : Option LoginRs → Client → Client
on_login_rs none c = c
on_login_rs (some rs) c = notify (login_result rs.result rs.user_id) (
    if int_eq rs.result login_success
    then record c { my_id = rs.user_id; access_token = rs.access_token }
    else c)

abbrev pub own_info : FriendInfo → UserInfo
own_info info = record {
  id = info.user_id;
  icon_id = info.icon_id;
  nick = info.nick;
  feeling = info.feeling;
}

unfoldable pub on_friend_info : Option FriendInfo → Client → Client
on_friend_info none c = c
on_friend_info (some info) c =
    if int_eq info.user_id c.my_id
    then notify (self_info (own_info info)) (
        store (saved_self (own_info info))
          (record c { icon_id = info.icon_id; nick = info.nick; feeling = info.feeling }))
    else notify (friend_known info) (store (saved_friend info) c)

-- `now` is time().
unfoldable pub on_chat_info_rq : ℕ → Option ChatInfoRq → Client → Client
on_chat_info_rq now none c = c
on_chat_info_rq now (some rq) c =
    if rq.type == 2 || rq.type == 1
    then notify (file_card rq) c
    else notify (chat_message rq.my_id rq.msg)
        (if is_pos c.my_id then store (saved_chat c.my_id rq.my_id false rq.msg now) c else c)

unfoldable pub on_chat_info_rs : Option ChatInfoRs → Client → Client
on_chat_info_rs none c = c
on_chat_info_rs (some rs) c = notify (chat_send_result rs.my_id rs.result) c

unfoldable pub on_add_fri_rq : Option AddFriendRq → Client → Client
on_add_fri_rq none c = c
on_add_fri_rq (some rq) c = notify (add_friend_request rq.my_id rq.my_nick) c

unfoldable pub on_add_fri_rs : Option AddFriendRs → Client → Client
on_add_fri_rs none c = c
on_add_fri_rs (some rs) c = notify (add_friend_result rs.result rs.my_nick) c

unfoldable pub on_friend_offline_pkt : Option ℤ → Client → Client
on_friend_offline_pkt none c = c
on_friend_offline_pkt (some user) c = notify (friend_went user) c

unfoldable pub on_roam_conv_rs : Option (List ChatInfoRq) → Client → Client
on_roam_conv_rs none c = c
on_roam_conv_rs (some convs) c = notify (roam_list (map to_roam_message convs)) c

unfoldable pub on_roam_msg_rs : Option RoamMsgRs → Client → Client
on_roam_msg_rs none c = c
on_roam_msg_rs (some rs) c =
    notify (roam_page rs.peer_id (map to_roam_message rs.msgs) rs.has_more rs.min_seq) c

-- A member function of the table, on the payload of its packet.
abbrev pub DealFun : Type 0
DealFun = Bytes → Client → Client

-- DEF_BASE and DEF_PROT_COUNT
abbrev pub def_base : ℕ
def_base = 1000

abbrev pub def_prot_count : ℕ
def_prot_count = 36

module _ (parse : Parse) (now : ℕ) where
  -- initFunArr: the entries of m_dealFunArr that are set, by their index.
  abbrev pub deal_funs : List (ℕ × DealFun)
  deal_funs =
      (1, λ p. on_register_rs (parse.register_rs p))
      ∷ (3, λ p. on_login_rs (parse.login_rs p))
      ∷ (4, λ p. on_friend_info (parse.friend_info p))
      ∷ (6, λ p. on_chat_info_rs (parse.chat_info_rs p))
      ∷ (5, λ p. on_chat_info_rq now (parse.chat_info_rq p))
      ∷ (8, λ p. on_add_fri_rs (parse.add_friend_rs p))
      ∷ (7, λ p. on_add_fri_rq (parse.add_friend_rq p))
      ∷ (9, λ p. on_friend_offline_pkt (parse.friend_offline p))
      ∷ (11, λ p c. c)
      ∷ (12, λ p c. notify kicked_off c)
      ∷ (14, λ p. on_roam_conv_rs (parse.roam_conv_rs p))
      ∷ (16, λ p. on_roam_msg_rs (parse.roam_msg_rs p))
      ∷ []

  -- The entry at an index; one that is not set is a null pointer.
  unfoldable pub deal_fun : ℕ → List (ℕ × DealFun) → Option DealFun
  deal_fun index [] = none
  deal_fun index ((i, f) ∷ fs) = let rest = deal_fun index fs in if i == index then some f else rest

  abbrev pub run_deal_fun : Option DealFun → DealFun
  run_deal_fun none p c = c
  run_deal_fun (some f) p c = f p c

  unfoldable pub dispatch_packet : Bytes → Client → Client
  unfolding deal_fun
  dispatch_packet body c =
      if ltb (length body) 4
      then c
      else if ltb (decode_type32 body) def_base
      then c
      else if leb def_prot_count (decode_type32 body - def_base)
      then c
      else run_deal_fun (deal_fun (decode_type32 body - def_base) deal_funs) (drop 4 body) c

  -- The packet handler that the constructor sets; `ticks` is steadyNowMs.
  unfoldable pub on_packet : ℕ → Bytes → Client → Client
  unfolding dispatch_packet
  on_packet ticks body c = dispatch_packet body (record c { last_recv_ms = ticks })
