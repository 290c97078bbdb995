-- ===== src/Protocol.antt =====
-- CodeNamesServer/include/PacketProtocol.h: the packet tags that the server reads and writes, and
-- how a packet is put together from fields.
pub mod Parsing
pub mod Sizes
use codenames_cpp_vibecoding.Prelude.{
  ℕ, Bool, List, [], ◌∷◌, ◌++◌, Option, none, some, if◌then◌else◌, drop, length,
}
use codenames_cpp_vibecoding.Text.{Bytes, text, pipe, starts_with}

abbrev pub pkt_query_wait : Bytes
pkt_query_wait = text "CMD|QUERY_WAIT"

abbrev pub pkt_wait_reply : Bytes
pkt_wait_reply = text "WAIT_REPLY"

abbrev pub pkt_queue_full : Bytes
pkt_queue_full = text "QUEUE_FULL"

abbrev pub pkt_queue_error : Bytes
pkt_queue_error = text "QUEUE_ERROR"

abbrev pub pkt_invalid_token : Bytes
pkt_invalid_token = text "INVALID_TOKEN"

abbrev pub pkt_session_ack : Bytes
pkt_session_ack = text "SESSION_ACK"

abbrev pub pkt_session_not_found : Bytes
pkt_session_not_found = text "SESSION_NOT_FOUND"

abbrev pub pkt_cancel_ok : Bytes
pkt_cancel_ok = text "CANCEL_OK"

abbrev pub pkt_lobby_error_unknown : Bytes
pkt_lobby_error_unknown = text "LOBBY_ERROR|UNKNOWN_PACKET"

abbrev pub pkt_check_id : Bytes
pkt_check_id = text "CHECK_ID"

abbrev pub pkt_check_id_duplicate : Bytes
pkt_check_id_duplicate = text "CHECK_ID_DUPLICATE"

abbrev pub pkt_check_id_ok : Bytes
pkt_check_id_ok = text "CHECK_ID_OK"

abbrev pub pkt_signup : Bytes
pkt_signup = text "SIGNUP"

abbrev pub pkt_signup_ok : Bytes
pkt_signup_ok = text "SIGNUP_OK"

abbrev pub pkt_signup_duplicate : Bytes
pkt_signup_duplicate = text "SIGNUP_DUPLICATE"

abbrev pub pkt_signup_error : Bytes
pkt_signup_error = text "SIGNUP_ERROR"

abbrev pub pkt_login : Bytes
pkt_login = text "LOGIN"

abbrev pub pkt_login_ok : Bytes
pkt_login_ok = text "LOGIN_OK"

abbrev pub pkt_login_no_account : Bytes
pkt_login_no_account = text "LOGIN_NO_ACCOUNT"

abbrev pub pkt_login_wrong_pw : Bytes
pkt_login_wrong_pw = text "LOGIN_WRONG_PW"

abbrev pub pkt_login_suspended : Bytes
pkt_login_suspended = text "LOGIN_SUSPENDED"

abbrev pub pkt_login_error : Bytes
pkt_login_error = text "LOGIN_ERROR"

abbrev pub pkt_token : Bytes
pkt_token = text "TOKEN"

abbrev pub pkt_token_valid : Bytes
pkt_token_valid = text "TOKEN_VALID"

abbrev pub pkt_edit_nick : Bytes
pkt_edit_nick = text "EDIT_NICK"

abbrev pub pkt_nickname_edit_ok : Bytes
pkt_nickname_edit_ok = text "NICKNAME_EDIT_OK"

abbrev pub pkt_nickname_edit_error : Bytes
pkt_nickname_edit_error = text "NICKNAME_EDIT_ERROR"

abbrev pub pkt_auth_error_unknown : Bytes
pkt_auth_error_unknown = text "AUTH_ERROR|UNKNOWN_PACKET"

abbrev pub pkt_game_init : Bytes
pkt_game_init = text "GAME_INIT"

abbrev pub pkt_all_cards : Bytes
pkt_all_cards = text "ALL_CARDS"

abbrev pub pkt_card_update : Bytes
pkt_card_update = text "CARD_UPDATE"

abbrev pub pkt_turn_update : Bytes
pkt_turn_update = text "TURN_UPDATE"

abbrev pub pkt_hint_msg : Bytes
pkt_hint_msg = text "HINT"

abbrev pub pkt_chat : Bytes
pkt_chat = text "CHAT"

abbrev pub pkt_answer : Bytes
pkt_answer = text "ANSWER"

abbrev pub pkt_answer_result : Bytes
pkt_answer_result = text "ANSWER_RESULT"

abbrev pub pkt_game_over : Bytes
pkt_game_over = text "GAME_OVER"

abbrev pub pkt_game_not_implemented : Bytes
pkt_game_not_implemented = text "GAME_NOT_IMPLEMENTED"

abbrev pub pkt_empty : Bytes
pkt_empty = text "EMPTY"

abbrev pub pkt_game_create_error : Bytes
pkt_game_create_error = text "GAME_CREATE_ERROR"

abbrev pub pkt_matching_cancel : Bytes
pkt_matching_cancel = text "MATCHING_CANCEL"

abbrev pub pkt_session_ready : Bytes
pkt_session_ready = text "SESSION_READY"

abbrev pub pkt_game_start : Bytes
pkt_game_start = text "GAME_START"

-- `"|" + field` for each field in turn.
unfoldable pub fields : List Bytes → Bytes
fields [] = []
fields (f ∷ fs) = pipe ∷ (f ++ fields fs)

-- A tag and its fields.
unfoldable pub packet : Bytes → List Bytes → Bytes
unfolding fields
packet tag fs = tag ++ fields fs

-- What stands behind `tag + "|"`, for data that `find`s it at position 0.
unfoldable pub payload : Bytes → Bytes → Option Bytes
payload tag data_in =
    if starts_with (tag ++ pipe ∷ []) data_in
    then some (drop (length (tag ++ pipe ∷ [])) data_in)
    else none
