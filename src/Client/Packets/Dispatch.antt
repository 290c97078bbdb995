-- ===== src/Client/Packets/Dispatch.antt =====
-- PacketHandler::RegisterDefaultHandlers and ProcessPacket: which handler a packet goes to.
use codenames_cpp_vibecoding.Prelude.{List, [], ◌∷◌, none, some, if◌then◌else◌}
use codenames_cpp_vibecoding.Assoc
use codenames_cpp_vibecoding.Text.{Bytes, text, pipe, is_empty, bytes_eq, split_at}
use codenames_cpp_vibecoding.Protocol.{
  pkt_signup_ok, pkt_signup_error, pkt_login_ok, pkt_login_no_account, pkt_login_wrong_pw,
  pkt_login_suspended, pkt_login_error, pkt_nickname_edit_ok, pkt_signup_duplicate,
  pkt_nickname_edit_error, pkt_check_id_duplicate, pkt_check_id_ok, pkt_token_valid,
  pkt_invalid_token, pkt_wait_reply, pkt_queue_full, pkt_session_ack, pkt_session_not_found,
  pkt_game_init, pkt_game_start, pkt_all_cards, pkt_turn_update, pkt_hint_msg, pkt_card_update,
  pkt_chat, pkt_game_over,
}
use codenames_cpp_vibecoding.Client.{GameState, Client, Notice}
use codenames_cpp_vibecoding.Client.Packets.{
  handle_login_ok, handle_invalid_token, handle_user_profile, handle_wait_reply, handle_queue_full,
  handle_game_init, handle_game_start, handle_all_cards, handle_role_info, handle_turn_update,
  handle_hint_msg, handle_card_update, handle_chat_msg, handle_game_over, handle_error,
  handle_login_failure,
}

abbrev pub pkt_auth_error : Bytes
pkt_auth_error = text "AUTH_ERROR"

abbrev pub pkt_role_info : Bytes
pkt_role_info = text "ROLE_INFO"

abbrev pub pkt_error : Bytes
pkt_error = text "ERROR"

-- The callbacks that are registered.
pub data Handler : Type 0 where
  on_signup_ok on_login_ok on_user_profile on_invalid_token : Handler
  on_login_failure : Bytes → Handler
  on_wait_reply on_queue_full on_game_init on_game_start on_all_cards on_role_info : Handler
  on_turn_update on_hint_msg on_card_update on_chat_msg on_over on_error : Handler

unfoldable pub register_handler : Bytes → Handler → List (Bytes × Handler) → List (Bytes × Handler)
register_handler tag h table = Assoc.insert bytes_eq tag h table

-- The registrations in their order; a later one for the same tag replaces the callback.
abbrev pub registrations : List (Bytes × Handler)
registrations =
    (pkt_signup_ok, on_signup_ok)
    ∷ (pkt_signup_error, on_error)
    ∷ (pkt_login_ok, on_login_ok)
    ∷ (pkt_login_no_account, on_login_failure (text "Account not found"))
    ∷ (pkt_login_wrong_pw, on_login_failure (text "Wrong password"))
    ∷ (pkt_login_suspended, on_login_failure (text "Account suspended"))
    ∷ (pkt_login_error, on_login_failure (text "Login error"))
    ∷ (pkt_nickname_edit_ok, on_error)
    ∷ (pkt_signup_duplicate, on_error)
    ∷ (pkt_nickname_edit_error, on_error)
    ∷ (pkt_check_id_duplicate, on_error)
    ∷ (pkt_check_id_ok, on_error)
    ∷ (pkt_token_valid, on_user_profile)
    ∷ (pkt_invalid_token, on_invalid_token)
    ∷ (pkt_auth_error, on_error)
    ∷ (pkt_signup_duplicate, on_error)
    ∷ (pkt_nickname_edit_ok, on_error)
    ∷ (pkt_wait_reply, on_wait_reply)
    ∷ (pkt_queue_full, on_queue_full)
    ∷ (pkt_session_ack, on_error)
    ∷ (pkt_session_not_found, on_error)
    ∷ (pkt_game_init, on_game_init)
    ∷ (pkt_game_start, on_game_start)
    ∷ (pkt_all_cards, on_all_cards)
    ∷ (pkt_role_info, on_role_info)
    ∷ (pkt_turn_update, on_turn_update)
    ∷ (pkt_hint_msg, on_hint_msg)
    ∷ (pkt_card_update, on_card_update)
    ∷ (pkt_chat, on_chat_msg)
    ∷ (pkt_game_over, on_over)
    ∷ (pkt_error, on_error)
    ∷ []

register_all : List (Bytes × Handler) → List (Bytes × Handler) → List (Bytes × Handler)
unfolding register_handler
register_all [] table = table
register_all ((tag, h) ∷ rest) table = register_all rest (register_handler tag h table)

unfoldable pub default_handlers : List (Bytes × Handler)
unfolding register_all register_handler
default_handlers = register_all registrations []

-- The type of a packet and its data: the text before and behind the first delimiter.
unfoldable pub packet_parts : Bytes → Bytes × Bytes
packet_parts d = elim (split_at pipe d) [ none ↦ (d, []) | some parts ↦ parts ]

module _ {O : Type 0} (on : Notice → GameState → O → O) where
  -- The call of a callback.
  unfoldable pub run_handler : Handler → Bytes → Client O → Client O
  run_handler on_signup_ok d c = handle_login_ok on d c
  run_handler on_login_ok d c = handle_login_ok on d c
  run_handler on_user_profile d c = handle_user_profile on d c
  run_handler on_invalid_token d c = handle_invalid_token on c
  run_handler (on_login_failure reason) d c = handle_login_failure on reason c
  run_handler on_wait_reply d c = handle_wait_reply on d c
  run_handler on_queue_full d c = handle_queue_full on c
  run_handler on_game_init d c = handle_game_init on d c
  run_handler on_game_start d c = handle_game_start on d c
  run_handler on_all_cards d c = handle_all_cards on d c
  run_handler on_role_info d c = handle_role_info on d c
  run_handler on_turn_update d c = handle_turn_update on d c
  run_handler on_hint_msg d c = handle_hint_msg on d c
  run_handler on_card_update d c = handle_card_update on d c
  run_handler on_chat_msg d c = handle_chat_msg on d c
  run_handler on_over d c = handle_game_over on d c
  run_handler on_error d c = handle_error on c

  unfoldable pub dispatch_packet : Bytes → Bytes → Client O → Client O
  dispatch_packet type d c = elim (Assoc.lookup bytes_eq type default_handlers) [
    | none ↦ c
    | some h ↦ run_handler h d c
  ]

  unfoldable pub process_packet : Bytes → Client O → Client O
  unfolding dispatch_packet
  process_packet d c =
      if is_empty d
      then c
      else (let (type, content) = packet_parts d in dispatch_packet type content c)
