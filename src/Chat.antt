-- ===== src/Chat.antt =====
-- src/server/chat.c: the global chat. The callback to the connected clients is not modelled.
use cs.Base.{ℕ, ◌||◌, List, ltb, ◌==◌, length}
use cs.Types.{ChatMessage}
use cs.Db.Monad.{M, or_return, ◌>>◌, return_if}
use cs.Db.Community.{db_save_chat_message, db_load_recent_chat_messages}

unfoldable pub send_chat_message : ℕ → List ℕ → List ℕ → M (Unit {0})
send_chat_message user_id username message = do
  return_if (user_id == 0) 1
  return_if (length message == 0 || ltb 255 (length message)) 2
  or_return 3 (db_save_chat_message user_id username message)

unfoldable pub get_recent_chat_messages : ℕ → M (List ChatMessage)
get_recent_chat_messages limit = db_load_recent_chat_messages limit
