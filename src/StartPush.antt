-- ===== src/StartPush.antt =====
-- startPush/: the program that starts a push, and what becomes of it.
pub mod Users
use push_system.Daemon.State.{ProduceMsgRequest}

-- The request that `main` sends.
abbrev pub begin_push_request : ProduceMsgRequest
begin_push_request = record { msg_id = 123456; start_uid = 0; end_uid = 200000000 }
