-- ===== src/Server/Tables.antt =====
-- The handlers and deleters that the server's loops know: `workers_init` of lab_2/chat/src/server/worker.c,
-- `controller_init` and the end of `controller_thread` of lab_2/chat/src/server/controller.c. A function is
-- known by a number that tells the type of the events it is written for.
use acos_chat.Base.{ℕ, ◌+◌}
use acos_chat.TsMap.Ops.{TsMap}
use acos_chat.TsMap.Ops
use acos_chat.EventLoop.{EventLoop, event_loop_init}

-- The types of the events.
abbrev pub broadcast_message_event_type : ℕ
broadcast_message_event_type = 1

abbrev pub change_worker_cnt_event_type : ℕ
change_worker_cnt_event_type = 2

abbrev pub input_msg_event_type : ℕ
input_msg_event_type = 4

abbrev pub process_message_job_type : ℕ
process_message_job_type = 5

abbrev pub send_message_job_type : ℕ
send_message_job_type = 6

abbrev pub worker_exit_event_type : ℕ
worker_exit_event_type = 7

-- The numbers of the functions.
abbrev pub handler_of : ℕ → ℕ
handler_of type = 100 + type

abbrev pub deleter_of : ℕ → ℕ
deleter_of type = 200 + type

abbrev pub with_handler : {P : Type 0} → EventLoop P → ℕ → ℕ → EventLoop P
with_handler el type f = record el { handlers = (Ops.insert el.handlers type f).0 }

abbrev pub with_deleter : {P : Type 0} → EventLoop P → ℕ → ℕ → EventLoop P
with_deleter el type f = record el { deleters = (Ops.insert el.deleters type f).0 }

module _ {P : Type 0} where
  unfoldable pub workers_init : EventLoop P → EventLoop P
  workers_init el =
      let handles =
        with_handler el process_message_job_type (handler_of process_message_job_type) in
      let deletes =
        with_deleter handles process_message_job_type (deleter_of process_message_job_type) in
      with_handler deletes send_message_job_type (handler_of send_message_job_type)

  -- The loop of the controller after `controller_init`.
  unfoldable pub controller_loop : EventLoop P
  controller_loop =
      let el : EventLoop P = event_loop_init in
      let cnt =
        with_handler el change_worker_cnt_event_type (handler_of change_worker_cnt_event_type) in
      let exit = with_handler cnt worker_exit_event_type (handler_of worker_exit_event_type) in
      let input = with_handler exit input_msg_event_type (handler_of input_msg_event_type) in
      let input_del = with_deleter input input_msg_event_type (deleter_of input_msg_event_type) in
      let msg =
        with_handler input_del broadcast_message_event_type
          (handler_of broadcast_message_event_type) in
      with_deleter msg broadcast_message_event_type (deleter_of broadcast_message_event_type)

  -- `controller_thread`, before it waits for its workers.
  unfoldable pub stop_taking : EventLoop P → EventLoop P
  stop_taking el =
      let fewer = (Ops.erase_key el.handlers change_worker_cnt_event_type).0 in
      record el { handlers = (Ops.erase_key fewer input_msg_event_type).0 }
