-- ===== src/Server/Broadcasts/Jobs.antt =====
-- Who gets a broadcast.
use acos_chat.Base.{ℕ, ◌≡◌, sym, ◌∙◌, List, [], ◌∷◌, ◌++◌, map, append_assoc, append-nil}
use acos_chat.TsMap.Spec.{Entry}
use acos_chat.TsMap.Laws.{view, fold_entries}
use acos_chat.TsMap.Laws
use acos_chat.ConnMgr.{ConnMgr}
use acos_chat.Server.{Broadcast}
use acos_chat.Server.Broadcasts.{
  SendJob, new_send_message_job, broadcast_message_callback, broadcast,
}

fold-jobs :
    (evt : Broadcast) (es : List Entry) (jobs : List SendJob)
    → fold_entries (broadcast_message_callback evt) es jobs
      ≡ jobs ++ map (λ e. new_send_message_job e.0 evt) es
unfolding broadcast_message_callback
fold-jobs evt [] jobs = sym (append-nil jobs)
fold-jobs evt ((k, v) ∷ es) jobs =
    fold-jobs evt es (jobs ++ new_send_message_job k evt ∷ [])
    ∙ append_assoc jobs (new_send_message_job k evt ∷ [])
        (map (λ e. new_send_message_job e.0 evt) es)

-- A broadcast becomes one job for each connection in the map of connections, in its order, with
-- the text, the time, the type and the login of the event.
pub broadcast_lem :
    {D : Type 0} (insert : D → ℕ → List ℕ → ℕ → D) (evt : Broadcast) (c : ConnMgr) (db : D)
    → (broadcast insert evt c db).1
      ≡ map
          (λ e. record {
            sid = e.0;
            tstamp = evt.tstamp;
            kind = evt.kind;
            login = evt.login;
            text = evt.text;
          })
          (view c.sid_to_uid)
unfolding broadcast new_send_message_job
broadcast_lem insert evt c db =
    Laws.forall_entries-fold c.sid_to_uid (broadcast_message_callback evt) []
    ∙ fold-jobs evt (view c.sid_to_uid) []
