-- ===== src/Message/Status.antt =====
-- The status message, which `send_status_code` writes by hand.
use acos_chat.Base.{ℕ, ◌≡◌, refl, [], ◌∷◌}
use acos_chat.Message.{int32, be32, pack_message, pack_tokens, pack_size, status_buffer}

-- For every status `send_status_code` sends what `pack_message` makes of a message of the type 's'
-- with the status as its one token.
pub status_buffer_lem :
    (status : ℕ)
    → status_buffer status ≡ pack_message (record { msg_type = 115; tokens = int32 status ∷ [] })
unfolding status_buffer pack_message pack_tokens pack_size be32
status_buffer_lem status = refl
