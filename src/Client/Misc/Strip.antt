-- ===== src/Client/Misc/Strip.antt =====
-- What `str_strip` makes of a text.
use acos_chat.Base.{ℕ, ◌≡◌, List, [], ◌∷◌, false, ◌&&◌, ◌==◌}
use acos_chat.Client.Misc.{is_low}

-- No low byte follows an equal one.
abbrev pub IsSqueezed : ℕ → List ℕ → Type 0
IsSqueezed prev [] = Unit
IsSqueezed prev (c ∷ str) = (((c == prev) && is_low prev) ≡ false) × IsSqueezed c str
