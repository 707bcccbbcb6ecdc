-- ===== src/Server/Process/Users.antt =====
-- Whom the answer to `MESSAGE_CLIENT_LIST` lists.
use acos_chat.Base.{ℕ, ◌<◌, All, Bool, false, not, ◌&&◌, ◌||◌, List, [], ◌∷◌, if◌then◌else◌, ◌==◌}
use acos_chat.TsMap.Spec.{Entry}
use acos_chat.TsMap.Ops.{TsMap}
use acos_chat.TsMap.Ops
use acos_chat.TsMap.Laws
use acos_chat.ConnMgr.{ConnMgr}
use acos_chat.ConnMgr.Inv.{Inv}
use acos_chat.Message.{Token, int32, c_str}
use acos_chat.Server.Database.{Database}
use acos_chat.Server.Process.{printed}

abbrev pub is_in : ℕ → List ℕ → Bool
is_in u [] = false
is_in u (x ∷ xs) = (x == u) || is_in u xs

-- The uid is listed for this entry.
abbrev chosen : (ℕ → TsMap) → ℕ → ℕ → Bool
chosen maps key val = not (Ops.size (maps val) == 0) && not (key == 0)

choice : (ℕ → TsMap) → List Entry → List ℕ
choice maps [] = []
choice maps ((k, v) ∷ es) = if chosen maps k v then k ∷ choice maps es else choice maps es

-- In ascending order, so that each is there once.
abbrev pub Ascends : List ℕ → Type 0
Ascends [] = Unit
Ascends (u ∷ us) = All (λ v. u < v) us × Ascends us

module _ {D : Type 0} (api : Database D) where
  -- The uid and the login of each user.
  abbrev pub user_tokens : D → List ℕ → List Token
  user_tokens db [] = []
  user_tokens db (u ∷ us) =
      int32 u ∷ c_str (printed (api.get_login_by_uid db u)) ∷ user_tokens db us
