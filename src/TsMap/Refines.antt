-- ===== src/TsMap/Refines.antt =====
-- Any sequence of calls on a map answers like the same calls on the list of entries.
use acos_chat.Base.{ℕ, ◌≡◌, refl, ap, ap₂, ◌∙◌, Bool, false, not, List, [], ◌∷◌, length}
use acos_chat.TsMap.Spec.{Entry, has, get, put_new, erase}
use acos_chat.TsMap.Ops.{TsMap, insert, find_val, has_val, erase_key, size}
use acos_chat.TsMap.Laws

pub data Call : Type 0 where
  inserts : ℕ → ℕ → Call
  finds has_it erases : ℕ → Call
  counts : Call

-- What a call returns: a `bool`, a `void *` or a `size_t`.
pub data Answer : Type 0 where
  flag : Bool → Answer
  val : ℕ → Answer

unfoldable pub step : Call → TsMap → TsMap × Answer
step (inserts k v) m = ((insert m k v).0, flag (insert m k v).1)
step (finds k) m = ((find_val m k).0, val (find_val m k).1)
step (has_it k) m = ((has_val m k).0, flag (has_val m k).1)
step (erases k) m = ((erase_key m k).0, val (erase_key m k).1)
step counts m = (m, val (size m))

unfoldable pub answers : List Call → TsMap → List Answer
answers [] m = []
answers (c ∷ cs) m = (step c m).1 ∷ answers cs (step c m).0

-- The same calls on a list of entries.
unfoldable pub list_step : Call → List Entry → List Entry × Answer
list_step (inserts k v) es = (put_new k v es, flag (not (has k es)))
list_step (finds k) es = (es, val (get k es))
list_step (has_it k) es = (es, flag (has k es))
list_step (erases k) es = (erase k es, val (get k es))
list_step counts es = (es, val (length es))

unfoldable pub list_answers : List Call → List Entry → List Answer
list_answers [] es = []
list_answers (c ∷ cs) es = (list_step c es).1 ∷ list_answers cs (list_step c es).0

-- One call keeps the map valid and live, and is the call on the entries.
record Steps (c : Call) (m : TsMap) : Type 0 where
  valid : Laws.IsValid (step c m).0
  live : (step c m).0.frosen ≡ false
  moved : Laws.view (step c m).0 ≡ (list_step c (Laws.view m)).0
  answered : (step c m).1 ≡ (list_step c (Laws.view m)).1

step-Steps : (c : Call) (m : TsMap) → Laws.IsValid m → m.frosen ≡ false → Steps c m
unfolding step list_step
step-Steps (inserts k v) m h f = record {
  valid = Laws.insert-IsValid m h k v;
  live = Laws.frosen-insert m k v ∙ f;
  moved = Laws.view-insert m h k v f;
  answered = ap flag (Laws.insert_result m h k v f);
}
step-Steps (finds k) m h f = record {
  valid = Laws.find_val-IsValid m h k;
  live = Laws.frosen-find_val m k ∙ f;
  moved = Laws.view-find_val m h k;
  answered = ap val (Laws.find_val_result m h k);
}
step-Steps (has_it k) m h f = record {
  valid = Laws.has_val-IsValid m h k;
  live = Laws.frosen-has_val m k ∙ f;
  moved = Laws.view-has_val m h k;
  answered = ap flag (Laws.has_val_result m h k);
}
step-Steps (erases k) m h f = record {
  valid = Laws.erase_key-IsValid m h k;
  live = Laws.frosen-erase_key m k ∙ f;
  moved = Laws.view-erase_key m h k f;
  answered = ap val (Laws.erase_key_result m h k f);
}
step-Steps counts m h f = record {
  valid = h;
  live = f;
  moved = refl;
  answered = ap val (Laws.size-length m h);
}

-- From any valid map that is not frozen, the answers of every sequence of calls of ts_map_insert,
-- ts_map_find, ts_map_has, ts_map_erase and ts_map_size are those of the same calls on the
-- ascending list of its entries.
pub answers-refines :
    (cs : List Call) (m : TsMap)
    → Laws.IsValid m
    → m.frosen ≡ false
    → answers cs m ≡ list_answers cs (Laws.view m)
unfolding answers list_answers
answers-refines [] m h f = refl
answers-refines (c ∷ cs) m h f =
    let s = step-Steps c m h f in
    ap₂ ◌∷◌ s.answered
      (answers-refines cs (step c m).0 s.valid s.live ∙ ap (list_answers cs) s.moved)
