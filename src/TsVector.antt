-- ===== src/TsVector.antt =====
-- lib/ts_vector/src/ts_vector.c, for elements of one type. The block is the list of the elements written
-- to it, of which the first `size` are the vector's; `capacity` elements have room in it. The result of
-- `realloc` is an argument, and none is a write behind the block.
pub mod Refines
use acos_chat.Base.{
  ℕ, zero, suc, ◌+◌, ◌*◌, Bool, true, false, List, [], ◌∷◌, ◌++◌, Option, none, some, take, drop,
  ltb, ◌==◌, if◌then◌else◌,
}

pub record TsVector (A : Type 0) : Type 0 where
  pub block : List A
  pub size : ℕ
  pub capacity : ℕ

abbrev pub initial_capacity : ℕ
initial_capacity = 8

module _ {A : Type 0} where
  unfoldable pub init : TsVector A
  init = record { block = []; size = 0; capacity = initial_capacity }

  -- Whether `realloc` gives a block.
  unfoldable pub grow_up : Bool → TsVector A → TsVector A
  grow_up true v = record v { capacity = v.capacity * 2 }
  grow_up false v = v

  -- The `memcpy` and the new size.
  unfoldable pub write : A → TsVector A → Option (TsVector A)
  write val v =
      if ltb v.size v.capacity
      then some (record v {
        block = take v.size v.block ++ val ∷ drop (suc v.size) v.block;
        size = v.size + 1;
      })
      else none

  unfoldable pub push_back : Bool → A → TsVector A → Option (TsVector A)
  push_back given val v = write val (if v.size == v.capacity then grow_up given v else v)

  unfoldable pub clear : TsVector A → TsVector A
  clear v = record v { size = 0 }
