-- ===== src/TsMap/Reference.antt =====
-- Laws of the reference operations on ascending entries, and their lengths.
use acos_chat.Base.{ℕ, ◌<◌, ◌≡◌, refl, false, ◌||◌, List, [], ◌∷◌, if◌then◌else◌, ◌==◌, arith}
use acos_chat.TsMap.Spec.{Entry, Above, IsAscending, has, get, put_new, erase}
use acos_chat.TsMap.Order.{Above-mono, get-Above, has-Above}

Above-put_new : (b q w : ℕ) (es : List Entry) → b < q → Above b es → Above b (put_new q w es)
unfolding put_new
Above-put_new b q w [] h a = (h, tt)
Above-put_new b q w ((k, v) ∷ es) h a = ground (arith, Above-put_new b q w es)

pub put_new-IsAscending :
    (q w : ℕ) (es : List Entry) → IsAscending es → IsAscending (put_new q w es)
unfolding put_new
put_new-IsAscending q w [] a = (tt, tt)
put_new-IsAscending q w ((k, v) ∷ es) a =
    ground (arith, put_new-IsAscending q w es, Above-put_new k q w es, Above-mono q k es)

Above-erase : (b q : ℕ) (es : List Entry) → Above b es → Above b (erase q es)
unfolding erase
Above-erase b q [] a = tt
Above-erase b q ((k, v) ∷ es) a = ground (arith, Above-erase b q es)

pub erase-IsAscending : (q : ℕ) (es : List Entry) → IsAscending es → IsAscending (erase q es)
unfolding erase
erase-IsAscending q [] a = tt
erase-IsAscending q ((k, v) ∷ es) a = ground (arith, erase-IsAscending q es, Above-erase k q es)

pub has-put_new : (p q w : ℕ) (es : List Entry) → has p (put_new q w es) ≡ ((q == p) || has p es)
unfolding put_new has
has-put_new p q w [] = refl
has-put_new p q w ((k, v) ∷ es) = ground (arith, has-put_new p q w es)

pub get-put_new :
    (p q w : ℕ) (es : List Entry)
    → IsAscending es
    → get p (put_new q w es) ≡ (if q == p then (if has q es then get p es else w) else get p es)
unfolding put_new get has
get-put_new p q w [] a = ground arith
get-put_new p q w ((k, v) ∷ es) a =
    ground (arith, get-put_new p q w es, has-Above q es, Above-mono q k es)

pub has-erase :
    (p q : ℕ) (es : List Entry)
    → IsAscending es
    → has p (erase q es) ≡ (if q == p then false else has p es)
unfolding erase has
has-erase p q [] a = ground arith
has-erase p q ((k, v) ∷ es) a = ground (arith, has-erase p q es, has-Above p es)

pub get-erase :
    (p q : ℕ) (es : List Entry)
    → IsAscending es
    → get p (erase q es) ≡ (if q == p then 0 else get p es)
unfolding erase get
get-erase p q [] a = ground arith
get-erase p q ((k, v) ∷ es) a = ground (arith, get-erase p q es, get-Above p es)

pub get_absent : (p : ℕ) (es : List Entry) → has p es ≡ false → get p es ≡ 0
unfolding get has
get_absent p [] h = refl
get_absent p ((k, v) ∷ es) h = ground (arith, get_absent p es)
