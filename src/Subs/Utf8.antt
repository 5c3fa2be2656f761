-- ===== src/Subs/Utf8.antt =====
-- A character has at most four bytes in UTF-8.
use obhod.Prelude.{◌+◌, ◌*◌, ◌≤◌, ◌≡◌, String, subst, sym, arith, suc}
use Prim.Native.Nat.{Ordering, compare}
use Prim.Native.Char.{Char, code, len_utf8, len_utf8_def, width}
use Prim.Native.String.{[], ◌∷◌, len, count}
use Prim.Native.String.len
use Prim.Native.String.count

width-le : (o p q : Ordering) → width o p q ≤ 4
width-le Ordering.lt _ _ = omega arith
width-le Ordering.eq Ordering.lt _ = omega arith
width-le Ordering.eq Ordering.eq Ordering.lt = omega arith
width-le Ordering.eq Ordering.eq Ordering.eq = omega arith
width-le Ordering.eq Ordering.eq Ordering.gt = omega arith
width-le Ordering.eq Ordering.gt Ordering.lt = omega arith
width-le Ordering.eq Ordering.gt Ordering.eq = omega arith
width-le Ordering.eq Ordering.gt Ordering.gt = omega arith
width-le Ordering.gt Ordering.lt _ = omega arith
width-le Ordering.gt Ordering.eq Ordering.lt = omega arith
width-le Ordering.gt Ordering.eq Ordering.eq = omega arith
width-le Ordering.gt Ordering.eq Ordering.gt = omega arith
width-le Ordering.gt Ordering.gt Ordering.lt = omega arith
width-le Ordering.gt Ordering.gt Ordering.eq = omega arith
width-le Ordering.gt Ordering.gt Ordering.gt = omega arith

len_utf8-le : (c : Char) → len_utf8 c ≤ 4
len_utf8-le c =
    subst (λ n. n ≤ 4) (sym (len_utf8_def c))
      (width-le (compare (code c) 128) (compare (code c) 2048) (compare (code c) 65536))

pub len-le-count : (t : String) → len t ≤ 4 * count t
len-le-count [] = omega (arith, len.nil, count.nil)
len-le-count (c ∷ t) =
    let bytes : len (c ∷ t) ≡ len_utf8 c + len t = len.cons c t in
    let chars : count (c ∷ t) ≡ suc (count t) = count.cons c t in
    omega (arith, len_utf8-le c, len-le-count t)
