-- ===== src/Charset.antt =====
-- charset.c and charset.h: the conversion macros and the comparisons that ignore case and accents.
-- A byte is a number below 256. A C string is the list of its bytes before the NUL, and a memory
-- block the list of its bytes; `none` is a read past the end of a block.
mod Tables
pub mod Laws
use Prim.Native.Nat.{bit_and}
use mudlle.Prelude.{
  ℕ, zero, suc, ◌≡◌, List, [], ◌∷◌, Bool, not, Option, none, some, ltb, ◌==◌, if◌then◌else◌, get_or,
}
use mudlle.Prelude.Int.{ℤ, pos, negsuc}
use Tables.{
  latin1_to_ascii_print, latin1_to_ascii_icmp, latin1_char_class, latin1_to_upper, latin1_to_lower,
}

unfoldable pub to_7print : ℕ → ℕ
to_7print c = get_or latin1_to_ascii_print c 0

unfoldable pub to_7lower : ℕ → ℕ
to_7lower c = get_or latin1_to_ascii_icmp c 0

unfoldable pub to_8upper : ℕ → ℕ
to_8upper c = get_or latin1_to_upper c 0

unfoldable pub to_8lower : ℕ → ℕ
to_8lower c = get_or latin1_to_lower c 0

-- `c1 < c2 ? -1 : 1`
abbrev pub unequal : ℕ → ℕ → ℤ
unequal c1 c2 = if ltb c1 c2 then negsuc 0 else pos 1

-- The character classes: a bit of the class table, or one of two bits. Of the two bits of a
-- printing character that is no space exactly the first is set.
unfoldable pub is_8ccls : ℕ → ℕ → Bool
is_8ccls mask c = not (bit_and (get_or latin1_char_class c 0) mask == 0)

unfoldable pub is_8alpha : ℕ → Bool
unfolding is_8ccls
is_8alpha c = is_8ccls 4 c

unfoldable pub is_8alphanum : ℕ → Bool
unfolding is_8ccls
is_8alphanum c = is_8ccls 0x14 c

unfoldable pub is_8digit : ℕ → Bool
unfolding is_8ccls
is_8digit c = is_8ccls 0x10 c

unfoldable pub is_8name : ℕ → Bool
unfolding is_8ccls
is_8name c = is_8ccls 1 c

unfoldable pub is_8namenum : ℕ → Bool
unfolding is_8ccls
is_8namenum c = is_8ccls 0x11 c

unfoldable pub is_8nospace : ℕ → Bool
is_8nospace c = bit_and (get_or latin1_char_class c 0) 0x22 == 2

unfoldable pub is_8objname : ℕ → Bool
unfolding is_8ccls
is_8objname c = is_8ccls 0x19 c

unfoldable pub is_8print : ℕ → Bool
unfolding is_8ccls
is_8print c = is_8ccls 2 c

unfoldable pub is_8space : ℕ → Bool
unfolding is_8ccls
is_8space c = is_8ccls 0x20 c

-- A string's end reads as the byte 0.
unfoldable pub str7icmp : List ℕ → List ℕ → ℤ
str7icmp [] [] = pos 0
str7icmp [] (b ∷ s2) = if 0 == to_7lower b then pos 0 else unequal 0 (to_7lower b)
str7icmp (a ∷ s1) [] = if to_7lower a == 0 then pos 0 else unequal (to_7lower a) 0
str7icmp (a ∷ s1) (b ∷ s2) =
    let rest = str7icmp s1 s2 in
    let c1 = to_7lower a in
    let c2 = to_7lower b in if c1 == c2 then (if c1 == 0 then pos 0 else rest) else unequal c1 c2

unfoldable pub str7nicmp : List ℕ → List ℕ → ℕ → ℤ
str7nicmp s1 s2 zero = pos 0
str7nicmp [] [] (suc n) = pos 0
str7nicmp [] (b ∷ s2) (suc n) = if 0 == to_7lower b then pos 0 else unequal 0 (to_7lower b)
str7nicmp (a ∷ s1) [] (suc n) = if to_7lower a == 0 then pos 0 else unequal (to_7lower a) 0
str7nicmp (a ∷ s1) (b ∷ s2) (suc n) =
    let rest = str7nicmp s1 s2 n in
    let c1 = to_7lower a in
    let c2 = to_7lower b in if c1 == c2 then (if c1 == 0 then pos 0 else rest) else unequal c1 c2

unfoldable pub mem7icmp : List ℕ → List ℕ → ℕ → Option ℤ
mem7icmp s1 s2 zero = some (pos 0)
mem7icmp [] s2 (suc n) = none
mem7icmp (a ∷ s1) [] (suc n) = none
mem7icmp (a ∷ s1) (b ∷ s2) (suc n) =
    let rest = mem7icmp s1 s2 n in
    let c1 = to_7lower a in let c2 = to_7lower b in if c1 == c2 then rest else some (unequal c1 c2)

-- The result is the bytes from the match on; `none` is the null pointer.
unfoldable pub mem7ichr : List ℕ → ℕ → ℕ → Option (List ℕ)
mem7ichr s c zero = none
mem7ichr [] c (suc n) = none
mem7ichr (b ∷ s) c (suc n) =
    let rest = mem7ichr s c n in if to_7lower c == to_7lower b then some (b ∷ s) else rest

-- The conversions of a string in place.
unfoldable pub strto7print : List ℕ → List ℕ
strto7print [] = []
strto7print (c ∷ str) = to_7print c ∷ strto7print str

unfoldable pub str8lwr : List ℕ → List ℕ
str8lwr [] = []
str8lwr (c ∷ str) = to_8lower c ∷ str8lwr str

unfoldable pub str7lwr : List ℕ → List ℕ
str7lwr [] = []
str7lwr (c ∷ str) = to_7lower c ∷ str7lwr str
