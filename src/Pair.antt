-- ===== src/Pair.antt =====
-- runtime/list.c: pairs, and the check that a value is a proper list. The heap is the list of the
-- pairs, and the address of a pair is its position; objects of other types are `other`, by address.
-- Every address stands for an object, so a value that is no pair of the heap is of another type.
-- The immutable flag, which the collector uses, and the messages of errors are not modelled.
pub mod Walk
pub mod Proper
use mudlle.Prelude.{
  ℕ, zero, suc, ◌+◌, ◌*◌, ◌-◌, ◌/◌, ◌%◌, List, [], ◌∷◌, ◌++◌, Bool, true, false, ◌&&◌, not, Option,
  none, some, ◌==◌, if◌then◌else◌, length, get_elem?, set, ◌>>=◌,
}
use mudlle.Error.{RuntimeError, bad_type, loop, value_read_only, Result, raised, returned}

pub data Value : Type 0 where
  null : Value
  integer : ℕ → Value
  pair : ℕ → Value
  other : ℕ → Value

-- `struct list`
pub record Pair : Type 0 where
  pub car : Value
  pub cdr : Value
  pub readonly : Bool

abbrev pub Heap : Type 0
Heap = List Pair

-- `a == b` of two values
abbrev pub value_eq : Value → Value → Bool
value_eq null null = true
value_eq (integer m) (integer n) = m == n
value_eq (pair m) (pair n) = m == n
value_eq (other m) (other n) = m == n
value_eq _ _ = false

-- The pair, if the value is one.
abbrev pub fetch : Heap → Value → Option Pair
fetch heap null = none
fetch heap (integer n) = none
fetch heap (pair a) = get_elem? heap a
fetch heap (other a) = none

unfoldable pub cons : Value → Value → Heap → Value × Heap
cons car cdr heap =
    (pair (length heap), heap ++ (record { car = car; cdr = cdr; readonly = false } ∷ []))

unfoldable pub pcons : Value → Value → Heap → Value × Heap
pcons car cdr heap =
    (pair (length heap), heap ++ (record { car = car; cdr = cdr; readonly = true } ∷ []))

unfoldable pub code_car : Heap → Value → Result Value
code_car heap l = elim (fetch heap l) [ none ↦ raised bad_type | some p ↦ returned p.car ]

unfoldable pub code_cdr : Heap → Value → Result Value
code_cdr heap l = elim (fetch heap l) [ none ↦ raised bad_type | some p ↦ returned p.cdr ]

unfoldable pub pairp : Heap → Value → Bool
pairp heap v = elim (fetch heap v) [ none ↦ false | some p ↦ true ]

unfoldable pub nullp : Value → Bool
nullp v = value_eq v null

unfoldable pub listp : Heap → Value → Bool
unfolding nullp pairp
listp heap v = if nullp v then true else pairp heap v

abbrev pub address : Value → ℕ
address null = 0
address (integer n) = 0
address (pair a) = a
address (other a) = a

-- The result of a write to a pair, and the heap after it.
unfoldable pub set_carb : Heap → Value → Value → Result (Value × Heap)
set_carb heap l x = elim (fetch heap l) [
  | none ↦ raised bad_type
  | some p ↦
      if p.readonly
      then raised value_read_only
      else returned (x, set heap (address l) (record p { car = x }))
]

unfoldable pub set_cdrb : Heap → Value → Value → Result (Value × Heap)
set_cdrb heap l x = elim (fetch heap l) [
  | none ↦ raised bad_type
  | some p ↦
      if p.readonly
      then raised value_read_only
      else returned (x, set heap (address l) (record p { cdr = x }))
]

-- `list`: from the last argument to the first, each goes to the front.
unfoldable pub list : List Value → Heap → Value × Heap
unfolding cons
list [] heap = (null, heap)
list (x ∷ args) heap = let (l, heap') = list args heap in cons x l heap'

-- The same with read-only pairs.
unfoldable pub plist : List Value → Heap → Value × Heap
unfolding pcons
plist [] heap = (null, heap)
plist (x ∷ args) heap = let (l, heap') = plist args heap in pcons x l heap'

module _ (heap : Heap) (is_typeset : Value → Bool) (max_vector_size : ℕ) where
  -- The loop of `check_proper_list`. `none` is a null pointer that is followed, or that the rounds
  -- have run out.
  unfoldable pub proper_loop : ℕ → Value → Value → ℕ → Option (Result ℕ)
  proper_loop zero l slowl n = none
  proper_loop (suc rounds) null slowl n = some (returned n)
  proper_loop (suc rounds) l slowl n =
      if n == max_vector_size then some (raised loop) else elim (fetch heap l) [
        | none ↦ some (raised bad_type)
        | some p ↦ if not (is_typeset p.car) then some (raised bad_type) else (do
          slowl' ← (if n % 2 == 1 then (fetch heap slowl >>= λ q. some q.cdr) else some slowl)
          let rest = proper_loop rounds p.cdr slowl' (n + 1)
          if value_eq slowl' p.cdr then some (raised loop) else rest)
      ]

  -- Floyd's algorithm: `slowl` takes one step for two of `l`.
  unfoldable pub check_proper_list : Value → Option (Result ℕ)
  unfolding proper_loop
  check_proper_list l = proper_loop (max_vector_size + 1) l l 0
