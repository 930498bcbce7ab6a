-- ===== src/Dlist.antt =====
-- dlist.c and dlist.h: doubly linked lists whose nodes stand in a ring. A pointer is an address,
-- and the store has the two fields of each node; `none` is NULL. A function returns the store
-- after it, or `none` for a failed assertion or a read through NULL.
pub mod Ring
pub mod Operations
use mudlle.Prelude.{
  ℕ, zero, suc, ◌+◌, Bool, true, false, ◌&&◌, Option, some, none, ◌==◌, if◌then◌else◌, ◌>>=◌, ◌>>◌,
  guard,
}

pub record Store : Type 0 where
  pub next : ℕ → Option ℕ
  pub prev : ℕ → Option ℕ

abbrev pub is_null : Option ℕ → Bool
is_null none = true
is_null (some p) = false

-- `p->next = q` and `p->prev = q`
unfoldable pub set_next : ℕ → Option ℕ → Store → Store
set_next p q s = record s { next = λ a. if a == p then q else s.next a }

unfoldable pub set_prev : ℕ → Option ℕ → Store → Store
set_prev p q s = record s { prev = λ a. if a == p then q else s.prev a }

unfoldable pub init_dlist : ℕ → Store → Store
init_dlist head s = set_prev head (some head) (set_next head (some head) s)

unfoldable pub dlist_is_empty : ℕ → Store → Option Bool
dlist_is_empty head s = do next ← s.next head; some (next == head)

unfoldable pub dlist_insert_before : ℕ → ℕ → Store → Option Store
dlist_insert_before place node s = do
  guard (is_null (s.next node) && is_null (s.prev node))
  let s1 = set_next node (some place) (set_prev node (s.prev place) s)
  before ← s1.prev place
  some (set_prev place (some node) (set_next before (some node) s1))

unfoldable pub dlist_insert_after : ℕ → ℕ → Store → Option Store
dlist_insert_after place node s = do
  guard (is_null (s.next node) && is_null (s.prev node))
  let s1 = set_prev node (some place) s
  let s2 = set_next node (s1.next place) s1
  behind ← s2.next place
  some (set_next place (some node) (set_prev behind (some node) s2))

unfoldable pub dlist_remove : ℕ → Store → Option Store
dlist_remove what s = do
  before ← s.prev what
  let s1 = set_next before (s.next what) s
  behind ← s1.next what
  let s2 = set_prev behind (s1.prev what) s1
  some (set_next what none (set_prev what none s2))

-- The loop of `dlist_entries` on fuel, which bounds the nodes.
unfoldable pub count_loop : ℕ → ℕ → Store → ℕ → ℕ → Option ℕ
count_loop zero head s d n = none
count_loop (suc fuel) head s d n =
    if d == head then some n else do next ← s.next d; count_loop fuel head s next (n + 1)

unfoldable pub dlist_entries : ℕ → ℕ → Store → Option ℕ
dlist_entries fuel head s = do first ← s.next head; count_loop fuel head s first 0
