-- ===== src/LinkedList.antt =====
-- kernel/list.c: doubly linked lists of nodes in memory, between a head and a tail node.
pub mod Chain
pub mod Change
pub mod Walk
use tie_zhu_os.Base.{
  ℕ, zero, suc, ◌+◌, ◌^◌, ◌%◌, Bool, true, false, Option, none, some, Memory, update, ◌==◌,
  if◌then◌else◌,
}

-- The address of a `list_elem`.
abbrev pub Addr : Type 0
Addr = ℕ

abbrev pub null : Addr
null = 0

-- The `prev` and `next` of every node, and whether interrupts are on.
pub record Links : Type 0 where
  pub prev : Memory
  pub next : Memory
  pub intr_on : Bool

-- `list`: the addresses of its two end nodes.
pub record Ends : Type 0 where
  pub head : Addr
  pub tail : Addr

abbrev pub set_prev : Addr → Addr → Links → Links
set_prev a v s = record s { prev = update s.prev a v }

abbrev pub set_next : Addr → Addr → Links → Links
set_next a v s = record s { next = update s.next a v }

-- `intr_disable` and `intr_set_status`
abbrev pub intr_disable : Links → Links
intr_disable s = record s { intr_on = false }

abbrev pub intr_set_status : Bool → Links → Links
intr_set_status status s = record s { intr_on = status }

unfoldable pub list_init : Ends → Links → Links
list_init l s =
    set_prev l.tail l.head (set_next l.tail null (set_next l.head l.tail (set_prev l.head null s)))

unfoldable pub list_insert_before : Addr → Addr → Links → Links
list_insert_before before elem s =
    let s1 = set_prev elem (s.prev before) (intr_disable s) in
    let s2 = set_next elem before s1 in
    let s3 = set_next (s2.prev before) elem s2 in
    intr_set_status s.intr_on (set_prev before elem s3)

unfoldable pub list_push : Ends → Addr → Links → Links
list_push l elem s = list_insert_before (s.next l.head) elem s

unfoldable pub list_append : Ends → Addr → Links → Links
list_append l elem s = list_insert_before l.tail elem s

unfoldable pub list_remove : Addr → Links → Links
list_remove elem s =
    let s1 = set_prev (s.next elem) (s.prev elem) (intr_disable s) in
    let s2 = set_next (s1.prev elem) (s1.next elem) s1 in intr_set_status s.intr_on s2

unfoldable pub list_pop : Ends → Links → Addr × Links
list_pop l s = let elem = s.next l.head in (elem, list_remove elem s)

-- The loops walk from a node to the tail; `none` means that the fuel ran out.
find_loop : ℕ → Ends → Addr → Addr → Links → Option Bool
find_loop zero l elem now s = none
find_loop (suc fuel) l elem now s =
    let rest = find_loop fuel l elem (s.next now) s in
    if now == l.tail then some false else if now == elem then some true else rest

-- The early return of `true` leaves interrupts off.
pub list_elem_find : ℕ → Ends → Addr → Links → Option (Bool × Links)
unfolding find_loop
list_elem_find fuel l elem s = elim (find_loop fuel l elem (s.next l.head) (intr_disable s)) [
  | none ↦ none
  | some true ↦ some (true, intr_disable s)
  | some false ↦ some (false, intr_set_status s.intr_on (intr_disable s))
]

len_loop : ℕ → Ends → Addr → ℕ → Links → Option ℕ
len_loop zero l now len s = none
len_loop (suc fuel) l now len s =
    let rest = len_loop fuel l (s.next now) ((len + 1) % 2 ^ 32) s in
    if now == l.tail then some len else rest

pub list_len : ℕ → Ends → Links → Option ℕ
unfolding len_loop
list_len fuel l s = len_loop fuel l (s.next l.head) 0 s

unfoldable pub list_isempty : Ends → Links → Bool
list_isempty l s = s.next l.head == l.tail

-- A callback takes a node, reads and changes a state of its own, and says whether to stop. `null`
-- stands for the returned `NULL`.
traversal_loop {ℓ} :
    {S : Type ℓ} → ℕ → Ends → (Addr → S → Bool × S) → Addr → Links → S → Option (Addr × S)
traversal_loop zero l func now s t = none
traversal_loop (suc fuel) l func now s t =
    let rest = traversal_loop fuel l func (s.next now) s (func now t).1 in
    if now == l.tail
    then some (null, t)
    else if (func now t).0
    then some (now, (func now t).1)
    else rest

pub list_traversal {ℓ} :
    {S : Type ℓ} → ℕ → Ends → (Addr → S → Bool × S) → Links → S → Option (Addr × S)
unfolding traversal_loop
list_traversal fuel l func s t =
    if list_isempty l s then some (null, t) else traversal_loop fuel l func (s.next l.head) s t

-- `cnt` of `list_each` is not initialised: `garbage` is what its memory holds.
pub list_each : ℕ → ℕ → Ends → Links → Option ℕ
unfolding len_loop
list_each garbage fuel l s =
    if list_isempty l s then some 0 else len_loop fuel l (s.next l.head) garbage s
