-- ===== src/LinkedList/Walk.antt =====
-- The loops over a well-formed list end, and agree with the list that it holds.
use tie_zhu_os.Base.{
  ℕ, zero, suc, ◌+◌, ◌%◌, ◌^◌, ◌<◌, ◌≡◌, refl, Bool, false, some, List, [], ◌∷◌, ◌++◌, length,
  arith, ◌==◌, if◌then◌else◌,
}
use tie_zhu_os.LinkedList.{
  Addr, null, Links, Ends, intr_disable, find_loop, list_elem_find, len_loop, list_len,
  list_isempty, list_each, traversal_loop, list_traversal,
}
use tie_zhu_os.LinkedList.Chain.{has, Distinct, Chain, IsList, first, Chain-next, has-append}

-- What a traversal of a list does: the callback runs on each node in turn until it says stop.
pub scan_list {ℓ} : {S : Type ℓ} → (Addr → S → Bool × S) → List Addr → S → Addr × S
scan_list func [] t = (null, t)
scan_list func (x ∷ xs) t =
    let rest = scan_list func xs (func x t).1 in if (func x t).0 then (x, (func x t).1) else rest

module _ (s : Links) (l : Ends) where
  -- The tail is none of the nodes before it.
  not-tail : (x : Addr) (xs : List Addr) → Distinct (x ∷ xs ++ l.tail ∷ []) → (x == l.tail) ≡ false
  not-tail x xs d = ground (arith, has-append x xs (l.tail ∷ []))

  find_loop_lem :
      (fuel : ℕ) (e p : Addr) (xs : List Addr)
      → length xs < fuel
      → Chain s p xs l.tail
      → Distinct (xs ++ l.tail ∷ [])
      → find_loop fuel l e (first xs l.tail) s ≡ some (has e xs)
  unfolding find_loop
  find_loop_lem zero e p xs h c d = absurd (omega arith)
  find_loop_lem (suc fuel) e p [] h c d = ground arith
  find_loop_lem (suc fuel) e p (x ∷ xs) h c d = ground (
    arith,
    not-tail x xs d,
    Chain-next s x xs l.tail c.2,
    find_loop_lem fuel e x xs (omega arith) c.2 d.1,
  )

  find_loop_intr :
      (fuel : ℕ) (e now : Addr) → find_loop fuel l e now (intr_disable s) ≡ find_loop fuel l e now s
  unfolding find_loop
  find_loop_intr zero e now = refl
  find_loop_intr (suc fuel) e now = ground (arith, find_loop_intr fuel e (s.next now))

  len_loop_lem :
      (fuel n : ℕ) (p : Addr) (xs : List Addr)
      → length xs < fuel
      → n < 2 ^ 32
      → Chain s p xs l.tail
      → Distinct (xs ++ l.tail ∷ [])
      → len_loop fuel l (first xs l.tail) n s ≡ some ((n + length xs) % 2 ^ 32)
  unfolding len_loop
  len_loop_lem zero n p xs h hn c d = absurd (omega arith)
  len_loop_lem (suc fuel) n p [] h hn c d = ground arith
  len_loop_lem (suc fuel) n p (x ∷ xs) h hn c d = ground (
    arith,
    not-tail x xs d,
    Chain-next s x xs l.tail c.2,
    len_loop_lem fuel ((n + 1) % 2 ^ 32) x xs (omega arith) (omega arith) c.2 d.1,
  )

  traversal_loop_lem {ℓ} :
      {S : Type ℓ} (fuel : ℕ) (func : Addr → S → Bool × S) (t : S) (p : Addr) (xs : List Addr)
      → length xs < fuel
      → Chain s p xs l.tail
      → Distinct (xs ++ l.tail ∷ [])
      → traversal_loop fuel l func (first xs l.tail) s t ≡ some (scan_list func xs t)
  unfolding traversal_loop scan_list
  traversal_loop_lem zero func t p xs h c d = absurd (omega arith)
  traversal_loop_lem (suc fuel) func t p [] h c d = ground arith
  traversal_loop_lem (suc fuel) func t p (x ∷ xs) h c d = ground (
    arith,
    not-tail x xs d,
    Chain-next s x xs l.tail c.2,
    traversal_loop_lem fuel func (func x t).1 x xs (omega arith) c.2 d.1,
  )

  -- Over a well-formed list, with more fuel than it has nodes, `list_elem_find` says whether the
  -- node is in the list; if it is, interrupts are left off, and else as they were.
  pub list_elem_find_lem :
      (xs : List Addr) (fuel : ℕ) (e : Addr)
      → IsList s l xs
      → length xs < fuel
      → list_elem_find fuel l e s
        ≡ some (has e xs, record s { intr_on = if has e xs then false else s.intr_on })
  unfolding list_elem_find
  list_elem_find_lem xs fuel e v h = ground (
    arith,
    find_loop_intr fuel e (s.next l.head),
    Chain-next s l.head xs l.tail v.linked,
    find_loop_lem fuel e l.head xs h v.linked v.distinct.1,
  )

  -- Over a well-formed list, with more fuel than it has nodes, `list_len` is their number.
  pub list_len_lem :
      (xs : List Addr) (fuel : ℕ)
      → IsList s l xs
      → length xs < fuel
      → list_len fuel l s ≡ some (length xs % 2 ^ 32)
  unfolding list_len
  list_len_lem xs fuel v h = ground (
    arith,
    Chain-next s l.head xs l.tail v.linked,
    len_loop_lem fuel 0 l.head xs h (omega arith) v.linked v.distinct.1,
  )

  -- Over a well-formed list, with more fuel than it has nodes, `list_traversal` returns the first
  -- node at which the callback says stop, and `NULL` if there is none; the callback has run on each
  -- node up to it, in order.
  pub list_traversal_lem {ℓ} :
      {S : Type ℓ} (xs : List Addr) (fuel : ℕ) (func : Addr → S → Bool × S) (t : S)
      → IsList s l xs
      → length xs < fuel
      → list_traversal fuel l func s t ≡ some (scan_list func xs t)
  unfolding list_traversal list_isempty scan_list
  list_traversal_lem [] fuel func t v h = ground arith
  list_traversal_lem (x ∷ xs) fuel func t v h =
      rw (v.linked.0, not-tail x xs v.distinct.1)
        (traversal_loop_lem fuel func t l.head (x ∷ xs) h v.linked v.distinct.1)

  -- `list_each` counts from the uninitialised value of its counter: over a non-empty list the
  -- result is off by that value, modulo 2 ^ 32.
  pub list_each_lem :
      (x : Addr) (xs : List Addr) (garbage fuel : ℕ)
      → IsList s l (x ∷ xs)
      → length (x ∷ xs) < fuel
      → garbage < 2 ^ 32
      → list_each garbage fuel l s ≡ some ((garbage + length (x ∷ xs)) % 2 ^ 32)
  unfolding list_each list_isempty
  list_each_lem x xs garbage fuel v h g =
      rw (v.linked.0, not-tail x xs v.distinct.1)
        (len_loop_lem fuel garbage l.head (x ∷ xs) h g v.linked v.distinct.1)
