-- ===== src/LinkedList/Change.antt =====
-- Insertion and removal keep a list well-formed.
use tie_zhu_os.Base.{◌≡◌, ◌≢◌, false, List, [], ◌∷◌, ◌++◌, append-nil, append_assoc, arith}
use tie_zhu_os.LinkedList.{
  Addr, Links, Ends, list_init, list_insert_before, list_push, list_append, list_remove, list_pop,
}
use tie_zhu_os.LinkedList.Chain.{
  has, Distinct, Chain, nodes, IsList, first, last, has-last, prev-first, has-first, frame,
  next-middle, next_ne, has-next, Chain-next, has-append, ne_of_has,
}

insert-Chain :
    (s : Links) (p e : Addr) (xs ys : List Addr) (q : Addr)
    → Chain s p (xs ++ ys) q
    → Distinct (p ∷ (xs ++ ys) ++ q ∷ [])
    → has e (p ∷ (xs ++ ys) ++ q ∷ []) ≡ false
    → Chain (list_insert_before (first ys q) e s) p (xs ++ e ∷ ys) q
unfolding list_insert_before
insert-Chain s p e [] [] q c d f = ground arith
insert-Chain s p e [] (y ∷ ys) q c d f =
    let t = list_insert_before y e s in
    let kept =
      frame s t y ys q
        (λ a h. ground (
          arith,
          ne_of_has a p (y ∷ ys ++ q ∷ []),
          ne_of_has a e (y ∷ ys ++ q ∷ []),
          has-append a ys (q ∷ []),
        ))
        (λ a h. ground (arith, ne_of_has a y (ys ++ q ∷ []), ne_of_has a e (ys ++ q ∷ []))) c.2 in
    ground arith
insert-Chain s p e (x ∷ xs) ys q c d f =
    let w = prev-first s x xs ys q c.2 in
    let rest = insert-Chain s x e xs ys q c.2 d.1 (ground arith) in
    ground (
      arith,
      has-last x xs (ys ++ q ∷ []),
      append_assoc xs ys (q ∷ []),
      has-first xs ys q,
      ne_of_has (last x xs) p (x ∷ xs ++ ys ++ q ∷ []),
      ne_of_has (first ys q) x (xs ++ ys ++ q ∷ []),
    )

Distinct-insert :
    (e : Addr) (xs ys : List Addr)
    → Distinct (xs ++ ys)
    → has e (xs ++ ys) ≡ false
    → Distinct (xs ++ e ∷ ys)
Distinct-insert e [] ys d f = (f, d)
Distinct-insert e (x ∷ xs) ys d f = ground (
  arith,
  Distinct-insert e xs ys d.1,
  has-append x xs ys,
  has-append x xs (e ∷ ys),
  has-append e xs ys,
)

Distinct-remove : (e : Addr) (xs ys : List Addr) → Distinct (xs ++ e ∷ ys) → Distinct (xs ++ ys)
Distinct-remove e [] ys d = d.1
Distinct-remove e (x ∷ xs) ys d =
    ground (arith, Distinct-remove e xs ys d.1, has-append x xs ys, has-append x xs (e ∷ ys))

-- `list_insert_before` the first node of `ys`, or the tail where `ys` is empty, puts a node that is
-- not in the list between `xs` and `ys`, and the list stays well-formed.
pub insert_before-IsList :
    (s : Links) (l : Ends) (e : Addr) (xs ys : List Addr)
    → IsList s l (xs ++ ys)
    → has e (nodes l (xs ++ ys)) ≡ false
    → IsList (list_insert_before (first ys l.tail) e s) l (xs ++ e ∷ ys)
insert_before-IsList s l e xs ys v f = record {
  linked = insert-Chain s l.head e xs ys l.tail v.linked v.distinct f;
  distinct = rw (append_assoc xs (e ∷ ys) (l.tail ∷ [])) (
      Distinct-insert e (l.head ∷ xs) (ys ++ l.tail ∷ [])
        (rw (append_assoc xs ys (l.tail ∷ [])) at v.distinct)
        (rw (append_assoc xs ys (l.tail ∷ [])) at f));
}

remove-Chain :
    (s : Links) (p e : Addr) (xs ys : List Addr) (q : Addr)
    → Chain s p (xs ++ e ∷ ys) q
    → Distinct (p ∷ (xs ++ e ∷ ys) ++ q ∷ [])
    → Chain (list_remove e s) p (xs ++ ys) q
unfolding list_remove
remove-Chain s p e [] [] q c d = ground arith
remove-Chain s p e [] (y ∷ ys) q c d =
    let t = list_remove e s in
    let kept =
      frame s t y ys q
        (λ a h. ground (arith, ne_of_has a p (y ∷ ys ++ q ∷ []), has-append a ys (q ∷ [])))
        (λ a h. ground (arith, ne_of_has a y (ys ++ q ∷ []))) c.2.2 in
    ground arith
remove-Chain s p e (x ∷ xs) ys q c d =
    let w = prev-first s x xs (e ∷ ys) q c.2 in
    let rest = remove-Chain s x e xs ys q c.2 d.1 in
    ground (
      arith,
      next-middle s x e xs ys q c.2,
      append_assoc xs (e ∷ ys) (q ∷ []),
      next_ne e xs ys q d.1.1,
      has-last x xs ((e ∷ ys) ++ q ∷ []),
      has-next e xs ys q,
      ne_of_has (last x xs) p (x ∷ xs ++ (e ∷ ys) ++ q ∷ []),
      ne_of_has (first ys q) x (xs ++ (e ∷ ys) ++ q ∷ []),
    )

-- `list_remove` takes a node out of the list that it stands in; the list stays well-formed, with
-- the others in order.
pub remove-IsList :
    (s : Links) (l : Ends) (e : Addr) (xs ys : List Addr)
    → IsList s l (xs ++ e ∷ ys)
    → IsList (list_remove e s) l (xs ++ ys)
remove-IsList s l e xs ys v = record {
  linked = remove-Chain s l.head e xs ys l.tail v.linked v.distinct;
  distinct = rw (append_assoc xs ys (l.tail ∷ [])) (
      Distinct-remove e (l.head ∷ xs) (ys ++ l.tail ∷ [])
        (rw (append_assoc xs (e ∷ ys) (l.tail ∷ [])) at v.distinct));
}

-- `list_init` makes an empty list of two different end nodes.
pub init-IsList : (s : Links) (l : Ends) → l.head ≢ l.tail → IsList (list_init l s) l []
unfolding list_init
init-IsList s l h = ground arith

-- `list_push` and `list_append` put a new node in front and behind, and `list_pop` takes the
-- first node out and returns it.
pub push-IsList :
    (s : Links) (l : Ends) (e : Addr) (xs : List Addr)
    → IsList s l xs
    → has e (nodes l xs) ≡ false
    → IsList (list_push l e s) l (e ∷ xs)
unfolding list_push
push-IsList s l e xs v f =
    rw (Chain-next s l.head xs l.tail v.linked) (insert_before-IsList s l e [] xs v f)

pub append-IsList :
    (s : Links) (l : Ends) (e : Addr) (xs : List Addr)
    → IsList s l xs
    → has e (nodes l xs) ≡ false
    → IsList (list_append l e s) l (xs ++ e ∷ [])
unfolding list_append
append-IsList s l e xs v f = insert_before-IsList s l e xs [] (rw append-nil v) (rw append-nil f)

pub pop-IsList :
    (s : Links) (l : Ends) (x : Addr) (xs : List Addr)
    → IsList s l (x ∷ xs)
    → ((list_pop l s).0 ≡ x) × IsList (list_pop l s).1 l xs
unfolding list_pop
pop-IsList s l x xs v = (v.linked.0, rw v.linked.0 (remove-IsList s l x [] xs v))
