-- ===== src/LinkedList/Chain.antt =====
-- What a well-formed list is: the nodes between the two ends, linked both ways, all distinct.
use tie_zhu_os.Base.{◌≡◌, refl, ◌≢◌, Bool, true, false, ◌||◌, List, [], ◌∷◌, ◌++◌, ap, arith, ◌==◌}
use tie_zhu_os.LinkedList.{Addr, Links, Ends}

abbrev pub has : Addr → List Addr → Bool
has a [] = false
has a (x ∷ xs) = (a == x) || has a xs

abbrev pub Distinct : List Addr → Type 0
Distinct [] = Unit
Distinct (x ∷ xs) = (has x xs ≡ false) × Distinct xs

-- From `p` the links lead through `xs` to `q`, and back.
abbrev pub Chain : Links → Addr → List Addr → Addr → Type 0
Chain s p [] q = (s.next p ≡ q) × (s.prev q ≡ p)
Chain s p (x ∷ xs) q = (s.next p ≡ x) × (s.prev x ≡ p) × Chain s x xs q

abbrev pub nodes : Ends → List Addr → List Addr
nodes l xs = l.head ∷ xs ++ l.tail ∷ []

pub record IsList (s : Links) (l : Ends) (xs : List Addr) : Type 0 where
  pub linked : Chain s l.head xs l.tail
  pub distinct : Distinct (nodes l xs)

-- The first node of a list that ends at `q`, and the last of one that starts at `p`.
abbrev pub first : List Addr → Addr → Addr
first [] q = q
first (y ∷ ys) q = y

abbrev pub last : Addr → List Addr → Addr
last p [] = p
last p (x ∷ xs) = last x xs

pub has-last : (p : Addr) (xs zs : List Addr) → has (last p xs) (p ∷ xs ++ zs) ≡ true
has-last p [] zs = ground arith
has-last p (x ∷ xs) zs = ground (arith, has-last x xs zs)

pub prev-first :
    (s : Links) (p : Addr) (xs ys : List Addr) (q : Addr)
    → Chain s p (xs ++ ys) q
    → s.prev (first ys q) ≡ last p xs
prev-first s p [] [] q c = c.1
prev-first s p [] (y ∷ ys) q c = c.1
prev-first s p (x ∷ xs) ys q c = prev-first s x xs ys q c.2

pub has-first : (xs ys : List Addr) (q : Addr) → has (first ys q) (xs ++ ys ++ q ∷ []) ≡ true
has-first [] [] q = ground arith
has-first [] (y ∷ ys) q = ground arith
has-first (x ∷ xs) ys q = ground (arith, has-first xs ys q)

-- A chain stands where the links of its own nodes are kept.
pub frame :
    (s t : Links) (p : Addr) (xs : List Addr) (q : Addr)
    → ((a : Addr) → has a (p ∷ xs) ≡ true → t.next a ≡ s.next a)
    → ((a : Addr) → has a (xs ++ q ∷ []) ≡ true → t.prev a ≡ s.prev a)
    → Chain s p xs q
    → Chain t p xs q
frame s t p [] q n b c = ground (arith, n p, b q)
frame s t p (x ∷ xs) q n b c =
    ground (
      arith,
      n p,
      b x,
      frame s t x xs q (λ a h. n a (ground arith)) (λ a h. b a (ground arith)) c.2,
    )

pub next-middle :
    (s : Links) (p e : Addr) (xs ys : List Addr) (q : Addr)
    → Chain s p (xs ++ e ∷ ys) q
    → s.next e ≡ first ys q
next-middle s p e [] [] q c = c.2.0
next-middle s p e [] (y ∷ ys) q c = c.2.0
next-middle s p e (x ∷ xs) ys q c = next-middle s x e xs ys q c.2

-- The node behind `e` comes after `xs` and `e`.
pub has-next :
    (e : Addr) (xs ys : List Addr) (q : Addr) → has (first ys q) (xs ++ (e ∷ ys) ++ q ∷ []) ≡ true
has-next e [] [] q = ground arith
has-next e [] (y ∷ ys) q = ground arith
has-next e (x ∷ xs) ys q = ground (arith, has-next e xs ys q)

pub next_ne :
    (e : Addr) (xs ys : List Addr) (q : Addr) → Distinct (xs ++ (e ∷ ys) ++ q ∷ []) → first ys q ≢ e
next_ne e [] [] q d h = ground arith
next_ne e [] (y ∷ ys) q d h = ground arith
next_ne e (x ∷ xs) ys q d h = next_ne e xs ys q d.1 h

pub has-append :
    (e : Addr) (left right : List Addr) → has e (left ++ right) ≡ (has e left || has e right)
has-append e [] right = refl
has-append e (x ∷ left) right = ground (arith, has-append e left right)

pub ne_of_has : (a b : Addr) (xs : List Addr) → has a xs ≡ true → has b xs ≡ false → a ≢ b
ne_of_has a b xs h k e = ground (arith, ap (λ c. has c xs) e)

pub Chain-next :
    (s : Links) (p : Addr) (ys : List Addr) (q : Addr) → Chain s p ys q → s.next p ≡ first ys q
Chain-next s p [] q c = c.0
Chain-next s p (y ∷ ys) q c = c.0
