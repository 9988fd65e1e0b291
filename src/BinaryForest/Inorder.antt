-- ===== src/BinaryForest/Inorder.antt =====
-- `bst_next` goes through a tree in order.
use salgo.Base.{
  ℕ, zero, suc, ◌+◌, ◌≤◌, ◌<◌, ◌≡◌, refl, ap, sym, ◌∙◌, true, false, Option, none, some, List, [],
  ◌∷◌, ◌++◌, length, length-append, ◌==◌, ◌>>=◌, arith,
}
use salgo.BinaryForest.{
  Node, Cells, is_handle, parent, child, link_of, is_left, is_ith_child, descend, ascend, bst_next,
}

-- The shape of a tree, with the handles of its nodes.
pub data Tree : Type 0 where
  leaf : Tree
  node : Tree → ℕ → Tree → Tree

abbrev pub root : Tree → Option ℕ
root leaf = none
root (node l h r) = some h

abbrev pub inorder : Tree → List ℕ
inorder leaf = []
inorder (node l h r) = inorder l ++ h ∷ inorder r

-- The first of a list, and what follows it where the list is empty.
abbrev pub first : List ℕ → Option ℕ → Option ℕ
first [] next = next
first (h ∷ hs) next = some h

-- The children of a node are two nodes.
abbrev pub TwoChildren : Option ℕ → Option ℕ → Type 0
TwoChildren left none = Unit
TwoChildren left (some c) = is_handle left c ≡ false

abbrev pub IsBinary : Tree → Type 0
IsBinary leaf = Unit
IsBinary (node l h r) = TwoChildren (root l) (root r) × IsBinary l × IsBinary r

first-append : (xs ys : List ℕ) (next : Option ℕ) → first (xs ++ ys) next ≡ first xs (first ys next)
first-append [] ys next = refl
first-append (x ∷ xs) ys next = refl

-- Where an element of a list in two parts, with one between them, stands.
data Splits (ls rs xs ys : List ℕ) (k h : ℕ) : Type 0 where
  in_left : (zs : List ℕ) → ls ≡ xs ++ h ∷ zs → ys ≡ zs ++ k ∷ rs → Splits ls rs xs ys k h
  between : h ≡ k → ys ≡ rs → Splits ls rs xs ys k h
  in_right : (ws : List ℕ) → rs ≡ ws ++ h ∷ ys → Splits ls rs xs ys k h

head_lem : {x y : ℕ} {xs ys : List ℕ} → x ∷ xs ≡ y ∷ ys → x ≡ y
head_lem e = cc

tail_lem : {x y : ℕ} {xs ys : List ℕ} → x ∷ xs ≡ y ∷ ys → xs ≡ ys
tail_lem e = cc

weaken :
    {ls rs xs ys : List ℕ} {k h a x : ℕ}
    → a ≡ x
    → Splits ls rs xs ys k h
    → Splits (a ∷ ls) rs (x ∷ xs) ys k h
weaken e (in_left zs f g) = in_left zs (cc) g
weaken e (between f g) = between f g
weaken e (in_right ws f) = in_right ws f

split_lem : (ls rs xs ys : List ℕ) (k h : ℕ) → ls ++ k ∷ rs ≡ xs ++ h ∷ ys → Splits ls rs xs ys k h
split_lem [] rs [] ys k h e = between (sym (head_lem e)) (sym (tail_lem e))
split_lem [] rs (x ∷ xs) ys k h e = in_right xs (tail_lem e)
split_lem (a ∷ ls) rs [] ys k h e = in_left ls (ap (λ z. z ∷ ls) (head_lem e)) (sym (tail_lem e))
split_lem (a ∷ ls) rs (x ∷ xs) ys k h e =
    weaken (head_lem e) (split_lem ls rs xs ys k h (tail_lem e))

suc_of : (n : ℕ) → 0 < n → (m : ℕ) × (n ≡ suc m)
suc_of zero h = absurd (omega arith)
suc_of (suc m) h = (m, refl)

module _ {ℓ} {V : Type ℓ} where
  -- The nodes are linked as the tree says, in both directions.
  abbrev pub IsTree : Cells V → Option ℕ → Tree → Type ℓ
  IsTree cells par leaf = Unit
  IsTree cells par (node l h r) =
      (v : V) × (cells h ≡ some (record { val = v; parent = par; left = root l; right = root r }))
      × IsTree cells (some h) l
      × IsTree cells (some h) r

  descend-first :
      (cells : Cells V) (par : Option ℕ) (l : Tree) (h : ℕ) (r : Tree) (fuel : ℕ) (next : Option ℕ)
      → IsTree cells par (node l h r)
      → length (inorder (node l h r)) ≤ fuel
      → (descend 0 fuel cells h >>= λ e. some (some e)) ≡ some (first (inorder (node l h r)) next)
  unfolding descend child link_of
  descend-first cells par l h r zero next t le =
      absurd (omega (arith, length-append (inorder l) (h ∷ inorder r)))
  descend-first cells par leaf h r (suc fuel) next (v, at, tl, tr) le = rw at refl
  descend-first cells par (node ll lh lr) h r (suc fuel) next (v, at, tl, tr) le =
      let size = length-append (inorder (node ll lh lr)) (h ∷ inorder r) in
      let rest = descend-first cells (some h) ll lh lr fuel next tl (omega (arith, size)) in
      let rest' = descend-first cells (some h) ll lh lr fuel (some h) tl (omega (arith, size)) in
      rw at (rest' ∙ ap some (sym (first-append (inorder (node ll lh lr)) (h ∷ inorder r) next)))

  -- From the root `k` of a subtree `bst_next` goes up to `next`.
  abbrev Climbs : Cells V → Option ℕ → ℕ → Option ℕ → Type 0
  Climbs cells none bound next = Unit
  Climbs cells (some k) bound next =
      (fuel : ℕ) → bound ≤ fuel → ascend is_left fuel cells k ≡ some next

  is_left-parent :
      (cells : Cells V) (c h : ℕ) (n m : Node V)
      → cells c ≡ some n
      → n.parent ≡ some h
      → cells h ≡ some m
      → is_left cells c ≡ some (is_handle m.left c)
  unfolding is_left is_ith_child parent child link_of
  is_left-parent cells c h n m e f g = rw (e, f, g) refl

  climb_left :
      (cells : Cells V) (par next : Option ℕ) (bound : ℕ) (l : Tree) (h : ℕ) (r : Tree)
      → IsTree cells par (node l h r)
      → Climbs cells (root l) (suc bound) (some h)
  unfolding ascend parent
  climb_left cells par next bound leaf h r t = tt
  climb_left cells par next bound (node ll lh lr) h r (v, at, (vl, at_l, _, _), tr) = λ fuel le.
      let (f, more) = suc_of fuel (omega arith) in
      let same : (lh == lh) ≡ true = ground arith in
      let asked = is_left-parent cells lh h _ _ at_l refl at in rw (more, at_l, asked, same) refl

  climb_right :
      (cells : Cells V) (par next : Option ℕ) (bound : ℕ) (l : Tree) (h : ℕ) (r : Tree)
      → IsTree cells par (node l h r)
      → TwoChildren (root l) (root r)
      → Climbs cells (some h) bound next
      → Climbs cells (root r) (suc bound) next
  unfolding ascend parent
  climb_right cells par next bound l h leaf t two up = tt
  climb_right cells par next bound l h (node rl rh rr) (v, at, tl, (vr, at_r, _, _)) two up =
      λ fuel le.
        let (f, more) = suc_of fuel (omega arith) in
        let asked = is_left-parent cells rh h _ _ at_r refl at in
        rw (more, at_r, asked, two) (up f (omega arith))

  climb_root : (cells : Cells V) (t : Tree) → IsTree cells none t → Climbs cells (root t) 1 none
  unfolding ascend parent
  climb_root cells leaf t = tt
  climb_root cells (node l h r) (v, at, _, _) =
      λ fuel le. let (f, more) = suc_of fuel (omega arith) in rw (more, at) refl

  -- At the root of a subtree: to the first node of the right subtree, or up.
  next_root :
      (cells : Cells V) (par next : Option ℕ) (bound : ℕ) (l : Tree) (k : ℕ) (r : Tree) (fuel : ℕ)
      → IsTree cells par (node l k r)
      → Climbs cells (some k) bound next
      → bound + length (inorder r) ≤ fuel
      → bst_next fuel cells k ≡ some (first (inorder r) next)
  unfolding bst_next child link_of
  next_root cells par next bound l k leaf fuel (v, at, tl, tr) up le = rw at (up fuel (omega arith))
  next_root cells par next bound l k (node rl rh rr) fuel (v, at, tl, tr) up le =
      rw at (descend-first cells (some k) rl rh rr fuel next tr (omega arith))

  next_from :
      (cells : Cells V) (par next : Option ℕ) (bound : ℕ) (t : Tree)
      → IsTree cells par t
      → IsBinary t
      → Climbs cells (root t) bound next
      → (xs ys : List ℕ) (h fuel : ℕ) → inorder t ≡ xs ++ h ∷ ys
      → bound + length (inorder t) ≤ fuel
      → bst_next fuel cells h ≡ some (first ys next)
  unfolding bst_next
  next_from cells par next bound leaf t b up [] ys h fuel e le = absurd (cc)
  next_from cells par next bound leaf t b up (x ∷ xs) ys h fuel e le = absurd (cc)
  next_from cells par next bound (node l k r) t b up xs ys h fuel e le =
      let size = length-append (inorder l) (k ∷ inorder r) in
      let (v, at, tl, tr) = t in
      elim (split_lem (inorder l) (inorder r) xs ys k h e) [
        | in_left zs f g ↦
            next_from cells (some k) (some k) (suc bound) l tl b.1
              (climb_left cells par next bound l k r t) xs zs h fuel f (omega (arith, size))
            ∙ ap some (sym (ap (λ z. first z next) g ∙ first-append zs (k ∷ inorder r) next))
        | between f g ↦
            ap (bst_next fuel cells) f
            ∙ next_root cells par next bound l k r fuel t up (omega (arith, size))
            ∙ ap (λ z. some (first z next)) (sym g)
        | in_right ws f ↦
            next_from cells (some k) next (suc bound) r tr b.2
              (climb_right cells par next bound l k r t b.0 up) ws ys h fuel f (omega (arith, size))
      ]

  -- In a tree whose nodes are linked in both directions `bst_next` ends, for every node, at the next
  -- node in order; at the last node it returns no node.
  pub bst_next-first :
      (cells : Cells V) (t : Tree) (xs ys : List ℕ) (h fuel : ℕ)
      → IsTree cells none t
      → IsBinary t
      → inorder t ≡ xs ++ h ∷ ys
      → length (inorder t) < fuel
      → bst_next fuel cells h ≡ some (first ys none)
  bst_next-first cells t xs ys h fuel links b e le =
      next_from cells none none 1 t links b (climb_root cells t links) xs ys h fuel e (omega arith)
