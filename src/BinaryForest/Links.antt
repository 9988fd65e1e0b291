-- ===== src/BinaryForest/Links.antt =====
-- Linking a child.
use salgo.Base.{
  ℕ, zero, suc, ◌<◌, ◌≡◌, ◌≢◌, refl, sym, ◌∙◌, true, false, Option, none, some, ◌==◌, arith,
}
use salgo.BinaryForest.{Node, Cells, store, link_of, with_link, child, parent, link_child}

module _ {ℓ} {V : Type ℓ} where
  pub store_self : (cells : Cells V) (h : ℕ) (n : Option (Node V)) → store cells h n h ≡ n
  unfolding store
  store_self cells h n = let same : (h == h) ≡ true = ground arith in rw same

  pub store_other :
      (cells : Cells V) (h i : ℕ) (n : Option (Node V)) → i ≢ h → store cells h n i ≡ cells i
  unfolding store
  store_other cells h i n ne = let miss : (i == h) ≡ false = ground arith in rw miss

  link_of-with_link :
      (n : Node V) (ith : ℕ) (c : Option ℕ) → ith < 2 → link_of (with_link n ith c) ith ≡ some c
  unfolding link_of with_link
  link_of-with_link n zero c h = refl
  link_of-with_link n (suc zero) c h = refl
  link_of-with_link n (suc (suc i)) c h = absurd (omega arith)

  -- `c` is the child `ith` of `h`, and no node but these two differs.
  pub record Linked (ith h c : ℕ) (cells cells' : Cells V) : Type ℓ where
    pub below : child cells' h ith ≡ some (some c)
    pub above : parent cells' c ≡ some (some h)
    pub others : (i : ℕ) → i ≢ h → i ≢ c → cells' i ≡ cells i

  -- A node without a parent can be linked to another node as a child that is missing there: the
  -- code does not fault, and afterwards the links name each other and no other node differs.
  pub link_child-Linked :
      (ith h c : ℕ) (n m : Node V) (cells : Cells V)
      → ith < 2
      → c ≢ h
      → cells h ≡ some n
      → link_of n ith ≡ some none
      → cells c ≡ some m
      → m.parent ≡ none
      → (cells' : Cells V) × (link_child ith h c cells ≡ some cells') × Linked ith h c cells cells'
  unfolding link_child
  link_child-Linked ith h c n m cells two ne at_h free at_c root =
      let n' = with_link n ith (some c) in
      let linked = store cells h (some n') in
      let at_c' : linked c ≡ some m = store_other cells h c (some n') ne ∙ at_c in
      let m' : Node V = record m { parent = some h } in
      let cells' = store linked c (some m') in
      let kept : cells' h ≡ some n' =
        store_other linked c h (some m') (λ e. ne (sym e)) ∙ store_self cells h (some n') in
      (
        cells',
        rw (at_h, free, at_c', root),
        record {
          below = unfold child in rw kept (link_of-with_link n ith (some c) two);
          above = unfold parent in rw (store_self linked c (some m'));
          others =
              λ i nh nc. store_other linked c i (some m') nc ∙ store_other cells h i (some n') nh;
        },
      )
