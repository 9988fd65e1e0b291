-- ===== src/Kd.antt =====
-- include/salgo/_/linalg/kd.hpp: `Kd`, a tree of boxes that is split along one axis after the other.
-- The nodes have links to their children only and no two links name one node, so that a tree is a
-- data type; the number that the forest gives a node stands in its entry. Vectors are functions from
-- the axis.
pub mod Bounds
pub mod Search
pub mod Live
pub mod Nearest
pub mod Closest
pub mod Singular
use salgo.Base.{
  ℕ, ◌+◌, ◌-◌, ◌%◌, ◌<◌, ◌≡◌, Bool, true, false, not, ◌&&◌, ◌==◌, if◌then◌else◌, List, [], ◌∷◌,
  ◌++◌,
}

-- `Scalar`: `<` and `-`. Of the order it is asked that no two numbers are incomparable.
pub record Scalar {ℓ} (S : Type ℓ) : Type ℓ where
  pub less : S → S → Bool
  pub minus : S → S → S
  pub less_asym : (a b : S) → less a b ≡ true → less b a ≡ false
  pub less_trans : (a b c : S) → less b a ≡ false → less c b ≡ false → less c a ≡ false

-- The boxes of keys: `min()` and `max()`.
pub record Box {ℓ} (S B : Type ℓ) : Type ℓ where
  pub lower : B → ℕ → S
  pub upper : B → ℕ → S

-- The boxes of queries, and `intersects`, which holds only if the boxes meet along every axis.
pub record Query {ℓ} (S B Q : Type ℓ) (dim : ℕ) ⦃scalar : Scalar S⦄ ⦃box : Box S B⦄ : Type ℓ where
  pub query_lower : Q → ℕ → S
  pub query_upper : Q → ℕ → S
  pub intersects : B → Q → Bool
  pub meets_above :
      (b : B) (q : Q) (axis : ℕ)
      → axis < dim
      → intersects b q ≡ true
      → scalar.less (box.upper b axis) (query_lower q axis) ≡ false
  pub meets_below :
      (b : B) (q : Q) (axis : ℕ)
      → axis < dim
      → intersects b q ≡ true
      → scalar.less (query_upper q axis) (box.lower b axis) ≡ false

-- What `Node` keeps of an element.
pub record Entry {ℓ} (B V : Type ℓ) : Type ℓ where
  pub handle : ℕ
  pub aabb : B
  pub kv : V
  pub erased : Bool

-- A node with its `l_to` and `r_fr` and its children.
pub data Tree {ℓ} (S B V : Type ℓ) : Type ℓ where
  empty : Tree S B V
  node : Entry B V → (l_to r_fr : S) → (left right : Tree S B V) → Tree S B V

pub record Kd {ℓ} (S B V : Type ℓ) : Type ℓ where
  pub tree : Tree S B V
  pub counter : ℕ

module _ {ℓ} {B V : Type ℓ} where
  -- `Accessor::erase`
  unfoldable pub mark : ℕ → Entry B V → Entry B V
  mark h e = if e.handle == h then record e { erased = true } else e

module _ {ℓ} {S B V : Type ℓ} where
  -- `has_left()` and `has_right()` of a node with this child
  unfoldable pub is_node : Tree S B V → Bool
  is_node empty = false
  is_node (node e l_to r_fr left right) = true

  unfoldable pub mark_all : ℕ → Tree S B V → Tree S B V
  mark_all h empty = empty
  mark_all h (node e l_to r_fr left right) =
      node (mark h e) l_to r_fr (mark_all h left) (mark_all h right)

  unfoldable pub erase : ℕ → Kd S B V → Kd S B V
  erase h kd = record { tree = mark_all h kd.tree; counter = kd.counter - 1 }

  -- The entries of the nodes, each before those below it.
  unfoldable pub entries : Tree S B V → List (Entry B V)
  entries empty = []
  entries (node e l_to r_fr left right) = e ∷ (entries left ++ entries right)

module _ {ℓ} {S : Type ℓ} ⦃scalar : Scalar S⦄ where
  -- `a <= b`, `std::max` and `std::min`
  unfoldable pub at_most : S → S → Bool
  at_most a b = not (scalar.less b a)

  unfoldable pub max_of : S → S → S
  max_of a b = if scalar.less a b then b else a

  unfoldable pub min_of : S → S → S
  min_of a b = if scalar.less b a then b else a

module _ {ℓ} {S B V : Type ℓ} (dim : ℕ) ⦃scalar : Scalar S⦄ ⦃box : Box S B⦄ where
  -- The loop of `_emplace`. The new node comes with what its `l_to` and `r_fr` hold, which the
  -- source leaves as the memory was.
  unfoldable pub descend : (axis : ℕ) → Entry B V → (l_to r_fr : S) → Tree S B V → Tree S B V
  descend axis e l_new r_new empty = node e l_new r_new empty empty
  descend axis e l_new r_new (node n l_to r_fr left right) =
      let to_left = descend ((axis + 1) % dim) e l_new r_new left in
      let to_right = descend ((axis + 1) % dim) e l_new r_new right in
      let l_cost = scalar.minus (box.upper e.aabb axis) l_to in
      let r_cost = scalar.minus r_fr (box.lower e.aabb axis) in
      if scalar.less l_cost r_cost
      then node n (max_of l_to (box.upper e.aabb axis)) r_fr to_left right
      else node n l_to (min_of r_fr (box.lower e.aabb axis)) left to_right

  -- `_emplace` without the counter: the root's bounds are those of its own box
  unfoldable pub plant : Entry B V → (l_to r_fr : S) → Tree S B V → Tree S B V
  plant e l_new r_new empty = node e (box.upper e.aabb 0) (box.lower e.aabb 0) empty empty
  plant e l_new r_new (node n l_to r_fr left right) =
      descend 0 e l_new r_new (node n l_to r_fr left right)

  unfoldable pub emplace : ℕ → B → V → (l_to r_fr : S) → Kd S B V → Kd S B V
  emplace h b x l_new r_new kd =
      let e : Entry B V = record { handle = h; aabb = b; kv = x; erased = false } in
      record { tree = plant e l_new r_new kd.tree; counter = kd.counter + 1 }

-- `if(r == BREAK) return BREAK`, between two calls
unfoldable pub then_next {ℓ} : {A : Type ℓ} → Bool × A → (A → Bool × A) → Bool × A
then_next (true, s) rest = (true, s)
then_next (false, s) rest = rest s

-- `!erased() && aabb.intersects(aabb)`
unfoldable pub is_hit {ℓ} : {B Q V : Type ℓ} → (B → Q → Bool) → Q → Entry B V → Bool
is_hit intersects q e = if e.erased then false else intersects e.aabb q

module _ {ℓ} {S B Q V A : Type ℓ} (dim : ℕ) ⦃scalar : Scalar S⦄ ⦃box : Box S B⦄
    ⦃query : Query S B Q dim⦄ where
  -- `_each_intersecting`: whether the callback has asked to break, and its state
  unfoldable pub each_from : (axis : ℕ) → Q → (A → Entry B V → Bool × A) → Tree S B V → A → Bool × A
  each_from axis q fun empty s = (false, s)
  each_from axis q fun (node e l_to r_fr left right) s =
      let to_left = each_from ((axis + 1) % dim) q fun left in
      let to_right = each_from ((axis + 1) % dim) q fun right in
      then_next (if is_hit query.intersects q e then fun s e else (false, s)) (λ s₁.
        then_next
          (if is_node left && at_most (query.query_lower q axis) l_to
            then to_left s₁
            else (false, s₁))
          (λ s₂.
            if is_node right && at_most r_fr (query.query_upper q axis)
            then to_right s₂
            else (false, s₂)))

  unfoldable pub each_intersecting : Q → (A → Entry B V → Bool × A) → Kd S B V → A → Bool × A
  each_intersecting q fun kd s = each_from 0 q fun kd.tree s
