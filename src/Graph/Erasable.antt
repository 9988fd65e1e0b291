-- ===== src/Graph/Erasable.antt =====
-- include/salgo/_/graph/graph.inl: an undirected `Graph` with VERTS_ERASABLE and EDGES_ERASABLE, whose
-- vertices and entries leave holes. A vertex has the domain of the array allocator of its `outs` and
-- what stands at each place; what the allocator answers to `add` is an argument. `none` in a result
-- is a handle that names nothing.
pub mod Write
pub mod Erase
pub mod Place
pub mod Add
pub mod Shrink
use salgo.Base.Store.{put}
use salgo.Base.{ℕ, zero, suc, ◌+◌, Option, none, some, ◌>>=◌}
use salgo.Graph.{Link}

pub record Outs : Type 0 where
  pub domain : ℕ
  pub entry : ℕ → Option Link

abbrev pub Verts : Type 0
Verts = ℕ → Option Outs

abbrev pub entry_of : Option Outs → ℕ → Option Link
entry_of none i = none
entry_of (some o) i = o.entry i

-- `raw_vs[v].outs()[i]`
abbrev pub edge_at : Verts → ℕ → ℕ → Option Link
edge_at g v i = entry_of (g v) i

-- `raw_vs[v].outs()(i)` with the entry `e` or a hole
abbrev pub with_entry : ℕ → Option Link → Outs → Outs
with_entry i e o = record o { entry = put i e o.entry }

-- What the allocator of a vertex answers to `add`: the place, and its domain afterwards.
pub record Slot : Type 0 where
  pub index : ℕ
  pub domain : ℕ

-- `raw_vs[v].outs().add()`
unfoldable pub add_out : ℕ → Slot → Link → Verts → Option Verts
add_out v slot unset g = do
  o ← g v
  some (
      put v (some (record { domain = slot.domain; entry = put slot.index (some unset) o.entry })) g)

-- `out().link = link`, and `out.erase()`
unfoldable pub write_entry : ℕ → ℕ → Option Link → Verts → Option Verts
write_entry v i e g = do o ← g v; old ← o.entry i; some (put v (some (with_entry i e o)) g)

-- `A_Edges::add` of an undirected graph
unfoldable pub add : (fr to : ℕ) → (fr_out to_out : Slot) → Link → Verts → Option Verts
add fr to fr_out to_out unset g = do
  g₁ ← add_out fr fr_out unset g
  g₂ ← add_out to to_out unset g₁
  g₃ ← write_entry fr fr_out.index (some (record { a = to; b = to_out.index })) g₂
  write_entry to to_out.index (some (record { a = fr; b = fr_out.index })) g₃

-- the body of the loop of `erase`, given the entry that it meets
unfoldable pub erase_other : Option Link → Verts → Option Verts
erase_other none g = some g
erase_other (some link) g = write_entry link.a link.b none g

-- the loop over the `outs`, from place `i` on, with `n` places left
unfoldable pub erase_others : ℕ → (i n : ℕ) → Verts → Option Verts
erase_others v i zero g = some g
erase_others v i (suc n) g = erase_other (edge_at g v i) g >>= erase_others v (suc i) n

-- `erase` of a vertex
unfoldable pub erase : ℕ → Verts → Option Verts
erase v g = g v >>= λ o. erase_others v 0 o.domain g >>= λ g'. some (put v none g')

-- the loop of `A_Verts::resize`, from `new_size + n - 1` down to `new_size`; the accessor at an index
-- is always `found()`, so a vertex that is missing is erased too, a fault
unfoldable pub erase_above : (new_size n : ℕ) → Verts → Option Verts
erase_above new_size zero g = some g
erase_above new_size (suc n) g = erase (new_size + n) g >>= erase_above new_size n
