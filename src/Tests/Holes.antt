-- ===== src/Tests/Holes.antt =====
-- include/salgo/_/graph/graph.inl with holes: two vertices, an edge from one to itself and one between
-- them.
use salgo.Base.Store.{put}
use mathlib.Core.Path.{subst}
use salgo.Base.{
  ◌+◌, ◌≤◌, ◌<◌, ◌==◌, false, ap, arith, ℕ, zero, suc, ◌≡◌, refl, sym, ◌∙◌, Option, none, some,
}
use salgo.Graph.{Link}
use salgo.Graph.Erasable.{
  Outs, Verts, Slot, edge_at, entry_of, add, add_out, write_entry, erase, erase_above,
}
use salgo.Graph.Erasable.Write.{IsValid}
use salgo.Graph.Erasable.Erase.{Erased, erase-Erased}
use salgo.Graph.Erasable.Add.{AreFree, add-IsValid}
use salgo.Graph.Erasable.Place.{IsFree}
use salgo.Graph.Erasable.Shrink.{Shrunk, erase_above-Shrunk, erase_above_faults}

abbrev no_outs : Outs
no_outs = record { domain = 0; entry = λ i. none }

abbrev apart : Verts
apart zero = some no_outs
apart (suc zero) = some no_outs
apart (suc (suc v)) = none

apart-IsValid : IsValid apart
apart-IsValid = record {
  linked = λ v i l e. absurd (no_edge v i l e);
  bounded = λ v o i l at e. absurd (no_entry v o i l at e);
}
  where
    no_edge : (v i : ℕ) (l : Link) → edge_at apart v i ≡ some l → ⊥
    no_edge zero i l e = cc
    no_edge (suc zero) i l e = cc
    no_edge (suc (suc v)) i l e = cc

    same_outs : (a b : Outs) → Path (Option Outs) (some a) (some b) → a ≡ b
    same_outs a b q = cc

    no_entry : (v : ℕ) (o : Outs) (i : ℕ) (l : Link) → apart v ≡ some o → o.entry i ≡ some l → ⊥
    no_entry zero o i l at e =
        let none_there =
          subst (λ (z : Outs). z.entry i ≡ some l) (sym (same_outs no_outs o at)) e in
        cc
    no_entry (suc zero) o i l at e =
        let none_there =
          subst (λ (z : Outs). z.entry i ≡ some l) (sym (same_outs no_outs o at)) e in
        cc
    no_entry (suc (suc v)) o i l at e = cc

abbrev link : (a b : ℕ) → Link
link a b = record { a = a; b = b }

abbrev made : Option Verts → Verts
made none = apart
made (some g) = g

abbrev slot : (index domain : ℕ) → Slot
slot i d = record { index = i; domain = d }

same_verts : (a b : Verts) → Path (Option Verts) (some a) (some b) → a ≡ b
same_verts a b q = cc

free_lem :
    (o o' : Outs) (s : Slot) → Path (Option Outs) (some o) (some o') → IsFree o s → IsFree o' s
free_lem o o' s q f = subst (λ z. IsFree z s) (same o o' q) f
  where
    same : (a b : Outs) → Path (Option Outs) (some a) (some b) → a ≡ b
    same a b q = cc

-- The outs of a vertex after `add` of the first entry.
abbrev half_loop : Verts
half_loop = made (add_out 0 (slot 0 2) (link 9 9) apart)

half_outs : (o : Outs) × (half_loop 0 ≡ some o) × IsFree o (slot 1 2)
unfolding add_out put
half_outs = (_, refl, record { empty = refl; inside = (omega arith); grows = (omega arith) })

loop_places : AreFree 0 0 (slot 0 2) (slot 1 2) (link 9 9) apart
unfolding add_out
loop_places = record {
  first_slot = λ o at.
      free_lem no_outs o (slot 0 2) at
        (record { empty = refl; inside = (omega arith); grows = (omega arith) });
  second_slot = λ g₁ o run at.
      free_lem half_outs.0 o (slot 1 2)
        (sym half_outs.1 ∙ ap (λ (g : Verts). g 0) (same_verts half_loop g₁ run) ∙ at) half_outs.2;
}

abbrev with_loop : Verts
with_loop = made (add 0 0 (slot 0 2) (slot 1 2) (link 9 9) apart)

with_loop-IsValid : IsValid with_loop
unfolding add add_out write_entry put
with_loop-IsValid =
    let (g, run, ok, _, _, _) =
      add-IsValid 0 0 (slot 0 2) (slot 1 2) (link 9 9) apart no_outs no_outs apart-IsValid refl refl
        loop_places in
    subst IsValid (same_verts g with_loop (sym run)) ok

loop_outs : (o : Outs) × (with_loop 0 ≡ some o) × IsFree o (slot 2 4)
unfolding add add_out write_entry put
loop_outs = (_, refl, record { empty = refl; inside = (omega arith); grows = (omega arith) })

other_outs : (o : Outs) × (with_loop 1 ≡ some o)
unfolding add add_out write_entry put
other_outs = (_, refl)

abbrev half_edge : Verts
half_edge = made (add_out 0 (slot 2 4) (link 9 9) with_loop)

edge_outs : (o : Outs) × (half_edge 1 ≡ some o) × IsFree o (slot 0 1)
unfolding add add_out write_entry put
edge_outs = (_, refl, record { empty = refl; inside = (omega arith); grows = (omega arith) })

edge_places : AreFree 0 1 (slot 2 4) (slot 0 1) (link 9 9) with_loop
unfolding add add_out write_entry put
edge_places = record {
  first_slot = λ o at. free_lem loop_outs.0 o (slot 2 4) (sym loop_outs.1 ∙ at) loop_outs.2;
  second_slot = λ g₁ o run at.
      free_lem edge_outs.0 o (slot 0 1)
        (sym edge_outs.1 ∙ ap (λ (g : Verts). g 1) (same_verts half_edge g₁ run) ∙ at) edge_outs.2;
}

add-IsValid_example :
    (g : Verts) × (add 0 1 (slot 2 4) (slot 0 1) (link 9 9) with_loop ≡ some g)
    × IsValid g
    × ((v i : ℕ) (l : Link) → edge_at with_loop v i ≡ some l → edge_at g v i ≡ some l)
    × (edge_at g 0 2 ≡ some (link 1 0))
    × (edge_at g 1 0 ≡ some (link 0 2))
add-IsValid_example =
    add-IsValid 0 1 (slot 2 4) (slot 0 1) (link 9 9) with_loop loop_outs.0 other_outs.0
      with_loop-IsValid loop_outs.1 other_outs.1 edge_places

abbrev with_both : Verts
with_both = made (add 0 1 (slot 2 4) (slot 0 1) (link 9 9) with_loop)

with_both-IsValid : IsValid with_both
unfolding add add_out write_entry put
with_both-IsValid =
    let (g, run, ok, _, _, _) =
      add-IsValid 0 1 (slot 2 4) (slot 0 1) (link 9 9) with_loop loop_outs.0 other_outs.0
        with_loop-IsValid loop_outs.1 other_outs.1 edge_places in
    subst IsValid (same_verts g with_both (sym run)) ok

both_outs : (o : Outs) × (with_both 0 ≡ some o)
unfolding add add_out write_entry put
both_outs = (_, refl)

erase-Erased_example : (g : Verts) × (erase 0 with_both ≡ some g) × Erased 0 with_both g
erase-Erased_example = erase-Erased 0 both_outs.0 with_both with_both-IsValid both_outs.1

two_vertices : (v : ℕ) → 1 + 1 ≤ v → with_both v ≡ none
unfolding add add_out write_entry put
two_vertices zero le = absurd (omega arith)
two_vertices (suc zero) le = absurd (omega arith)
two_vertices (suc (suc v)) le =
    let not_first : (suc (suc v) == 0) ≡ false = ground arith in
    let not_second : (suc (suc v) == 1) ≡ false = ground arith in rw (not_first, not_second)

last_there : (v : ℕ) → 1 ≤ v → v < 1 + 1 → (o : Outs) × (with_both v ≡ some o)
unfolding add add_out write_entry put
last_there zero le lt = absurd (omega arith)
last_there (suc zero) le lt = (_, refl)
last_there (suc (suc v)) le lt = absurd (omega arith)

erase_above-Shrunk_example :
    (g : Verts) × (erase_above 1 1 with_both ≡ some g) × Shrunk 1 with_both g
erase_above-Shrunk_example =
    erase_above-Shrunk 1 1 with_both with_both-IsValid two_vertices last_there

-- Of three vertices the one in the middle is missing.
abbrev gap : Verts
gap zero = some no_outs
gap (suc zero) = none
gap (suc (suc zero)) = some no_outs
gap (suc (suc (suc v))) = none

gap-IsValid : IsValid gap
gap-IsValid = record {
  linked = λ v i l e. absurd (no_edge v i l e);
  bounded = λ v o i l at e. absurd (no_entry v o i l at e);
}
  where
    no_edge : (v i : ℕ) (l : Link) → edge_at gap v i ≡ some l → ⊥
    no_edge zero i l e = cc
    no_edge (suc zero) i l e = cc
    no_edge (suc (suc zero)) i l e = cc
    no_edge (suc (suc (suc v))) i l e = cc

    no_entry : (v : ℕ) (o : Outs) (i : ℕ) (l : Link) → gap v ≡ some o → o.entry i ≡ some l → ⊥
    no_entry v o i l at e = no_edge v i l (ap (λ z. entry_of z i) at ∙ e)

gap_above : (v : ℕ) → 0 + 3 ≤ v → gap v ≡ none
gap_above zero le = absurd (omega arith)
gap_above (suc zero) le = refl
gap_above (suc (suc zero)) le = absurd (omega arith)
gap_above (suc (suc (suc v))) le = refl

erase_above_faults_example : erase_above 0 3 gap ≡ none
erase_above_faults_example =
    erase_above_faults 0 3 1 gap gap-IsValid gap_above (omega arith) (omega arith) refl
