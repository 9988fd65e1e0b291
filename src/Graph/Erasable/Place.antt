-- ===== src/Graph/Erasable/Place.antt =====
-- One entry of a graph with holes, added or written.
use salgo.Base.Store.{put, put_self, put_other, number_cases}
use salgo.Base.{ℕ, ◌<◌, ◌≤◌, ◌≡◌, ◌≢◌, ◌⊎◌, ap, sym, ◌∙◌, Option, none, some, inl, inr, arith}
use mathlib.Core.Path.{subst}
use salgo.Graph.{Link}
use salgo.Graph.Erasable.{Outs, Verts, Slot, entry_of, edge_at, with_entry, add_out, write_entry}
use salgo.Graph.Erasable.Write.{vertex_of, write_run, write_elsewhere, write_here}

abbrev pub IsBounded : Verts → Type 0
IsBounded g =
    (v : ℕ) (o : Outs) (i : ℕ) (l : Link) → g v ≡ some o → o.entry i ≡ some l → i < o.domain

pub place_cases : (w j v i : ℕ) → ((w ≡ v) × (j ≡ i)) ⊎ ((w ≡ v) → (j ≢ i))
place_cases w j v i = elim (number_cases w v) [
  | inr other ↦ inr (λ s. absurd (other s))
  | inl same ↦ elim (number_cases j i) [ inl at ↦ inl (same, at) | inr differ ↦ inr (λ s. differ) ]
]

same_outs : (a b : Outs) → Path (Option Outs) (some a) (some b) → a ≡ b
same_outs a b q = cc

-- `g'` is `g` with the entry `e` at one place.
pub record Placed (v i : ℕ) (e : Link) (g g' : Verts) : Type 0 where
  pub at : edge_at g' v i ≡ some e
  pub elsewhere : (w j : ℕ) → ((w ≡ v) → (j ≢ i)) → edge_at g' w j ≡ edge_at g w j
  pub bounded : IsBounded g'
  pub stays : (w : ℕ) (o : Outs) → g w ≡ some o → (x : Outs) × (g' w ≡ some x)

put-IsBounded :
    (v : ℕ) (o : Outs) (g : Verts)
    → ((i : ℕ) (l : Link) → o.entry i ≡ some l → i < o.domain)
    → IsBounded g
    → IsBounded (put v (some o) g)
put-IsBounded v o g new ok w x i l at e = elim (number_cases w v) [
  | inr other ↦ ok w x i l (sym (put_other v (some o) g w other) ∙ at) e
  | inl same ↦
      let x_is = same_outs x o (sym at ∙ ap (put v (some o) g) same ∙ put_self v (some o) g) in
      subst (λ z. i < z) (ap (λ (z : Outs). z.domain) (sym x_is))
        (new i l (ap (λ (z : Outs). z.entry i) (sym x_is) ∙ e))
]

put_stays :
    (v : ℕ) (o : Outs) (g : Verts) (w : ℕ) (x : Outs)
    → g w ≡ some x
    → (y : Outs) × (put v (some o) g w ≡ some y)
put_stays v o g w x at = elim (number_cases w v) [
  | inl same ↦ (o, ap (put v (some o) g) same ∙ put_self v (some o) g)
  | inr other ↦ (x, put_other v (some o) g w other ∙ at)
]

-- A place that the allocator may give.
pub record IsFree (o : Outs) (slot : Slot) : Type 0 where
  pub empty : o.entry slot.index ≡ none
  pub inside : slot.index < slot.domain
  pub grows : o.domain ≤ slot.domain

below_next :
    (o : Outs) (slot : Slot) (e : Link) (i : ℕ) (l : Link)
    → ((j : ℕ) (k : Link) → o.entry j ≡ some k → j < o.domain)
    → IsFree o slot
    → put slot.index (some e) o.entry i ≡ some l
    → i < slot.domain
below_next o slot e i l ok free p = elim (number_cases i slot.index) [
  | inl same ↦ subst (λ z. z < slot.domain) (sym same) free.inside
  | inr differ ↦
      let lt = ok i l (sym (put_other slot.index (some e) o.entry i differ) ∙ p) in
      let le = free.grows in omega arith
]

pub add_out-Placed :
    (v : ℕ) (slot : Slot) (unset : Link) (g : Verts) (o : Outs)
    → IsBounded g
    → g v ≡ some o
    → IsFree o slot
    → (g' : Verts) × (add_out v slot unset g ≡ some g')
      × (edge_at g v slot.index ≡ none)
      × Placed v slot.index unset g g'
unfolding add_out
add_out-Placed v slot unset g o ok here free =
    let o' : Outs = record { domain = slot.domain; entry = put slot.index (some unset) o.entry } in
    let g' : Verts = put v (some o') g in
    (
      g',
      rw here,
      ap (λ z. entry_of z slot.index) here ∙ free.empty,
      record {
        at =
            ap (λ z. entry_of z slot.index) (put_self v (some o') g)
            ∙ put_self slot.index (some unset) o.entry;
        elsewhere = λ w j differ. elim (number_cases w v) [
          | inr other ↦ ap (λ z. entry_of z j) (put_other v (some o') g w other)
          | inl same ↦
              ap (λ z. entry_of z j) (ap g' same ∙ put_self v (some o') g)
              ∙ put_other slot.index (some unset) o.entry j (differ same)
              ∙ sym (ap (λ z. entry_of z j) (ap g same ∙ here))
        ];
        bounded =
            put-IsBounded v o' g
              (λ i l p. below_next o slot unset i l (λ j k q. ok v o j k here q) free p) ok;
        stays = put_stays v o' g;
      },
    )

pub write_entry-Placed :
    (v i : ℕ) (e old : Link) (g : Verts)
    → IsBounded g
    → edge_at g v i ≡ some old
    → (g' : Verts) × (write_entry v i (some e) g ≡ some g') × Placed v i e g g'
write_entry-Placed v i e old g ok own =
    let (o, here, own') = vertex_of (g v) i old own in
    (
      put v (some (with_entry i (some e) o)) g,
      write_run g v i (some e) old o here own',
      record {
        at = write_here g v i (some e) o;
        elsewhere = λ w j differ. write_elsewhere g v i (some e) o w j here differ;
        bounded =
            put-IsBounded v (with_entry i (some e) o) g
              (λ j l p. elim (number_cases j i) [
                | inl same ↦ subst (λ z. z < o.domain) (sym same) (ok v o i old here own')
                | inr differ ↦ ok v o j l here (sym (put_other i (some e) o.entry j differ) ∙ p)
              ])
              ok;
        stays = put_stays v (with_entry i (some e) o) g;
      },
    )
