-- ===== src/Graph/Erasable/Add.antt =====
-- Adding an edge to a graph with holes.
use salgo.Base.{ℕ, ◌≡◌, ◌≢◌, ap, sym, ◌∙◌, Option, none, some, inl, inr}
use salgo.Graph.{Link}
use salgo.Graph.Erasable.{Outs, Verts, Slot, edge_at, add_out, add}
use salgo.Graph.Erasable.Place.{IsFree, IsBounded, place_cases, add_out-Placed, write_entry-Placed}
use salgo.Graph.Erasable.Write.{IsValid}

-- The two entries that `add` appends, and the others as before.
record Added (fr to n m : ℕ) (g g' : Verts) : Type 0 where
  first : edge_at g' fr n ≡ some (record { a = to; b = m })
  second : edge_at g' to m ≡ some (record { a = fr; b = n })
  first_free : edge_at g fr n ≡ none
  second_free : edge_at g to m ≡ none
  others : (w j : ℕ) → ((w ≡ fr) → (j ≢ n)) → ((w ≡ to) → (j ≢ m)) → edge_at g' w j ≡ edge_at g w j
  bounded : IsBounded g'

apart_lem :
    (g : Verts) (v i w j : ℕ) (e : Link)
    → edge_at g v i ≡ some e
    → edge_at g w j ≡ none
    → (v ≡ w)
    → (i ≢ j)
apart_lem g v i w j e p q s t = let same = ap (λ z. edge_at g z i) s ∙ ap (edge_at g w) t in cc

-- The places of `add` are free, the second once the first is taken.
pub record AreFree (fr to : ℕ) (s t : Slot) (unset : Link) (g : Verts) : Type 0 where
  pub first_slot : (o : Outs) → g fr ≡ some o → IsFree o s
  pub second_slot :
      (g₁ : Verts) (o : Outs) → add_out fr s unset g ≡ some g₁ → g₁ to ≡ some o → IsFree o t

add-Added :
    (fr to : ℕ) (s t : Slot) (unset : Link) (g : Verts) (o p : Outs)
    → IsBounded g
    → g fr ≡ some o
    → g to ≡ some p
    → AreFree fr to s t unset g
    → (g' : Verts) × (add fr to s t unset g ≡ some g') × Added fr to s.index t.index g g'
unfolding add
add-Added fr to s t unset g o p ok at_fr at_to places =
    let n = s.index in
    let m = t.index in
    let (g₁, run₁, free, a₁) = add_out-Placed fr s unset g o ok at_fr (places.first_slot o at_fr) in
    let (p₁, at_to₁) = a₁.stays to p at_to in
    let (g₂, run₂, free', a₂) =
      add_out-Placed to t unset g₁ p₁ a₁.bounded at_to₁ (places.second_slot g₁ p₁ run₁ at_to₁) in
    let apart = apart_lem g₁ fr n to m unset a₁.at free' in
    let apart' : (to ≡ fr) → (m ≢ n) = λ s t. apart (sym s) (sym t) in
    let kept = a₂.elsewhere fr n apart ∙ a₁.at in
    let (g₃, run₃, a₃) =
      write_entry-Placed fr n (record { a = to; b = m }) unset g₂ a₂.bounded kept in
    let kept' = a₃.elsewhere to m apart' ∙ a₂.at in
    let (g₄, run₄, a₄) =
      write_entry-Placed to m (record { a = fr; b = n }) unset g₃ a₃.bounded kept' in
    (
      g₄,
      rw (run₁, run₂, run₃) run₄,
      record {
        first = a₄.elsewhere fr n apart ∙ a₃.at;
        second = a₄.at;
        first_free = free;
        second_free = sym (a₁.elsewhere to m apart') ∙ free';
        others = λ w j a b.
            a₄.elsewhere w j b ∙ a₃.elsewhere w j a ∙ a₂.elsewhere w j b ∙ a₁.elsewhere w j a;
        bounded = a₄.bounded;
      },
    )

same_link : (a b : Link) → Path (Option Link) (some a) (some b) → b ≡ a
same_link a b q = cc

Added-IsValid :
    (fr to n m : ℕ) (g g' : Verts)
    → IsValid g
    → Added fr to n m g g'
    → ((v i : ℕ) (l : Link) → edge_at g v i ≡ some l → edge_at g' v i ≡ some l)
    → IsValid g'
Added-IsValid fr to n m g g' ok q stays = record {
  bounded = q.bounded;
  linked = λ v i l e. elim (place_cases v i fr n) [
    | inl (s, t) ↦
        let l_is =
          same_link (record { a = to; b = m }) l
            (sym q.first ∙ sym (ap (λ z. edge_at g' z i) s ∙ ap (edge_at g' fr) t) ∙ e) in
        ap (λ (z : Link). edge_at g' z.a z.b) l_is
        ∙ q.second
        ∙ (λ k. some (record { a = sym s k; b = sym t k }))
    | inr not_first ↦ elim (place_cases v i to m) [
      | inl (s, t) ↦
          let l_is =
            same_link (record { a = fr; b = n }) l
              (sym q.second ∙ sym (ap (λ z. edge_at g' z i) s ∙ ap (edge_at g' to) t) ∙ e) in
          ap (λ (z : Link). edge_at g' z.a z.b) l_is
          ∙ q.first
          ∙ (λ k. some (record { a = sym s k; b = sym t k }))
      | inr not_second ↦
          let before = sym (q.others v i not_first not_second) ∙ e in
          stays l.a l.b (record { a = v; b = i }) (ok.linked v i l before)
    ]
  ];
}

-- Adding an edge between two vertices that exist, also from a vertex to itself, at places that are
-- free does not fault. If the links name each other before, they do so afterwards, the entries that
-- were there are there, and each end has an entry for the other.
pub add-IsValid :
    (fr to : ℕ) (s t : Slot) (unset : Link) (g : Verts) (o p : Outs)
    → IsValid g
    → g fr ≡ some o
    → g to ≡ some p
    → AreFree fr to s t unset g
    → (g' : Verts) × (add fr to s t unset g ≡ some g')
      × IsValid g'
      × ((v i : ℕ) (l : Link) → edge_at g v i ≡ some l → edge_at g' v i ≡ some l)
      × (edge_at g' fr s.index ≡ some (record { a = to; b = t.index }))
      × (edge_at g' to t.index ≡ some (record { a = fr; b = s.index }))
add-IsValid fr to s t unset g o p ok at_fr at_to places =
    let (g', run, q) = add-Added fr to s t unset g o p ok.bounded at_fr at_to places in
    let stays : (v i : ℕ) (l : Link) → edge_at g v i ≡ some l → edge_at g' v i ≡ some l = λ v i l e.
      q.others v i (apart_lem g v i fr s.index l e q.first_free)
        (apart_lem g v i to t.index l e q.second_free)
      ∙ e in
    (g', run, Added-IsValid fr to s.index t.index g g' ok q stays, stays, q.first, q.second)
