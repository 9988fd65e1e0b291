-- ===== src/Graph/Links.antt =====
-- Links name each other.
use salgo.Base.{
  get_elem?-lt, get_elem?-some, ℕ, zero, suc, ◌<◌, ◌≡◌, ◌≢◌, refl, ap, sym, ◌∙◌, Bool, true, false,
  ◌&&◌, none, some, List, [], ◌∷◌, ◌++◌, length, get_elem?, set, ◌==◌, if◌then◌else◌, length-set,
  get_elem?-set_self, get_elem?-set_ne, get_elem?-append_last, get_elem?-outside, inl, inr,
  Bool-cases, Option-cases, arith,
}
use salgo.Graph.{Link, Graph, edge, add_out, set_link, add}

-- The place of an entry.
abbrev here : (v i w j : ℕ) → Bool
here v i w j = w == v && j == i

get_elem?-append_other {ℓ} :
    {A : Type ℓ} (xs : List A) (x : A) (j : ℕ)
    → j ≢ length xs
    → get_elem? (xs ++ x ∷ []) j ≡ get_elem? xs j
get_elem?-append_other [] x zero ne = absurd (ne refl)
get_elem?-append_other [] x (suc j) ne = refl
get_elem?-append_other (y ∷ xs) x zero ne = refl
get_elem?-append_other (y ∷ xs) x (suc j) ne = get_elem?-append_other xs x j (λ e. ne (ap suc e))

-- A write of the `outs` of one vertex that changes one entry.
edge-set :
    (g : Graph) (v i : ℕ) (outs outs' : List Link) (e : Link)
    → get_elem? g v ≡ some outs
    → get_elem? outs' i ≡ some e
    → ((j : ℕ) → j ≢ i → get_elem? outs' j ≡ get_elem? outs j)
    → (w j : ℕ) → edge (set g v outs') w j ≡ (if here v i w j then some e else edge g w j)
unfolding edge
edge-set g v i outs outs' e at self others w j = elim (Bool-cases (w == v)) [
  | inl p ↦
      let same : w ≡ v = ground arith in
      let read : get_elem? (set g v outs') w ≡ some outs' =
        ap (get_elem? (set g v outs')) same ∙ get_elem?-set_self g v outs' (get_elem?-lt g v at) in
      let old : get_elem? g w ≡ some outs = ap (get_elem? g) same ∙ at in
      elim (Bool-cases (j == i)) [
        | inl q ↦ (let index : j ≡ i = ground arith in rw (p, q, read, index) self)
        | inr q ↦ (let index : j ≢ i = ground arith in rw (p, q, read, old) (others j index))
      ]
  | inr p ↦ let ne : v ≢ w = ground arith in rw (p, get_elem?-set_ne g outs' ne) refl
]

-- The two entries that `add` appends, and all other entries as before.
record Added (fr to fr_out to_out : ℕ) (g g' : Graph) : Type 0 where
  first : edge g' fr fr_out ≡ some (record { a = to; b = to_out })
  second : edge g' to to_out ≡ some (record { a = fr; b = fr_out })
  first_free : edge g fr fr_out ≡ none
  second_free : edge g to to_out ≡ none
  others :
      (w j : ℕ) → here fr fr_out w j ≡ false → here to to_out w j ≡ false → edge g' w j ≡ edge g w j

-- Each entry's link names an entry that links back.
abbrev pub IsLinked : Graph → Type 0
IsLinked g =
    (v i : ℕ) (link : Link)
    → edge g v i ≡ some link
    → edge g link.a link.b ≡ some (record { a = v; b = i })

-- `g'` is `g` with the entry `e` at one place.
record Written (v i : ℕ) (e : Link) (g g' : Graph) : Type 0 where
  width : length g' ≡ length g
  reads : (w j : ℕ) → edge g' w j ≡ (if here v i w j then some e else edge g w j)

add_out-Written :
    (v : ℕ) (unset : Link) (g : Graph)
    → v < length g
    → (n : ℕ) × (g' : Graph) × (add_out v unset g ≡ some (n, g'))
      × (edge g v n ≡ none)
      × Written v n unset g g'
unfolding add_out edge
add_out-Written v unset g lt =
    let (outs, at) = get_elem?-some g v lt in
    (
      length outs,
      set g v (outs ++ unset ∷ []),
      rw at refl,
      rw at (get_elem?-outside outs (length outs) (omega arith)),
      record {
        width = length-set g v (outs ++ unset ∷ []);
        reads =
            edge-set g v (length outs) outs (outs ++ unset ∷ []) unset at
              (get_elem?-append_last outs unset) (get_elem?-append_other outs unset);
      },
    )

set_link-Written :
    (v i : ℕ) (e old : Link) (g : Graph)
    → edge g v i ≡ some old
    → (g' : Graph) × (set_link v i e g ≡ some g') × Written v i e g g'
unfolding set_link edge
set_link-Written v i e old g p = elim (Option-cases (get_elem? g v)) [
  | inl missing ↦ (let bad = rw missing at p in cc)
  | inr (outs, at) ↦
      let entry : get_elem? outs i ≡ some old = rw at at p in
      (
        set g v (set outs i e),
        rw (at, entry) refl,
        record {
          width = length-set g v (set outs i e);
          reads =
              edge-set g v i outs (set outs i e) e at
                (get_elem?-set_self outs i e (get_elem?-lt outs i entry))
                (λ j ne. get_elem?-set_ne outs e (λ same. ne (sym same)));
        },
      )
]

here_self : (v i : ℕ) → here v i v i ≡ true
here_self v i = ground arith

apart_lem :
    (g : Graph) (v i w j : ℕ) (e : Link)
    → edge g v i ≡ some e
    → edge g w j ≡ none
    → (here v i w j ≡ false) × (here w j v i ≡ false)
apart_lem g v i w j e p q = elim (Bool-cases (here v i w j)) [
  | inl same ↦
      let left : w ≡ v = ground arith in
      let right : j ≡ i = ground arith in let bad = rw (left, right) at q in cc
  | inr other ↦ (other, ground arith)
]

add-Added :
    (fr to : ℕ) (unset : Link) (g : Graph)
    → fr < length g
    → to < length g
    → (n : ℕ) × (m : ℕ) × (g' : Graph) × (add fr to unset g ≡ some g')
      × (length g' ≡ length g)
      × Added fr to n m g g'
unfolding add
add-Added fr to unset g lt lt' =
    let (n, g₁, run₁, free, a₁) = add_out-Written fr unset g lt in
    let (m, g₂, run₂, free', a₂) = add_out-Written to unset g₁ (rw a₁.width lt') in
    let placed : edge g₁ fr n ≡ some unset = a₁.reads fr n ∙ rw (here_self fr n) refl in
    let (other, other') = apart_lem g₁ fr n to m unset placed free' in
    let kept : edge g₂ fr n ≡ some unset = a₂.reads fr n ∙ rw other' placed in
    let (g₃, run₃, a₃) = set_link-Written fr n (record { a = to; b = m }) unset g₂ kept in
    let placed' : edge g₃ to m ≡ some unset =
      a₃.reads to m ∙ rw other (a₂.reads to m ∙ rw (here_self to m) refl) in
    let (g₄, run₄, a₄) = set_link-Written to m (record { a = fr; b = n }) unset g₃ placed' in
    let width = a₁.width in
    (
      n,
      m,
      g₄,
      rw (run₁, run₂, run₃) run₄,
      a₄.width ∙ a₃.width ∙ a₂.width ∙ width,
      record {
        first = a₄.reads fr n ∙ rw other' (a₃.reads fr n ∙ rw (here_self fr n) refl);
        second = a₄.reads to m ∙ rw (here_self to m) refl;
        first_free = free;
        second_free = (let r = a₁.reads to m in let r' = rw other at r in sym r' ∙ free');
        others = λ w j p q.
            a₄.reads w j
            ∙ rw q (a₃.reads w j ∙ rw p (a₂.reads w j ∙ rw q (a₁.reads w j ∙ rw p refl)));
      },
    )

IsLinked-Added :
    (fr to n m : ℕ) (g g' : Graph)
    → IsLinked g
    → Added fr to n m g g'
    → ((v i : ℕ) (link : Link) → edge g v i ≡ some link → edge g' v i ≡ some link)
    → IsLinked g'
IsLinked-Added fr to n m g g' linked q stays v i link e = elim (Bool-cases (here fr n v i)) [
  | inl at_first ↦
      let left : v ≡ fr = ground arith in
      let right : i ≡ n = ground arith in
      let same : link ≡ record { a = to; b = m } =
        (let e' = rw (left, right) at e in let f = q.first in cc) in
      rw (same, left, right) q.second
  | inr not_first ↦ elim (Bool-cases (here to m v i)) [
    | inl at_second ↦
        let left : v ≡ to = ground arith in
        let right : i ≡ m = ground arith in
        let same : link ≡ record { a = fr; b = n } =
          (let e' = rw (left, right) at e in let f = q.second in cc) in
        rw (same, left, right) q.first
    | inr not_second ↦
        let before : edge g v i ≡ some link = sym (q.others v i not_first not_second) ∙ e in
        stays link.a link.b (record { a = v; b = i }) (linked v i link before)
  ]
]

-- Adding an edge between two vertices, also from a vertex to itself, does not fault; if the links of
-- the graph name each other before, they do so afterwards, every entry that was there is there with
-- the same link, and the two ends have an entry each that was not there.
pub add-IsLinked :
    (fr to : ℕ) (unset : Link) (g : Graph)
    → IsLinked g
    → fr < length g
    → to < length g
    → (g' : Graph) × (add fr to unset g ≡ some g')
      × IsLinked g'
      × ((v i : ℕ) (link : Link) → edge g v i ≡ some link → edge g' v i ≡ some link)
      × ((n : ℕ) × (m : ℕ) × (edge g' fr n ≡ some (record { a = to; b = m }))
          × (edge g fr n ≡ none)
          × (edge g to m ≡ none))
add-IsLinked fr to unset g linked lt lt' =
    let (n, m, g', run, _, q) = add-Added fr to unset g lt lt' in
    let stays : (v i : ℕ) (link : Link) → edge g v i ≡ some link → edge g' v i ≡ some link =
      λ v i link e.
        q.others v i (apart_lem g v i fr n link e q.first_free).1
          (apart_lem g v i to m link e q.second_free).1
        ∙ e in
    (
      g',
      run,
      IsLinked-Added fr to n m g g' linked q stays,
      stays,
      (n, m, q.first, q.first_free, q.second_free),
    )
