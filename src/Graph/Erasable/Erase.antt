-- ===== src/Graph/Erasable/Erase.antt =====
-- `erase` of a vertex with its edges.
use salgo.Base.Store.{put, put_self, put_other, number_cases}
use mathlib.Core.Path.{subst}
use salgo.Base.{
  ℕ, zero, suc, ◌+◌, ◌<◌, ◌≤◌, ◌≡◌, ◌≢◌, ◌↔◌, refl, ap, sym, ◌∙◌, Option, none, some, inl, inr,
  Option-cases, arith,
}
use salgo.Graph.{Link}
use salgo.Graph.Erasable.{
  Outs, Verts, entry_of, edge_at, with_entry, erase_other, erase_others, erase,
}
use salgo.Graph.Erasable.Write.{
  IsValid, vertex_of, write_run, write_elsewhere, write_here, domain_of, some_shape, write_shape,
}

-- After the places below `n` no entry elsewhere is linked to them, and only entries linked to `v` are gone.
record Erasing (v n : ℕ) (g h : Verts) : Type 0 where
  shape : (w : ℕ) → domain_of (h w) ≡ domain_of (g w)
  fewer : (w j : ℕ) (l : Link) → edge_at h w j ≡ some l → edge_at g w j ≡ some l
  cut :
      (w j i : ℕ)
      → i < n
      → edge_at g w j ≡ some (record { a = v; b = i })
      → w ≢ v
      → edge_at h w j ≡ none
  later :
      (w j m : ℕ)
      → n ≤ m
      → edge_at g w j ≡ some (record { a = v; b = m })
      → edge_at h w j ≡ some (record { a = v; b = m })
  kept : (w j : ℕ) (l : Link) → l.a ≢ v → edge_at g w j ≡ some l → edge_at h w j ≡ some l

zero_add : (n : ℕ) → 0 + n ≡ n
zero_add n = omega arith

same_outs : (a b : Outs) → Path (Option Outs) (some a) (some b) → a ≡ b
same_outs a b q = cc

same_link : (a b : Link) → Path (Option Link) (some a) (some b) → a ≡ b
same_link a b q = cc

same_place :
    (g : Verts) (w j v i : ℕ) (l : Link) (x : Link)
    → edge_at g v i ≡ some x
    → edge_at g w j ≡ some l
    → l ≢ x
    → (w ≡ v)
    → (j ≢ i)
same_place g w j v i l x e f differ a b =
    differ (same_link l x (sym f ∙ ap (λ z. edge_at g z j) a ∙ ap (edge_at g v) b ∙ e))

-- The twin of the entry at place `n` goes.
twin-Erasing :
    (v n : ℕ) (g h : Verts) (l : Link) (o : Outs)
    → edge_at g v n ≡ some l
    → edge_at g l.a l.b ≡ some (record { a = v; b = n })
    → h l.a ≡ some o
    → IsValid g
    → Erasing v n g h
    → Erasing v (suc n) g (put l.a (some (with_entry l.b none o)) h)
twin-Erasing v n g h l o entry back here ok u =
    let k : Verts = put l.a (some (with_entry l.b none o)) h in
    let twin : Link = record { a = v; b = n } in
    let apart : (w j : ℕ) (x : Link)
        → edge_at g w j ≡ some x
        → x ≢ twin
        → edge_at k w j ≡ edge_at h w j =
      λ w j x e differ.
        write_elsewhere h l.a l.b none o w j here (same_place g w j l.a l.b x twin back e differ) in
    record {
      shape = λ w. write_shape h l.a l.b none o w here ∙ u.shape w;
      fewer = λ w j x e. elim (number_cases w l.a) [
        | inr other ↦
            u.fewer w j x
              (sym (write_elsewhere h l.a l.b none o w j here (λ s. absurd (other s))) ∙ e)
        | inl same ↦ elim (number_cases j l.b) [
          | inr differ ↦
              u.fewer w j x (sym (write_elsewhere h l.a l.b none o w j here (λ s. differ)) ∙ e)
          | inl at ↦
              let gone =
                ap (λ z. edge_at k z j) same
                ∙ ap (edge_at k l.a) at
                ∙ write_here h l.a l.b none o in
              absurd (cc)
        ]
      ];
      cut = λ w j i lt e away. elim (number_cases i n) [
        | inr differ ↦
            apart w j (record { a = v; b = i }) e (λ s. differ (ap (λ (z : Link). z.b) s))
            ∙ u.cut w j i (omega arith) e away
        | inl same ↦
            let links_n : edge_at g v n ≡ some (record { a = w; b = j }) =
              ap (edge_at g v) (sym same) ∙ ok.linked w j (record { a = v; b = i }) e in
            let l_is = same_link l (record { a = w; b = j }) (sym entry ∙ links_n) in
            ap (λ (z : Link). edge_at k z.a z.b) (sym l_is) ∙ write_here h l.a l.b none o
      ];
      later = λ w j m le e.
          apart w j (record { a = v; b = m }) e
            (λ s. let same = ap (λ (z : Link). z.b) s in omega arith)
          ∙ u.later w j m (omega arith) e;
      kept = λ w j x away e.
          apart w j x e (λ s. away (ap (λ (z : Link). z.a) s)) ∙ u.kept w j x away e;
    }

erase_other-Erasing :
    (v n : ℕ) (g h : Verts)
    → IsValid g
    → Erasing v n g h
    → (k : Verts) × (erase_other (edge_at h v n) h ≡ some k) × Erasing v (suc n) g k
unfolding erase_other
erase_other-Erasing v n g h ok u = elim (Option-cases (edge_at h v n)) [
  | inl hole ↦ (
    h,
    rw hole,
    record {
      shape = u.shape;
      fewer = u.fewer;
      cut = λ w j i lt l away. elim (number_cases i n) [
        | inr differ ↦ u.cut w j i (omega arith) l away
        | inl same ↦
            let back = ok.linked w j (record { a = v; b = i }) l in
            let still = u.kept v i (record { a = w; b = j }) away back in
            let gone = ap (edge_at h v) same ∙ hole in absurd (cc)
      ];
      later = λ w j m le l. u.later w j m (omega arith) l;
      kept = u.kept;
    },
  )
  | inr (l, met) ↦
      let back = ok.linked v n l (u.fewer v n l met) in
      let still = u.later l.a l.b n (omega arith) back in
      let (o, here, own) = vertex_of (h l.a) l.b (record { a = v; b = n }) still in
      (
        put l.a (some (with_entry l.b none o)) h,
        rw met (write_run h l.a l.b none (record { a = v; b = n }) o here own),
        twin-Erasing v n g h l o (u.fewer v n l met) back here ok u,
      )
]

-- The whole loop.
erase_others-Erasing :
    (v i n : ℕ) (g h : Verts)
    → IsValid g
    → Erasing v i g h
    → (k : Verts) × (erase_others v i n h ≡ some k) × Erasing v (i + n) g k
unfolding erase_others
erase_others-Erasing v i zero g h ok u = (h, refl, subst (λ z. Erasing v z g h) (omega arith) u)
erase_others-Erasing v i (suc n) g h ok u =
    let (h', run, u') = erase_other-Erasing v i g h ok u in
    let (k, run', e) = erase_others-Erasing v (suc i) n g h' ok u' in
    (k, rw run run', subst (λ z. Erasing v z g k) (omega arith) e)

-- What `erase` of `v` makes of a graph.
pub record Erased (v : ℕ) (g g' : Verts) : Type 0 where
  pub valid : IsValid g'
  pub gone : g' v ≡ none
  pub others : (w : ℕ) → w ≢ v → domain_of (g' w) ≡ domain_of (g w)
  pub edges :
      (w j : ℕ) (l : Link)
      → (edge_at g' w j ≡ some l) ↔ ((edge_at g w j ≡ some l) × (w ≢ v) × (l.a ≢ v))

gone_entry : (v j : ℕ) (h : Verts) → edge_at (put v none h) v j ≡ none
gone_entry v j h = ap (λ z. entry_of z j) (put_self v none h)

rest-Erased :
    (v : ℕ) (o : Outs) (g h : Verts)
    → g v ≡ some o
    → IsValid g
    → Erasing v o.domain g h
    → Erased v g (put v none h)
rest-Erased v o g h here ok u =
    let k : Verts = put v none h in
    let away : (w j : ℕ) (l : Link) → edge_at k w j ≡ some l → w ≢ v =
      λ w j l e same. let gone = ap (λ z. edge_at k z j) same ∙ gone_entry v j h in cc in
    let at_h : (w j : ℕ) → w ≢ v → edge_at k w j ≡ edge_at h w j =
      λ w j n. ap (λ z. entry_of z j) (put_other v none h w n) in
    let was : (w j : ℕ) (l : Link) → edge_at k w j ≡ some l → edge_at g w j ≡ some l =
      λ w j l e. u.fewer w j l (sym (at_h w j (away w j l e)) ∙ e) in
    let target : (w j : ℕ) (l : Link) → edge_at k w j ≡ some l → l.a ≢ v = λ w j l e same.
      let back = ok.linked w j l (was w j l e) in
      let back' = ap (λ z. edge_at g z l.b) (sym same) ∙ back in
      let (x, at, own) = vertex_of (g v) l.b (record { a = w; b = j }) back' in
      let x_is = same_outs x o (sym at ∙ here) in
      let lt = ok.bounded v x l.b (record { a = w; b = j }) at own in
      let to_v = was w j l e ∙ ap (λ z. some (record { a = z; b = l.b })) same in
      let cut = u.cut w j l.b (subst (λ z. l.b < z.domain) x_is lt) to_v (away w j l e) in
      let still = sym (at_h w j (away w j l e)) ∙ e in cc in
    let keep : (w j : ℕ) (l : Link)
        → edge_at g w j ≡ some l
        → w ≢ v
        → l.a ≢ v
        → edge_at k w j ≡ some l =
      λ w j l e n n'. at_h w j n ∙ u.kept w j l n' e in
    record {
      valid = record {
        linked = λ w j l e.
            keep l.a l.b (record { a = w; b = j }) (ok.linked w j l (was w j l e)) (target w j l e)
              (away w j l e);
        bounded = λ w x j l at own.
            let e = ap (λ z. entry_of z j) at ∙ own in
            let n = away w j l e in
            let (y, at_y, same) =
              some_shape (g w) (h w) x (sym (u.shape w)) (sym (put_other v none h w n) ∙ at) in
            let (z, at_z, own_z) = vertex_of (g w) j l (was w j l e) in
            let z_is = same_outs z y (sym at_z ∙ at_y) in
            let lt = ok.bounded w z j l at_z own_z in
            subst (λ d. j < d) (ap (λ (t : Outs). t.domain) z_is ∙ same) lt;
      };
      gone = put_self v none h;
      others = λ w n. ap domain_of (put_other v none h w n) ∙ u.shape w;
      edges =
          λ w j l. (λ e. (was w j l e, away w j l e, target w j l e), λ p. keep w j l p.0 p.1 p.2);
    }

-- `erase` of a vertex that exists, in a graph whose links name each other, does not fault, also when
-- edges go from the vertex to itself. Afterwards the links name each other, the vertex is gone, the
-- others are there, and the entries that are left are those that neither stand at the vertex nor
-- link to it.
pub erase-Erased :
    (v : ℕ) (o : Outs) (g : Verts)
    → IsValid g
    → g v ≡ some o
    → (g' : Verts) × (erase v g ≡ some g') × Erased v g g'
unfolding erase
erase-Erased v o g ok here =
    let start : Erasing v 0 g g = record {
      shape = λ w. refl;
      fewer = λ w j l e. e;
      cut = λ w j i lt e away. absurd (omega arith);
      later = λ w j m le e. e;
      kept = λ w j l away e. e;
    } in
    let (h, run, u) = erase_others-Erasing v 0 o.domain g g ok start in
    let whole = subst (λ n. Erasing v n g h) (zero_add o.domain) u in
    (put v none h, rw (here, run), rest-Erased v o g h here ok whole)
