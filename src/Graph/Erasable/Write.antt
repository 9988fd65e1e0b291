-- ===== src/Graph/Erasable/Write.antt =====
-- One entry of a graph, written.
use salgo.Base.Store.{put, put_self, put_other, number_cases}
use salgo.Base.{ℕ, ◌<◌, ◌≡◌, ◌≢◌, refl, ap, sym, ◌∙◌, Option, none, some, inl, inr}
use salgo.Graph.{Link}
use salgo.Graph.Erasable.{Outs, Verts, entry_of, edge_at, with_entry, write_entry}

-- Each entry's link names an entry that links back, and entries stand below the domain.
pub record IsValid (g : Verts) : Type 0 where
  pub linked :
      (v i : ℕ) (l : Link)
      → edge_at g v i ≡ some l
      → edge_at g l.a l.b ≡ some (record { a = v; b = i })
  pub bounded :
      (v : ℕ) (o : Outs) (i : ℕ) (l : Link) → g v ≡ some o → o.entry i ≡ some l → i < o.domain

pub vertex_of :
    (o : Option Outs) (i : ℕ) (l : Link)
    → entry_of o i ≡ some l
    → (x : Outs) × (o ≡ some x) × (x.entry i ≡ some l)
vertex_of none i l e = absurd (cc)
vertex_of (some x) i l e = (x, refl, e)

pub write_run :
    (g : Verts) (v i : ℕ) (e : Option Link) (old : Link) (o : Outs)
    → g v ≡ some o
    → o.entry i ≡ some old
    → write_entry v i e g ≡ some (put v (some (with_entry i e o)) g)
unfolding write_entry
write_run g v i e old o here own = rw (here, own)

-- What a write does to the other entries.
pub write_elsewhere :
    (g : Verts) (v i : ℕ) (e : Option Link) (o : Outs) (w j : ℕ)
    → g v ≡ some o
    → ((w ≡ v) → (j ≢ i))
    → edge_at (put v (some (with_entry i e o)) g) w j ≡ edge_at g w j
write_elsewhere g v i e o w j here differ = elim (number_cases w v) [
  | inr other ↦ ap (λ z. entry_of z j) (put_other v (some (with_entry i e o)) g w other)
  | inl same ↦
      ap (λ z. entry_of z j)
        (ap (put v (some (with_entry i e o)) g) same ∙ put_self v (some (with_entry i e o)) g)
      ∙ put_other i e o.entry j (differ same)
      ∙ sym (ap (λ z. entry_of z j) (ap g same ∙ here))
]

-- The number of places of a vertex, if it exists.
abbrev pub domain_of : Option Outs → Option ℕ
domain_of none = none
domain_of (some o) = some o.domain

pub some_shape :
    (a b : Option Outs) (o : Outs)
    → domain_of a ≡ domain_of b
    → b ≡ some o
    → (x : Outs) × (a ≡ some x) × (x.domain ≡ o.domain)
some_shape none b o p e = let none_there = p ∙ ap domain_of e in absurd (cc)
some_shape (some x) b o p e = let same = p ∙ ap domain_of e in (x, refl, cc)

pub write_shape :
    (g : Verts) (v i : ℕ) (e : Option Link) (o : Outs) (w : ℕ)
    → g v ≡ some o
    → domain_of (put v (some (with_entry i e o)) g w) ≡ domain_of (g w)
write_shape g v i e o w here = elim (number_cases w v) [
  | inr other ↦ ap domain_of (put_other v (some (with_entry i e o)) g w other)
  | inl same ↦
      ap domain_of
        (ap (put v (some (with_entry i e o)) g) same ∙ put_self v (some (with_entry i e o)) g)
      ∙ sym (ap domain_of (ap g same ∙ here))
]

pub write_here :
    (g : Verts) (v i : ℕ) (e : Option Link) (o : Outs)
    → edge_at (put v (some (with_entry i e o)) g) v i ≡ e
write_here g v i e o =
    ap (λ z. entry_of z i) (put_self v (some (with_entry i e o)) g) ∙ put_self i e o.entry
