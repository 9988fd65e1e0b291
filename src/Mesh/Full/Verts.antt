-- ===== src/Mesh/Full/Verts.antt =====
-- `add` and `fast_erase` of vertices, and a new mesh.
use salgo.Base.Store.{put}
use mathlib.Core.List.{Nodup-nil, not-mem-nil}
use salgo.Base.{ℕ, ◌≡◌, ◌≢◌, refl, true, Option, none, some, [], flatten, ◌==◌, arith}
use salgo.HashTable.{Key}
use salgo.HashTable.Placed.{IsPlaced-replicate}
use salgo.Mesh.Full.{PolyVert, Vert, FullMesh, vert_at, add_vert, fast_erase}
use salgo.Mesh.Full.Index.{Holds}
use salgo.Mesh.Full.Corners.{replace-Indexed, gone-Indexed, no_entries}
use salgo.Mesh.Full.Add.{IsConsistent}

-- `Mesh()`
abbrev pub new_mesh : {V : Type 0} → FullMesh V
new_mesh = record { vs = λ v. none; ps = λ p. none }

module _ ⦃key : Key PolyVert⦄ where
  empty-Holds :
      (at : PolyVert → Option ℕ) (v : ℕ)
      → ((pv : PolyVert) → at pv ≢ some v)
      → Holds (record { buckets = []; count = 0 }) at v
  unfolding flatten
  empty-Holds at v unused = record {
    table = record { placed = IsPlaced-replicate 0; counted = refl };
    once = Nodup-nil;
    exact = λ pv. (λ m. absurd (not-mem-nil m), λ p. absurd (unused pv p));
  }

module _ {V : Type 0} ⦃key : Key PolyVert⦄ where
  pub new_mesh-IsConsistent : IsConsistent (new_mesh {V = V})
  new_mesh-IsConsistent = record {
    indexed = record { lists = λ v x p. absurd (cc); known = λ pv v p. absurd (cc) };
    two_way = λ a b p. absurd (cc);
  }

  pub add_vert-IsConsistent :
      (h : ℕ) (x : V) (m : FullMesh V)
      → m.vs h ≡ none
      → IsConsistent m
      → IsConsistent (add_vert h x m)
  unfolding add_vert
  add_vert-IsConsistent h x m fresh ok = record {
    indexed =
        replace-Indexed m.vs (vert_at m) (vert_at m) h _
          (empty-Holds (vert_at m) h (λ pv p. let (y, q) = ok.indexed.known pv h p in cc))
          (λ w y differ p. ok.indexed.lists w y p) (λ pv w differ p. ok.indexed.known pv w p);
    two_way = ok.two_way;
  }

  pub fast_erase-IsConsistent :
      (v : ℕ) (m : FullMesh V) (x : Vert V)
      → m.vs v ≡ some x
      → x.poly_links.count ≡ 0
      → IsConsistent m
      → (m' : FullMesh V) × (fast_erase v m ≡ some m') × IsConsistent m'
  unfolding fast_erase
  fast_erase-IsConsistent v m x here zero_left ok =
      let none_left : (x.poly_links.count == 0) ≡ true = ground arith in
      let h = ok.indexed.lists v x here in
      (
        record m { vs = put v none m.vs },
        rw (here, none_left),
        record {
          indexed =
              gone-Indexed m.vs (vert_at m) v ok.indexed
                (λ pv p. no_entries x.poly_links h.table zero_left pv ((h.exact pv).1 p));
          two_way = ok.two_way;
        },
      )
