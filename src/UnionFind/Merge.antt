-- ===== src/UnionFind/Merge.antt =====
-- `merge` joins the sets of its two arguments, merges their data and changes no other set.
use mathlib.Core.Path.{subst}
use salgo.Base.{
  ℕ, suc, ◌+◌, ◌-◌, ◌<◌, ◌≡◌, ◌≢◌, sym, ◌∙◌, Option, none, some, List, ◌==◌, if◌then◌else◌, length,
  inl, inr, Bool-cases, ◌>>=◌, arith,
}
use salgo.UnionFind.{
  Node, UnionFind, parent_at, set_parent, set_storage, storage_at, data_at, merge_nodes, merge,
}
use salgo.UnionFind.Paths.{
  Leads, here, children, IsRanked, children-link, Leads-root, Leads-exists, length-set_parent,
  parent_at-set_parent, children-le-length,
}
use salgo.UnionFind.Find.{
  SameSets, SameSets-trans, SameSets-root, find-Leads, storage_at-set_parent,
}
use salgo.UnionFind.Link.{
  parent_at-set_storage, length-set_storage, children-set_storage, storage_at-set_storage,
  Leads-same, raised, link-IsRanked, link-Leads,
}

module _ {ℓ} {D : Type ℓ} where
  -- The links lead upwards, every root has its data, and `count` is the number of roots.
  pub record IsValid (u : UnionFind D) : Type ℓ where
    pub rank : ℕ → ℕ
    pub ranked : IsRanked u.nodes rank
    pub stored :
        (i : ℕ) → parent_at u.nodes i ≡ some none → (d : D) × (storage_at u.nodes i ≡ some (some d))
    pub counted : u.count + children u.nodes ≡ length u.nodes

  SameSets-IsValid :
      {u : UnionFind D} (v : IsValid u) {nodes : List (Node D)}
      → SameSets v.rank u.nodes nodes
      → IsValid (record u { nodes = nodes })
  SameSets-IsValid v s = record {
    rank = v.rank;
    ranked = s.ranked;
    stored = λ i e. let (d, f) = v.stored i (SameSets-root v.ranked s i e) in (d, s.stored i ∙ f);
    counted = omega (arith, s.width, s.links, v.counted);
  }

  module _ (absorb : D → D → D) where
    -- `u'` is `u` after the sets of the nodes `a` and `b`, with the roots `ra` and `rb`, are joined.
    pub record Joined (u : UnionFind D) (a b : ℕ) (u' : UnionFind D) : Type ℓ where
      pub ra : ℕ
      pub rb : ℕ
      pub leads_a : Leads u.nodes ra a
      pub leads_b : Leads u.nodes rb b
      pub valid : IsValid u'
      pub width : length u'.nodes ≡ length u.nodes
      pub counted : u'.count + (if ra == rb then 0 else 1) ≡ u.count
      pub joins : (i r : ℕ) → Leads u.nodes r i → Leads u'.nodes (if r == ra then rb else r) i
      pub merged :
          (x y : D)
          → data_at u.nodes ra ≡ some x
          → data_at u.nodes rb ≡ some y
          → data_at u'.nodes rb ≡ some (if ra == rb then y else absorb x y)
      pub others : (i : ℕ) → i ≢ ra → i ≢ rb → data_at u'.nodes i ≡ data_at u.nodes i

    module _ (u : UnionFind D) (v : IsValid u) {a b ra rb : ℕ} (la : Leads u.nodes ra a)
        (lb : Leads u.nodes rb b) (s : List (Node D)) (t : SameSets v.rank u.nodes s) where
      -- What the code does once both roots are known.
      finish : Option (UnionFind D)
      finish = if ra == rb then some (record u { nodes = s }) else do
        s₆ ← merge_nodes absorb (set_parent s ra rb) ra rb
        some (record { nodes = s₆; count = u.count - 1 })

      Joined-same : ra ≡ rb → Joined u a b (record u { nodes = s })
      Joined-same e = record {
        ra = ra;
        rb = rb;
        leads_a = la;
        leads_b = lb;
        valid = SameSets-IsValid v t;
        width = t.width;
        counted = ground arith;
        joins = λ i r l.
            let same : (if r == ra then rb else r) ≡ r = ground arith in
            subst (λ x. Leads s x i) (sym same) (t.keeps i r l);
        merged = λ x y p q. ground (arith, t.stored rb);
        others = λ i p q. ground (arith, t.stored i);
      }

      root_a : parent_at s ra ≡ some none
      root_a = Leads-root (t.keeps a ra la)

      root_b : parent_at s rb ≡ some none
      root_b = Leads-root (t.keeps b rb lb)

      module _ (ne : ra ≢ rb) (x y : D) (at_a : storage_at s ra ≡ some (some x))
          (at_b : storage_at s rb ≡ some (some y)) where
        linked : List (Node D)
        linked = set_parent s ra rb

        final : List (Node D)
        final = set_storage (set_storage linked rb (some (absorb x y))) ra none

        final_parent : (i : ℕ) → parent_at final i ≡ parent_at linked i
        unfolding final
        final_parent i =
            parent_at-set_storage (set_storage linked rb (some (absorb x y))) ra none i
            ∙ parent_at-set_storage linked rb (some (absorb x y)) i

        final_storage :
            (i : ℕ)
            → storage_at final i ≡ (
                if ra == i
                then some none
                else if rb == i
                then some (some (absorb x y))
                else storage_at s i)
        unfolding final linked
        final_storage i = ground (
          arith,
          storage_at-set_storage (set_storage linked rb (some (absorb x y))) ra none i,
          storage_at-set_storage linked rb (some (absorb x y)) i,
          storage_at-set_parent s ra rb i,
        )

        final-IsRanked : IsRanked final (raised s v.rank t.ranked root_a root_b ne)
        unfolding final linked
        final-IsRanked =
            let r = link-IsRanked s v.rank t.ranked root_a root_b ne in
            record {
              up = λ i p e. omega (
                arith,
                r.up i p (sym (final_parent i) ∙ e),
                length-set_storage (set_storage linked rb (some (absorb x y))) ra none,
                length-set_storage linked rb (some (absorb x y)),
              );
              bound = λ i. omega (
                arith,
                r.bound i,
                children-set_storage (set_storage linked rb (some (absorb x y))) ra none,
                children-set_storage linked rb (some (absorb x y)),
              );
            }

        final_size : (length final ≡ length s) × (children final ≡ suc (children s))
        unfolding final linked
        final_size = (
          length-set_storage (set_storage linked rb (some (absorb x y))) ra none
              ∙ length-set_storage linked rb (some (absorb x y))
              ∙ length-set_parent s ra rb,
          children-set_storage (set_storage linked rb (some (absorb x y))) ra none
              ∙ children-set_storage linked rb (some (absorb x y))
              ∙ children-link s ra rb root_a,
        )

        final_root :
            (i : ℕ) → parent_at final i ≡ some none → (ra ≢ i) × (parent_at s i ≡ some none)
        unfolding linked
        final_root i e = ground (arith, final_parent i, parent_at-set_parent s ra rb i, root_a)

        final_stored :
            (i : ℕ) → parent_at final i ≡ some none → (d : D) × (storage_at final i ≡ some (some d))
        final_stored i e =
            let (apart, root) = final_root i e in
            let (d, f) = (SameSets-IsValid v t).stored i root in
            elim (Bool-cases (rb == i)) [
              | inl h ↦ (absorb x y, ground (arith, final_storage i))
              | inr h ↦ (d, ground (arith, final_storage i))
            ]

        has_set : 0 < u.count
        has_set = omega (arith, final_size, children-le-length final, v.counted, t.width, t.links)

        Joined-apart : Joined u a b (record { nodes = final; count = u.count - 1 })
        unfolding linked
        Joined-apart = record {
          ra = ra;
          rb = rb;
          leads_a = la;
          leads_b = lb;
          valid = record {
            rank = raised s v.rank t.ranked root_a root_b ne;
            ranked = final-IsRanked;
            stored = final_stored;
            counted = omega (arith, final_size, has_set, v.counted, t.width, t.links);
          };
          width = final_size.0 ∙ t.width;
          counted = ground (arith, has_set);
          joins = λ i r l.
              Leads-same final_parent
                (link-Leads s v.rank t.ranked root_a root_b ne (t.keeps i r l));
          merged = λ x' y' p q. ground (arith, final_storage rb, t.stored ra, t.stored rb);
          others = λ i p q. ground (arith, final_storage i, t.stored i);
        }

      -- With both roots known the code does not fault, and joins the sets.
      finish-Joined : (u' : UnionFind D) × (finish ≡ some u') × Joined u a b u'
      unfolding finish final linked merge_nodes
      finish-Joined = elim (Bool-cases (ra == rb)) [
        | inl e ↦ (record u { nodes = s }, rw e, Joined-same (ground arith))
        | inr e ↦
            let apart : ra ≢ rb = ground arith in
            let (x, at_a) = (SameSets-IsValid v t).stored ra root_a in
            let (y, at_b) = (SameSets-IsValid v t).stored rb root_b in
            let moved_a = storage_at-set_parent s ra rb ra ∙ at_a in
            let moved_b = storage_at-set_parent s ra rb rb ∙ at_b in
            (
              record { nodes = final apart x y at_a at_b; count = u.count - 1 },
              rw (e, moved_a, moved_b),
              Joined-apart apart x y at_a at_b,
            )
      ]

    -- On a valid state `merge` of two nodes does not fault and returns a valid state. In it every
    -- node of the set of `a` has the root of `b`, and every other node keeps its root. If the sets
    -- were two, the joined set has the merged data and `count` falls by one; if they were one, both
    -- stay as they were.
    pub merge-Joined :
        (u : UnionFind D)
        → IsValid u
        → (a b : ℕ) → a < length u.nodes
        → b < length u.nodes
        → (u' : UnionFind D) × (merge absorb u a b ≡ some u') × Joined u a b u'
    unfolding merge finish
    merge-Joined u v a b ha hb =
        let (ra, la) = Leads-exists u.nodes v.rank v.ranked a ha in
        let (rb, lb) = Leads-exists u.nodes v.rank v.ranked b hb in
        let (s₁, e₁, t₁) = find-Leads v.rank u.nodes v.ranked la in
        let (s₂, e₂, t₂) = find-Leads v.rank s₁ t₁.ranked (t₁.keeps ra ra (here (Leads-root la))) in
        let u₂ = SameSets-trans t₁ t₂ in
        let (s₃, e₃, t₃) = find-Leads v.rank s₂ u₂.ranked (u₂.keeps b rb lb) in
        let u₃ = SameSets-trans u₂ t₃ in
        let (s₄, e₄, t₄) = find-Leads v.rank s₃ u₃.ranked (u₃.keeps ra ra (here (Leads-root la))) in
        let u₄ = SameSets-trans u₃ t₄ in
        let (s₅, e₅, t₅) = find-Leads v.rank s₄ u₄.ranked (u₄.keeps rb rb (here (Leads-root lb))) in
        let (u', run, joined) = finish-Joined u v la lb s₅ (SameSets-trans u₄ t₅) in
        (u', rw (e₁, e₂, e₃, e₄, e₅) run, joined)
