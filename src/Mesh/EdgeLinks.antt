-- ===== src/Mesh/EdgeLinks.antt =====
-- The links between edges go both ways.
use salgo.Base.{
  ◌≡◌, ◌≢◌, ◌⊎◌, refl, ap, sym, ◌∙◌, true, false, Option, none, some, List, [], ◌∷◌, ◌==◌, inl, inr,
  Bool-cases, Option-cases, arith,
}
use salgo.Mesh.{PolyEdge, Links, same_edge, set_link, link, valid_links}

pub same_edge_yes : (e o : PolyEdge) → same_edge e o ≡ true → e ≡ o
unfolding same_edge
same_edge_yes e o h = elim (Bool-cases (e.0 == o.0)) [
  | inl t ↦
      let p : e.0 ≡ o.0 = ground arith in
      let q : e.1 ≡ o.1 = (let h' = rw t at h in ground arith) in λ i. (p i, q i)
  | inr f ↦ let bad = rw f at h in cc
]

pub same_edge_refl : (e : PolyEdge) → same_edge e e ≡ true
unfolding same_edge
same_edge_refl e =
    let p : (e.0 == e.0) ≡ true = ground arith in
    let q : (e.1 == e.1) ≡ true = ground arith in rw (p, q)

pub same_edge_no : (e o : PolyEdge) → e ≢ o → same_edge e o ≡ false
same_edge_no e o differ = elim (Bool-cases (same_edge e o)) [
  | inl t ↦ absurd (differ (same_edge_yes e o t))
  | inr f ↦ f
]

pub set_link_self : (e : PolyEdge) (o : Option PolyEdge) (links : Links) → set_link e o links e ≡ o
unfolding set_link
set_link_self e o links = rw (same_edge_refl e)

pub set_link_other :
    (e x : PolyEdge) (o : Option PolyEdge) (links : Links) → x ≢ e → set_link e o links x ≡ links x
unfolding set_link
set_link_other e x o links differ = rw (same_edge_no x e differ)

-- An edge that has a link is the link of the edge it is linked to.
abbrev pub TwoWay : Links → Type 0
TwoWay links = (a b : PolyEdge) → links a ≡ some b → links b ≡ some a

-- What `link` of `e` and `o` makes of the links.
pub record Linked (e o : PolyEdge) (links after : Links) : Type 0 where
  pub at_this : after e ≡ some o
  pub at_other : after o ≡ some e
  pub elsewhere : (x : PolyEdge) → x ≢ e → x ≢ o → after x ≡ links x

pub link-Linked :
    (e o : PolyEdge) (links : Links)
    → e ≢ o
    → links e ≡ none
    → links o ≡ none
    → (after : Links) × (link e o links ≡ some after) × Linked e o links after
unfolding link
link-Linked e o links differ p q = (
  set_link o (some e) (set_link e (some o) links),
  rw (p, q),
  record {
    at_this = set_link_other o e (some e) _ differ ∙ set_link_self e (some o) links;
    at_other = set_link_self o (some e) _;
    elsewhere = λ x a b. set_link_other o x (some e) _ b ∙ set_link_other e x (some o) links a;
  },
)

pub edge_cases : (a b : PolyEdge) → (a ≡ b) ⊎ (a ≢ b)
edge_cases a b = elim (Bool-cases (same_edge a b)) [
  | inl t ↦ inl (same_edge_yes a b t)
  | inr f ↦ inr (λ p. let t = sym (same_edge_refl a) ∙ ap (same_edge a) p ∙ f in absurd (cc))
]

pub Linked-TwoWay :
    (e o : PolyEdge) (links after : Links)
    → links e ≡ none
    → links o ≡ none
    → Linked e o links after
    → TwoWay links
    → TwoWay after
Linked-TwoWay e o links after p q l two a b h = elim (edge_cases a e) [
  | inl is_e ↦
      let af = ap after is_e in
      let this = l.at_this in
      let b_is : b ≡ o = cc in ap after b_is ∙ l.at_other ∙ ap some (sym is_e)
  | inr not_e ↦ elim (edge_cases a o) [
    | inl is_o ↦
        let af = ap after is_o in
        let other = l.at_other in
        let b_is : b ≡ e = cc in ap after b_is ∙ l.at_this ∙ ap some (sym is_o)
    | inr not_o ↦
        let back = two a b (sym (l.elsewhere a not_e not_o) ∙ h) in
        l.elsewhere b (λ s. let at_e = ap links s in cc) (λ s. let at_o = ap links s in cc) ∙ back
  ]
]

pub valid_links_lem :
    (links : Links) (es : List PolyEdge) → TwoWay links → valid_links links es ≡ true
unfolding valid_links
valid_links_lem links [] two = refl
valid_links_lem links (e ∷ es) two = elim (Option-cases (links e)) [
  | inl n ↦ rw n (valid_links_lem links es two)
  | inr (o, p) ↦ rw (p, two e o p, same_edge_refl e) (valid_links_lem links es two)
]
