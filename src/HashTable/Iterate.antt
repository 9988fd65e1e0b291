-- ===== src/HashTable/Iterate.antt =====
-- The iterator, with `erase` called on the entry it stands at.
use mathlib.Core.List.{Perm, append_assoc, append-nil, perm_append_singleton, perm_middle}
use mathlib.Core.List.Perm
use salgo.Base.{
  get_elem?-lt, get_elem?-some, ℕ, zero, suc, ◌-◌, ◌<◌, ◌≤◌, ◌≡◌, refl, ap, sym, ◌∙◌, Bool, true,
  false, Option, none, some, List, [], ◌∷◌, ◌++◌, flatten, length, take, inl, inr, ◌==◌, Bool-cases,
  length-append, get_elem?, arith,
}
use salgo.HashTable.{
  Key, Buckets, bucket, HashTable, Handle, entry, settle, increment, begin, iterate,
}
use salgo.HashTable.Emplace.{entries, IsValid}
use salgo.HashTable.Erase.{erase-Removed}
use salgo.HashTable.Entries.{unvisited, take_snoc, take-all, flatten-take-suc}
use salgo.UnorderedArray.Sweep.{keep, kept_last}

module _ {ℓ} {A : Type ℓ} where
  empty_of : (xs : List A) → (length xs == 0) ≡ true → xs ≡ []
  empty_of [] e = refl
  empty_of (x ∷ xs) e = absurd (ground arith)

module _ {ℓ} {K V : Type ℓ} ⦃key : Key K⦄ where
  -- What the iterator stands at when the entries `es` are left: at their last, or past the end.
  data Stands (bs : Buckets K V) (es : List (K × V)) : Option Handle → Type ℓ where
    at_end : es ≡ [] → Stands bs es none
    at_entry :
        (h : Handle) (e : K × V)
        → get_elem? (bucket bs h.a) h.b ≡ some e
        → es ≡ unvisited bs h.a h.b ++ e ∷ []
        → Stands bs es (some h)

  at_index :
      (bs : Buckets K V) (a b : ℕ) (es : List (K × V))
      → b < length (bucket bs a)
      → es ≡ unvisited bs a (suc b)
      → Stands bs es (some (record { a = a; b = b }))
  at_index bs a b es lt whole =
      let (e, got) = get_elem?-some (bucket bs a) b lt in
      at_entry (record { a = a; b = b }) e got
        (whole
          ∙ ap (λ z. flatten (take a bs) ++ z) (take_snoc b (bucket bs a) e got)
          ∙ sym (append_assoc (flatten (take a bs)) (take b (bucket bs a)) (e ∷ [])))

  settle-Stands : (bs : Buckets K V) (a : ℕ) → Stands bs (flatten (take a bs)) (settle bs a)
  unfolding settle flatten
  settle-Stands bs zero = at_end refl
  settle-Stands bs (suc a) = elim (Bool-cases (length (bucket bs a) == 0)) [
    | inl e ↦
        let nothing : bucket bs a ≡ [] = empty_of (bucket bs a) e in
        let same : flatten (take (suc a) bs) ≡ flatten (take a bs) =
          flatten-take-suc bs a ∙ rw nothing (append-nil (flatten (take a bs))) in
        rw (e, same) (settle-Stands bs a)
    | inr e ↦
        let last : suc (length (bucket bs a) - 1) ≡ length (bucket bs a) = ground arith in
        rw e (
          at_index bs a (length (bucket bs a) - 1) (flatten (take (suc a) bs)) (omega arith) (
            flatten-take-suc bs a
            ∙ ap (λ z. flatten (take a bs) ++ z)
                (sym (take-all (suc (length (bucket bs a) - 1)) (bucket bs a) (omega arith)))))
  ]

  increment_at :
      (bs : Buckets K V) (a b : ℕ)
      → b ≤ length (bucket bs a)
      → Stands bs (unvisited bs a b) (increment bs (record { a = a; b = b }))
  unfolding increment
  increment_at bs a zero le = rw (append-nil (flatten (take a bs))) (settle-Stands bs a)
  increment_at bs a (suc b) le =
      let positive : (suc b == 0) ≡ false = ground arith in
      let back : suc b - 1 ≡ b = omega arith in
      rw (positive, back) (at_index bs a b (unvisited bs a (suc b)) (omega arith) refl)

  increment-Stands :
      (bs : Buckets K V) (h : Handle)
      → h.b ≤ length (bucket bs h.a)
      → Stands bs (unvisited bs h.a h.b) (increment bs h)
  increment-Stands bs h le = increment_at bs h.a h.b le

  begin-Stands : (t : HashTable K V) → Stands t.buckets (entries t) (begin t)
  unfolding begin increment
  begin-Stands t =
      let start = settle-Stands t.buckets (length t.buckets) in
      rw (take-all (length t.buckets) t.buckets (omega arith)) at start

  -- What the loop returns from a place at which the entries `es` are left and `others` are behind.
  record Swept (p : K × V → Bool) (es others : List (K × V)) (out : List (K × V) × HashTable K V)
      : Type ℓ where
    valid : IsValid out.1
    visited : Perm out.0 es
    left : Perm (entries out.1) (keep p es ++ others)

  middle_out :
      (us : List (K × V)) (e : K × V) (others : List (K × V))
      → Perm ((us ++ e ∷ []) ++ others) (e ∷ (us ++ others))
  middle_out us e others = rw (append_assoc us (e ∷ []) others) (perm_middle us others)

  -- One step more: the entry `e` was visited before the rest of the walk.
  erased-Swept :
      (p : K × V → Bool) (us others : List (K × V)) (e : K × V) (out : List (K × V) × HashTable K V)
      → p e ≡ true
      → Swept p us others out
      → Swept p (us ++ e ∷ []) others (e ∷ out.0, out.1)
  erased-Swept p us others e out holds s = record {
    valid = s.valid;
    visited = Perm.trans (Perm.cons e s.visited) (Perm.symm (perm_append_singleton e us));
    left =
        let gone : keep p (us ++ e ∷ []) ≡ keep p us =
          kept_last p us e (us ++ e ∷ []) refl ∙ rw holds (append-nil (keep p us)) in
        rw gone s.left;
  }

  kept-Swept :
      (p : K × V → Bool) (us others : List (K × V)) (e : K × V) (out : List (K × V) × HashTable K V)
      → p e ≡ false
      → Swept p us (e ∷ others) out
      → Swept p (us ++ e ∷ []) others (e ∷ out.0, out.1)
  kept-Swept p us others e out fails s = record {
    valid = s.valid;
    visited = Perm.trans (Perm.cons e s.visited) (Perm.symm (perm_append_singleton e us));
    left =
        let stays : keep p (us ++ e ∷ []) ≡ keep p us ++ e ∷ [] =
          kept_last p us e (us ++ e ∷ []) refl ∙ rw fails in
        rw (stays, append_assoc (keep p us) (e ∷ []) others) s.left;
  }

  iterate-from :
      (p : K × V → Bool) (fuel : ℕ) (t : HashTable K V) (es others : List (K × V))
      (h : Option Handle)
      → IsValid t
      → length es ≤ fuel
      → Stands t.buckets es h
      → Perm (entries t) (es ++ others)
      → (out : List (K × V) × HashTable K V) × (iterate fuel p t h ≡ some out)
        × Swept p es others out
  unfolding iterate
  iterate-from p fuel t es others none v enough (at_end e) same = (
    ([], t),
    refl,
    rw e (record { valid = v; visited = Perm.refl []; left = unfold keep in rw e at same }),
  )
  iterate-from p zero t es others (some k) v enough (at_entry h e got whole) same = absurd (
      let size = ap length whole in
      omega (arith, length-append (unvisited t.buckets h.a h.b) (e ∷ []), size))
  iterate-from p (suc fuel) t es others (some k) v enough (at_entry h e got whole) same =
      let us = unvisited t.buckets h.a h.b in
      let size : length us ≤ fuel =
        let s = ap length whole in omega (arith, length-append us (e ∷ []), s) in
      let here : entry t h ≡ some e = unfold entry in got in
      let split = rw whole at same in
      elim (Bool-cases (p e)) [
        | inl holds ↦
            let (t', run, r) = erase-Removed t h e v here in
            let rest : Perm (entries t') (us ++ others) =
              Perm.cons_inv (Perm.trans r.removed (Perm.trans split (middle_out us e others))) in
            let (out, ran, s) =
              iterate-from p fuel t' us others (increment t'.buckets h) r.valid size
                (let next = increment-Stands t'.buckets h r.room in rw r.before at next) rest in
            (
              (e ∷ out.0, out.1),
              rw (here, holds, run, ran),
              rw whole (erased-Swept p us others e out holds s),
            )
        | inr fails ↦
            let rest : Perm (entries t) (us ++ e ∷ others) =
              rw (append_assoc us (e ∷ []) others) at split in
            let (out, ran, s) =
              iterate-from p fuel t us (e ∷ others) (increment t.buckets h) v size
                (increment-Stands t.buckets h
                  (let lt = get_elem?-lt (bucket t.buckets h.a) h.b got in omega arith))
                rest in
            (
              (e ∷ out.0, out.1),
              rw (here, fails, ran),
              rw whole (kept-Swept p us others e out fails s),
            )
      ]

  -- The loop `for(auto& e : table) if(p(e)) e.erase()` on a valid table ends: as many steps as the
  -- table counts entries are enough. It visits every entry once, and leaves a valid table of the
  -- entries that do not satisfy `p`, as a bag.
  pub iterate-Perm :
      (p : K × V → Bool) (t : HashTable K V)
      → IsValid t
      → (visited : List (K × V)) × (t' : HashTable K V) × (iterate t.count p t (begin t)
          ≡ some (visited, t'))
        × Perm visited (entries t)
        × IsValid t'
        × Perm (entries t') (keep p (entries t))
  iterate-Perm p t v =
      let enough = v.counted in
      let all = Perm.refl (entries t) in
      let (out, run, s) =
        iterate-from p t.count t (entries t) [] (begin t) v (omega arith) (begin-Stands t)
          (rw (append-nil (entries t)) all) in
      (out.0, out.1, run, s.visited, s.valid, rw (append-nil (keep p (entries t))) at s.left)
