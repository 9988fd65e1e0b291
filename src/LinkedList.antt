-- ===== src/LinkedList.antt =====
-- include/salgo/_/list.hpp: `List` with COUNTABLE, a doubly linked list over an allocator. A handle
-- is the number of a cell; `new` is the handle that the allocator's `construct` returns. `none` in
-- a result is a fault, such as a handle that names no node.
pub mod Segment
pub mod Erase
pub mod Read
pub mod Clear
pub mod Emplace
pub mod Ends
use salgo.Base.{
  ℕ, zero, suc, ◌+◌, ◌-◌, Bool, true, false, Option, none, some, List, [], ◌∷◌, ◌==◌, if◌then◌else◌,
  ◌>>=◌,
}

pub record Node {ℓ} (V : Type ℓ) : Type ℓ where
  pub val : V
  pub next : Option ℕ
  pub prev : Option ℕ

abbrev pub Cells {ℓ} : Type ℓ → Type ℓ
Cells V = ℕ → Option (Node V)

pub record LinkedList {ℓ} (V : Type ℓ) : Type ℓ where
  pub cells : Cells V
  pub front : Option ℕ
  pub back : Option ℕ
  pub num_existing : ℕ

-- The state of an iterator: `Reference` with `_prev`, `_next` and `_just_erased`.
pub record Reference : Type 0 where
  pub handle : ℕ
  pub prev : Option ℕ
  pub next : Option ℕ
  pub just_erased : Bool

abbrev pub is_handle : Option ℕ → ℕ → Bool
is_handle none h = false
is_handle (some x) h = x == h

-- an accessor of the handle, as `begin` and `operator()` return
abbrev pub reference : ℕ → Reference
reference h = record { handle = h; prev = none; next = none; just_erased = false }

module _ {ℓ} {V : Type ℓ} where
  -- a store to a cell of the allocator
  unfoldable pub store : Cells V → ℕ → Option (Node V) → Cells V
  store cells h n = λ i. if i == h then n else cells i

  -- `if(h.valid()) ALLOC[h].next = x`, and the same of `prev`
  unfoldable pub set_next : Option ℕ → Option ℕ → Cells V → Option (Cells V)
  set_next none x cells = some cells
  set_next (some h) x cells = cells h >>= λ n. some (store cells h (some (record n { next = x })))

  unfoldable pub set_prev : Option ℕ → Option ℕ → Cells V → Option (Cells V)
  set_prev none x cells = some cells
  set_prev (some h) x cells = cells h >>= λ n. some (store cells h (some (record n { prev = x })))

  -- `on_erase`, `get_next` and `get_prev` of `Reference`
  unfoldable pub on_erase : Reference → LinkedList V → Option Reference
  on_erase r l =
      l.cells r.handle >>= λ n. some (record r { prev = n.prev; next = n.next; just_erased = true })

  unfoldable pub get_next : Reference → LinkedList V → Option (Option ℕ)
  get_next r l = if r.just_erased then some r.next else (l.cells r.handle >>= λ n. some n.next)

  unfoldable pub get_prev : Reference → LinkedList V → Option (Option ℕ)
  get_prev r l = if r.just_erased then some r.prev else (l.cells r.handle >>= λ n. some n.prev)

  -- What `Accessor::erase` does to the list.
  unfoldable pub unlink : ℕ → LinkedList V → Option (LinkedList V)
  unlink h l = do
    n ← l.cells h
    c₁ ← set_next n.prev n.next l.cells
    c₂ ← set_prev n.next n.prev c₁
    some (record {
      cells = store c₂ h none;
      front = if is_handle l.front h then n.next else l.front;
      back = if is_handle l.back h then n.prev else l.back;
      num_existing = l.num_existing - 1;
    })

  -- `Accessor::erase`: the accessor remembers the neighbours
  unfoldable pub erase : Reference → LinkedList V → Option (Reference × LinkedList V)
  erase r l = do r' ← on_erase r l; l' ← unlink r.handle l; some (r', l')

  -- `emplace_before` and `emplace_after` at a handle that was not erased
  unfoldable pub emplace_before : V → (new h : ℕ) → LinkedList V → Option (LinkedList V)
  emplace_before x new h l = do
    n ← l.cells h
    let fresh : Node V = record { val = x; next = some h; prev = n.prev }
    c₁ ← set_next n.prev (some new) (store l.cells new (some fresh))
    c₂ ← set_prev (some h) (some new) c₁
    some (record {
      cells = c₂;
      front = if is_handle l.front h then some new else l.front;
      back = l.back;
      num_existing = l.num_existing + 1;
    })

  unfoldable pub emplace_after : V → (new h : ℕ) → LinkedList V → Option (LinkedList V)
  emplace_after x new h l = do
    n ← l.cells h
    let fresh : Node V = record { val = x; next = n.next; prev = some h }
    c₁ ← set_prev n.next (some new) (store l.cells new (some fresh))
    c₂ ← set_next (some h) (some new) c₁
    some (record {
      cells = c₂;
      front = l.front;
      back = if is_handle l.back h then some new else l.back;
      num_existing = l.num_existing + 1;
    })

  -- `_emplace_into_empty`
  unfoldable pub emplace_into_empty : V → ℕ → LinkedList V → LinkedList V
  emplace_into_empty x new l = record {
    cells = store l.cells new (some (record { val = x; next = none; prev = none }));
    front = some new;
    back = some new;
    num_existing = l.num_existing + 1;
  }

  unfoldable pub emplace_front : V → ℕ → LinkedList V → Option (LinkedList V)
  emplace_front x new l = elim l.front [
    | none ↦ some (emplace_into_empty x new l)
    | some h ↦ emplace_before x new h l
  ]

  unfoldable pub emplace_back : V → ℕ → LinkedList V → Option (LinkedList V)
  emplace_back x new l = elim l.front [
    | none ↦ some (emplace_into_empty x new l)
    | some _ ↦ l.back >>= λ h. emplace_after x new h l
  ]

  -- `next_in_cycle` and `prev_in_cycle`
  unfoldable pub next_in_cycle : Reference → LinkedList V → Option (Option ℕ)
  next_in_cycle r l = get_next r l >>= λ n. elim n [ none ↦ some l.front | some h ↦ some (some h) ]

  unfoldable pub prev_in_cycle : Reference → LinkedList V → Option (Option ℕ)
  prev_in_cycle r l = get_prev r l >>= λ n. elim n [ none ↦ some l.back | some h ↦ some (some h) ]

  -- `_increment` and `_decrement`; the iterator that is past the end is `none`
  unfoldable pub increment : Reference → LinkedList V → Option (Option Reference)
  increment r l =
      get_next r l >>= λ n. elim n [ none ↦ some none | some h ↦ some (some (reference h)) ]

  unfoldable pub decrement : Reference → LinkedList V → Option (Option Reference)
  decrement r l =
      get_prev r l >>= λ n. elim n [ none ↦ some none | some h ↦ some (some (reference h)) ]

  -- `for(auto& e : *this) e.erase()`
  unfoldable pub erase_all : ℕ → Option Reference → LinkedList V → Option (LinkedList V)
  erase_all fuel none l = some l
  erase_all zero (some r) l = none
  erase_all (suc fuel) (some r) l = do
    (r', l') ← erase r l
    next ← increment r' l'
    erase_all fuel next l'

  unfoldable pub clear : LinkedList V → Option (LinkedList V)
  clear l = do
    l' ←
        erase_all (l.num_existing + 1) (elim l.front [ none ↦ none | some h ↦ some (reference h) ])
          l
    some (record l' { front = none; back = none })

  -- `for(auto& e : list)`: the values that the iterator visits
  unfoldable pub read_all : ℕ → Option Reference → LinkedList V → Option (List V)
  read_all fuel none l = some []
  read_all zero (some r) l = none
  read_all (suc fuel) (some r) l = do
    n ← l.cells r.handle
    next ← increment r l
    xs ← read_all fuel next l
    some (n.val ∷ xs)

  -- the constructors without arguments and from an initializer list, with the handles of the nodes
  abbrev pub empty : LinkedList V
  empty = record { cells = λ i. none; front = none; back = none; num_existing = 0 }

  unfoldable pub of_values : List (ℕ × V) → LinkedList V → Option (LinkedList V)
  of_values [] l = some l
  of_values ((new, x) ∷ xs) l = emplace_back x new l >>= λ l'. of_values xs l'
