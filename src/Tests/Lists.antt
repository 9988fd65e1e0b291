-- ===== src/Tests/Lists.antt =====
-- include/salgo/_/list.hpp and alloc/crude-allocator.hpp on a few values.
use salgo.Alloc.Crude.{Handle, CrudeAllocator, construct, pack, unpack}
use salgo.Alloc.Crude
use salgo.Alloc.Crude.Construct.{IsValid, Fresh, construct-Unused}
use salgo.Base.{ℕ, ◌+◌, ◌≡◌, refl, true, none, some, List, [], ◌∷◌, ◌==◌, if◌then◌else◌, arith}
use salgo.LinkedList.{
  LinkedList, Reference, reference, clear, erase, emplace_before, emplace_after, emplace_front,
  emplace_back, of_values, read_all,
}
use salgo.LinkedList
use salgo.LinkedList.Clear.{start, Freed, clear-Freed}
use salgo.LinkedList.Erase.{IsList, Unlinked, erase-IsList}
use salgo.LinkedList.Read.{read_all-of_values}

abbrev two : List (ℕ × ℕ)
two = (1, 10) ∷ (2, 20) ∷ []

abbrev linked : LinkedList ℕ
linked = record {
  cells = λ i.
      if i == 1
      then some (record { val = 10; next = some 2; prev = none })
      else (if i == 2 then some (record { val = 20; next = none; prev = some 1 }) else none);
  front = some 1;
  back = some 2;
  num_existing = 2;
}

linked-IsList : IsList two linked
linked-IsList = record {
  links = (refl, (refl, tt));
  distinct = (refl, (refl, tt));
  front_is = refl;
  back_is = refl;
  counted = refl;
}

erase-IsList_example :
    (r : Reference) × (l' : LinkedList ℕ) × (erase (reference 1) linked ≡ some (r, l'))
    × Unlinked [] ((2, 20) ∷ []) 1 linked l'
    × (r.just_erased ≡ true)
    × (r.next ≡ some 2)
    × (r.prev ≡ none)
erase-IsList_example = erase-IsList [] ((2, 20) ∷ []) 1 10 linked linked-IsList

clear-Freed_example : (l' : LinkedList ℕ) × (clear linked ≡ some l') × Freed two linked l'
clear-Freed_example = clear-Freed two linked linked-IsList

read_all-of_values_example :
    (l : LinkedList ℕ) × (of_values two LinkedList.empty ≡ some l)
    × (read_all (l.num_existing + 1) (start l.front) l ≡ some (10 ∷ 20 ∷ []))
read_all-of_values_example = read_all-of_values two (refl, (refl, tt))

abbrev fresh : CrudeAllocator ℕ
fresh = Crude.empty

fresh-IsValid : IsValid fresh
fresh-IsValid = record {
  width = refl;
  filled = omega arith;
  unused = λ i lo hi. absurd (omega arith);
  sized = refl;
}

construct-Unused_example :
    (h : Handle) × (s : CrudeAllocator ℕ) × (construct 8 fresh ≡ some (h, s)) × Fresh 8 fresh h s
construct-Unused_example = construct-Unused 8 fresh fresh-IsValid (omega arith)
