-- ===== src/Tests/Tables.antt =====
-- include/salgo/_/hash-table.inl and unordered-array.inl on a few entries.
use mathlib.Core.List.{Perm}
use salgo.Base.{
  ℕ, ◌*◌, ◌≡◌, ◌↔◌, refl, Bool, true, none, some, List, [], ◌∷◌, flatten, ltb, ◌==◌, arith,
}
use native.Mathlib.Nat.{ℕ_set}
use salgo.HashTable.{
  Key, Handle, HashTable, entry, value_at, rehash, emplace, find, iterate, begin, settle, increment,
  Buckets,
}
use salgo.HashTable
use salgo.HashTable.Emplace.{IsValid, Added, entries, emplace-Added}
use salgo.HashTable.Iterate.{iterate-Perm}
use salgo.HashTable.Commands.{Command, insert, remove, erase_if_found, serve, remembered}
use salgo.HashTable.Map.{unused, serve-remembered}
use salgo.HashTable.Placed.{IsPlaced-replicate}
use salgo.UnorderedArray
use salgo.UnorderedArray.{sweep, sweep_back}
use salgo.UnorderedArray.Sweep.{keep, sweep-Perm}

number_equal : (a b : ℕ) → ((a == b) ≡ true) ↔ (a ≡ b)
number_equal a b = (λ e. ground arith, λ e. ground arith)

instance number_key : Key ℕ
number_key = record { equal = ◌==◌; equal_iff = number_equal; hash = λ x. 7 * x }

abbrev none_yet : HashTable ℕ ℕ
none_yet = record { buckets = []; count = 0 }

none_yet-IsValid : IsValid none_yet
none_yet-IsValid = record { placed = IsPlaced-replicate 0; counted = unfold flatten in refl }

abbrev first : HashTable ℕ ℕ
first = (emplace 3 30 none_yet).1

first-Added : Added 3 30 none_yet (emplace 3 30 none_yet)
first-Added = emplace-Added 3 30 none_yet none_yet-IsValid

emplace-Added_example : Added 4 40 first (emplace 4 40 first)
emplace-Added_example = emplace-Added 4 40 first first-Added.valid

abbrev both : HashTable ℕ ℕ
both = (emplace 4 40 first).1

both-IsValid : IsValid both
both-IsValid = (emplace-Added 4 40 first first-Added.valid).valid

iterate-Perm_example :
    (visited : List (ℕ × ℕ)) × (t : HashTable ℕ ℕ) × (iterate both.count
        (λ e. e.0 == 3)
        both
        (begin both)
      ≡ some (visited, t))
    × Perm visited (entries both)
    × IsValid t
    × Perm (entries t) (keep (λ e. e.0 == 3) (entries both))
iterate-Perm_example = iterate-Perm (λ e. e.0 == 3) both both-IsValid

abbrev five : List ℕ
five = 1 ∷ 2 ∷ 3 ∷ 4 ∷ 5 ∷ []

abbrev small : ℕ → Bool
small x = ltb x 3

sweep_runs : sweep 6 small five 0 ≡ some (5 ∷ 4 ∷ 3 ∷ [])
unfolding sweep UnorderedArray.erase UnorderedArray.pop_back
sweep_runs = refl

sweep-Perm_example : (ys : List ℕ) × (sweep 6 small five 0 ≡ some ys) × Perm ys (keep small five)
sweep-Perm_example = sweep-Perm small five

-- Two inserts, an insert under a key that is there, a removal, and one of a key that is not there.
abbrev commands : List (Command ℕ ℕ)
commands = insert 3 30 ∷ insert 4 40 ∷ insert 3 31 ∷ remove 4 ∷ remove 9 ∷ []

commands_run :
    serve commands unused ≡ some (record { buckets = [] ∷ ((3, 30) ∷ []) ∷ []; count = 1 })
unfolding serve erase_if_found HashTable.emplace_if_not_found HashTable.find HashTable.scan
    HashTable.emplace HashTable.erase HashTable.rebucket HashTable.rehash HashTable.add_entry
    UnorderedArray.add UnorderedArray.erase UnorderedArray.pop_back HashTable.move_buckets
    HashTable.move_bucket number_key
commands_run = refl

serve-remembered_example :
    (t : HashTable ℕ ℕ) × (serve commands unused ≡ some t)
    × IsValid t
    × ((q : ℕ) → value_at q t ≡ remembered commands (λ _. none) q)
serve-remembered_example = serve-remembered ℕ_set commands
