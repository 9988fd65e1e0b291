-- ===== src/Tests/Spaces.antt =====
-- include/salgo/_/linalg/kd.hpp on a few points of the plane.
use mathlib.Core.HLevel.{⊥_prop}
use mathlib.Core.Logic.Or
use mathlib.Core.List.{Perm, Mem, mem-cons, not-mem-nil}
use native.Mathlib.Nat.{mul-le-mul_left, mul-le-mul_right}
use salgo.Base.{
  ℕ, zero, suc, ◌+◌, ◌-◌, ◌*◌, ◌/◌, some, ◌<◌, ◌≤◌, ◌≡◌, refl, Bool, false, List, [], ◌∷◌, ltb,
  arith,
}
use salgo.Kd.{
  Scalar, Box, Query, Entry, Tree, empty, node, Kd, mark, entries, emplace, plant, erase, is_hit,
  each_from, each_intersecting,
}
use salgo.Kd
use salgo.Kd.Live.{IsValid, empty-IsValid, emplace-IsValid, handles}
use salgo.Kd.Search.{visit, each_intersecting-visit}
use salgo.Kd.Nearest.{Metric, better}
use salgo.Kd.Closest.{Closest, closest_from, find_closest_center, find_closest_center-Closest}
use salgo.Kd.Singular
use salgo.Kd.Singular.{AlignedBox, singular_box, singular_query}

instance number_scalar : Scalar ℕ
number_scalar = record {
  less = ltb;
  minus = ◌-◌;
  less_asym = λ a b h. ground arith;
  less_trans = λ a b c h k. ground arith;
}

abbrev Point : Type 0
Point = ℕ → ℕ

instance point_box : Box ℕ Point
point_box = singular_box

instance point_query : Query ℕ Point (AlignedBox ℕ) 2
unfolding point_box
point_query = singular_query 2

-- Coordinates in hundredths.
abbrev square : ℕ → ℕ
square n = n * n / 100

-- The distance of two numbers.
abbrev apart : ℕ → ℕ → ℕ
apart a b = (a - b) + (b - a)

times_mono : (a b : ℕ) → a ≤ b → a * a ≤ b * b
times_mono a b h =
    let first = mul-le-mul_left a h in
    let second = mul-le-mul_right b h in omega (arith, first, second)

square_mono : (a b : ℕ) → a ≤ b → square a ≤ square b
square_mono a b h = omega (arith, times_mono a b h)

below_sum : (d s t : ℕ) → d ≤ s → ltb (s + t) d ≡ false
below_sum d s t h = ground arith

below_sum_right : (d s t : ℕ) → d ≤ t → ltb (s + t) d ≡ false
below_sum_right d s t h = ground arith

-- How far a point lies beyond another along an axis has at most the squared distance as its square.
beyond :
    (p b w : Point) (axis : ℕ)
    → axis < 2
    → p axis ≤ apart (b axis) (w axis)
    → ltb (square (apart (b 0) (w 0)) + square (apart (b 1) (w 1))) (square (p axis)) ≡ false
beyond p b w zero lt h =
    let le = square_mono (p 0) (apart (b 0) (w 0)) h in
    below_sum (square (p 0)) (square (apart (b 0) (w 0))) (square (apart (b 1) (w 1))) le
beyond p b w (suc zero) lt h =
    let le = square_mono (p 1) (apart (b 1) (w 1)) h in
    below_sum_right (square (p 1)) (square (apart (b 0) (w 0))) (square (apart (b 1) (w 1))) le
beyond p b w (suc (suc axis)) lt h = absurd (omega arith)

instance point_metric : Metric ℕ Point Point 2
unfolding point_box number_scalar
point_metric = record {
  point = λ w. w;
  distance = λ b w. square (apart (b 0) (w 0)) + square (apart (b 1) (w 1));
  origin = 0;
  square = square;
  minus_right = λ a b c h. ground arith;
  minus_left = λ a b c h. ground arith;
  square_mono = λ a b pos h.
      let le : a ≤ b = ground arith in let mono = square_mono a b le in ground (arith, mono);
  positive = λ b w. ground arith;
  beyond_above = λ b w axis lt pos. beyond (λ i. w i - b i) b w axis lt (omega arith);
  beyond_below = λ b w axis lt pos. beyond (λ i. b i - w i) b w axis lt (omega arith);
}

abbrev at : ℕ → ℕ → Point
at x y zero = x
at x y (suc i) = y

abbrev start : Kd ℕ Point ℕ
start = record { tree = empty; counter = 0 }

-- The memory of the new nodes holds 7 and 9.
abbrev one_point : Kd ℕ Point ℕ
one_point = emplace 2 0 (at 5 1) 50 7 9 start

one_point-IsValid : IsValid 2 one_point
unfolding entries
one_point-IsValid = (emplace-IsValid 2 0 (at 5 1) 50 7 9 start (empty-IsValid 2) not-mem-nil).0

one_fresh : ¬ Mem 1 (handles (entries one_point.tree))
unfolding entries emplace plant
one_fresh m = Or.elim ⊥_prop (mem-cons.0 m) (λ e. absurd (omega arith)) not-mem-nil

abbrev two_points : Kd ℕ Point ℕ
two_points = emplace 2 1 (at 2 8) 20 7 9 one_point

emplace-IsValid_example :
    IsValid 2 two_points
    × Perm
        (entries two_points.tree)
        (record { handle = 1; aabb = at 2 8; kv = 20; erased = false } ∷ entries one_point.tree)
emplace-IsValid_example = emplace-IsValid 2 1 (at 2 8) 20 7 9 one_point one_point-IsValid one_fresh

two_points-IsValid : IsValid 2 two_points
two_points-IsValid = (emplace-IsValid 2 1 (at 2 8) 20 7 9 one_point one_point-IsValid one_fresh).0

-- The callback keeps the values that it is called on.
abbrev collect : List ℕ → Entry Point ℕ → Bool × List ℕ
collect s e = (false, e.kv ∷ s)

abbrev area : AlignedBox ℕ
area = record { min = at 1 1; max = at 6 6 }

each_intersecting-visit_example :
    each_intersecting 2 area collect two_points []
    ≡ visit (is_hit point_query.intersects area) collect (entries two_points.tree) []
each_intersecting-visit_example =
    each_intersecting-visit 2 area collect two_points (omega arith) two_points-IsValid.bounded []

each_intersecting_runs : each_intersecting 2 area collect two_points [] ≡ (false, 50 ∷ [])
unfolding each_intersecting each_from is_hit emplace plant Kd.descend number_scalar point_box
    Kd.then_next point_query Singular.singular_intersects Singular.all Kd.at_most Kd.is_node
    Kd.max_of
each_intersecting_runs = refl

find_closest_center-Closest_example :
    Closest {S = ℕ} 2
      (at 3 7)
      1000
      (entries two_points.tree)
      (find_closest_center 2 (at 3 7) 1000 two_points)
unfolding number_scalar point_metric
find_closest_center-Closest_example =
    find_closest_center-Closest 2 (at 3 7) 1000 two_points (omega arith) refl
      two_points-IsValid.bounded

-- The points (0.5, 0.4) and (0.51, 0). From the origin the first is found, at the squared distance
-- 0.41: the other one, at 0.26, lies more than 0.41 away along the axis, and is left out.
abbrev near_points : Kd ℕ Point ℕ
near_points = emplace 2 1 (at 51 0) 51 7 9 (emplace 2 0 (at 50 40) 50 7 9 start)

find_closest_center_misses :
    find_closest_center 2 (at 0 0) 1000 near_points
    ≡ some (record { handle = 0; aabb = at 50 40; kv = 50; erased = false })
unfolding find_closest_center closest_from better emplace plant Kd.descend number_scalar point_box
    Kd.at_most Kd.is_node Kd.max_of Kd.min_of Singular.singular_box point_metric
find_closest_center_misses = refl
