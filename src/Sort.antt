-- ===== src/Sort.antt =====
-- datastruct/sort.c: the quick sort, the bubble sort and the merge sort. An `int` x stands as the number x + 2 ^ 31, which keeps the
-- order; the array is a list.
pub mod Agree
pub mod Bubble
pub mod Merge
pub mod Rearrange
pub mod Scan
pub mod Partition
pub mod Quick
mod Tests
use utils_modules.Base.{
  ◌&&◌, get_or, set, ℕ, zero, suc, ◌+◌, ◌-◌, ◌/◌, List, [], ◌∷◌, ◌++◌, ltb, leb, if◌then◌else◌,
  length, take, drop, Option, some, none, ◌>>=◌,
}

-- The inner loop of `bubble_sort` from the position on that the list starts with, for as many
-- rounds: the smaller of two neighbours stays, the larger one is compared next.
unfoldable pub bubble_pass : ℕ → List ℕ → List ℕ
bubble_pass zero xs = xs
bubble_pass (suc m) [] = []
bubble_pass (suc m) (x ∷ []) = x ∷ []
bubble_pass (suc m) (x ∷ y ∷ zs) =
    (if ltb y x then y else x) ∷ bubble_pass m ((if ltb y x then x else y) ∷ zs)

-- The outer loop with `k` rounds left, which are also the rounds of the inner loop.
unfoldable pub bubble_rounds : ℕ → List ℕ → List ℕ
bubble_rounds zero xs = xs
bubble_rounds (suc k) xs = bubble_rounds k (bubble_pass (suc k) xs)

-- `bubble_sort`.
unfoldable pub bubble_sort : List ℕ → ℕ → List ℕ
bubble_sort a n = bubble_rounds (n - 1) a

-- The loops of `mergearray` over what is left of the two parts, for as many rounds as there are
-- numbers in both.
unfoldable pub merge_parts : ℕ → List ℕ → List ℕ → List ℕ
merge_parts zero xs ys = xs ++ ys
merge_parts (suc k) [] ys = ys
merge_parts (suc k) (x ∷ xs) [] = x ∷ xs
merge_parts (suc k) (x ∷ xs) (y ∷ ys) =
    if leb x y then x ∷ merge_parts k xs (y ∷ ys) else y ∷ merge_parts k (x ∷ xs) ys

-- `mergearray` of two neighbouring parts of the array: the part that replaces them, and `temp`; `none`
-- is a write behind `temp`.
unfoldable pub mergearray : List ℕ → List ℕ → List ℕ → Option (List ℕ × List ℕ)
mergearray xs ys temp =
    let merged : List ℕ = merge_parts (length xs + length ys) xs ys in
    if leb (length merged) (length temp)
    then some (merged, merged ++ drop (length merged) temp)
    else none

-- Two neighbouring parts, each with what `res` is after it, are merged.
unfoldable pub store_merged :
    List ℕ × Option (List ℕ) → List ℕ × Option (List ℕ) → Option (List ℕ × Option (List ℕ))
store_merged left (right, none) = none
store_merged left (right, some temp) =
    mergearray (left.0) right temp >>= (λ merged. some (merged.0, some (merged.1)))

-- `_merge_sort` of a part of the array; the fuel bounds the depth. `(first + last) / 2` is half the
-- distance from `first`. `none` for the memory is the null pointer, as a result of all an access out of
-- the memory.
unfoldable pub merge_sort_part : ℕ → List ℕ → Option (List ℕ) → Option (List ℕ × Option (List ℕ))
merge_sort_part zero a res = some (a, res)
merge_sort_part (suc fuel) a res =
    let half : ℕ = (length a - 1) / 2 + 1 in
    let sorted : Option (List ℕ × Option (List ℕ)) =
      merge_sort_part fuel (take half a) res
      >>= (λ left. merge_sort_part fuel (drop half a) (left.1) >>= store_merged left) in
    if ltb 1 (length a) then sorted else some (a, res)

-- `merge_sort`, with what `malloc` gives, memory or the null pointer: the array, and the result.
unfoldable pub merge_sort : List ℕ → Option (List ℕ) → Option (List ℕ × Option (List ℕ))
merge_sort a res = merge_sort_part (length a) a res

-- The inner loop of `adjust_array` that moves `j` down to `i` at most.
unfoldable pub scan_down : List ℕ → ℕ → ℕ → ℕ → ℕ
scan_down arr tmp i zero = zero
scan_down arr tmp i (suc j) =
    if ltb i (suc j) && leb tmp (get_or arr (suc j) 0) then scan_down arr tmp i j else suc j

-- The inner loop that moves `i` up, with `n` places left to `j`.
unfoldable pub scan_up : List ℕ → ℕ → ℕ → ℕ → ℕ
scan_up arr tmp zero i = i
scan_up arr tmp (suc n) i = if ltb (get_or arr i 0) tmp then scan_up arr tmp n (i + 1) else i

-- The outer loop of `adjust_array`, whose distance from `i` to `j` falls in each round: the array, and
-- the place that is free at the end. No index leaves the part from `left` to `right`.
unfoldable pub adjust_loop : ℕ → List ℕ → ℕ → ℕ → ℕ → List ℕ × ℕ
adjust_loop zero arr tmp i j = (arr, i)
adjust_loop (suc fuel) arr tmp i j =
    let j1 : ℕ = scan_down arr tmp i j in
    let arr1 : List ℕ = if ltb i j1 then set arr i (get_or arr j1 0) else arr in
    let i1 : ℕ = if ltb i j1 then i + 1 else i in
    let i2 : ℕ = scan_up arr1 tmp (j1 - i1) i1 in
    let arr2 : List ℕ = if ltb i2 j1 then set arr1 j1 (get_or arr1 i2 0) else arr1 in
    let j2 : ℕ = if ltb i2 j1 then j1 - 1 else j1 in
    let rest : List ℕ × ℕ = adjust_loop fuel arr2 tmp i2 j2 in if ltb i j then rest else (arr, i)

-- `adjust_array`: the array, and the place of the number that stood at `left`.
unfoldable pub adjust_array : List ℕ → ℕ → ℕ → List ℕ × ℕ
adjust_array arr left right =
    let tmp : ℕ = get_or arr left 0 in
    let r : List ℕ × ℕ = adjust_loop (right - left) arr tmp left right in (set (r.0) (r.1) tmp, r.1)

-- `_quick_sort` of the part from `left` to `right`, where `past` is `right` + 1; the fuel bounds the
-- depth.
unfoldable pub quick_sort_part : ℕ → List ℕ → ℕ → ℕ → List ℕ
quick_sort_part zero arr left past = arr
quick_sort_part (suc fuel) arr left past =
    let adjusted : List ℕ × ℕ = adjust_array arr left (past - 1) in
    let lower : List ℕ = quick_sort_part fuel (adjusted.0) left (adjusted.1) in
    let upper : List ℕ = quick_sort_part fuel lower (adjusted.1 + 1) past in
    if ltb (left + 1) past then upper else arr

-- `quick_sort`.
unfoldable pub quick_sort : List ℕ → ℕ → List ℕ
quick_sort a n = quick_sort_part n a 0 n
