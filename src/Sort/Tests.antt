-- ===== src/Sort/Tests.antt =====
-- Runs of the sorts.
use utils_modules.Base.{ℕ, ◌≡◌, some, refl, List, [], ◌∷◌}
use utils_modules.Sort.{
  bubble_pass, bubble_rounds, bubble_sort, merge_parts, mergearray, merge_sort_part, store_merged,
  merge_sort, quick_sort, quick_sort_part, adjust_array, adjust_loop, scan_down, scan_up,
}
use utils_modules.Sort.Quick.{quick_sort_lem}
use utils_modules.Sort.Bubble.{IsSorted, count}

abbrev numbers : List ℕ
numbers = 5 ∷ 1 ∷ 4 ∷ 1 ∷ 3 ∷ []

numbers_test : bubble_sort numbers 5 ≡ 1 ∷ 1 ∷ 3 ∷ 4 ∷ 5 ∷ []
unfolding bubble_sort bubble_rounds bubble_pass
numbers_test = refl

-- What is in the memory that `malloc` gives.
abbrev garbage : List ℕ
garbage = 9 ∷ 9 ∷ 9 ∷ 9 ∷ 9 ∷ []

merged_test :
    merge_sort numbers (some garbage) ≡ some (1 ∷ 1 ∷ 3 ∷ 4 ∷ 5 ∷ [], some (1 ∷ 1 ∷ 3 ∷ 4 ∷ 5 ∷ []))
unfolding merge_sort merge_sort_part store_merged mergearray merge_parts
merged_test = refl

-- What `merge_sort` of one number returns is never set.
alone_test : merge_sort (7 ∷ []) (some (9 ∷ [])) ≡ some (7 ∷ [], some (9 ∷ []))
unfolding merge_sort merge_sort_part store_merged mergearray merge_parts
alone_test = refl

quick_test : quick_sort numbers 5 ≡ 1 ∷ 1 ∷ 3 ∷ 4 ∷ 5 ∷ []
unfolding quick_sort quick_sort_part adjust_array adjust_loop scan_down scan_up
quick_test = refl

quick_sort_lem_example :
    IsSorted (quick_sort numbers 5) × ((v : ℕ) → count v (quick_sort numbers 5) ≡ count v numbers)
quick_sort_lem_example = quick_sort_lem numbers 5 refl
