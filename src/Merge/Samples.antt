-- ===== src/Merge/Samples.antt =====
-- The merge at readers that are sorted.
use jfrog_client_go.Base.{◌≡◌, refl, true, some, List, [], ◌∷◌}
use jfrog_client_go.Base.Text.{Bytes, codes}
use jfrog_client_go.Merge.{compare_strings, merge_sorted_readers}
use jfrog_client_go.Merge.Order.{SortedByKey}
use jfrog_client_go.Base.Count.{SameItems}
use jfrog_client_go.Merge.Sorted.{concat, merge_sorted_readers_lem}

abbrev key : Bytes → Bytes
key s = s

abbrev readers : List (List Bytes)
readers = (codes "b" ∷ codes "d" ∷ []) ∷ (codes "a" ∷ codes "b" ∷ []) ∷ [] ∷ []

merged :
    merge_sorted_readers key true readers
    ≡ some (codes "a" ∷ codes "b" ∷ codes "b" ∷ codes "d" ∷ [])
unfolding merge_sorted_readers
merged = refl

merge_sorted_readers_lem_example :
    (written : List Bytes) × (merge_sorted_readers key true readers ≡ some written)
    × SortedByKey key true written
    × SameItems written (concat readers)
unfolding compare_strings
merge_sorted_readers_lem_example =
    merge_sorted_readers_lem key true readers
      (((refl, tt), (tt, tt)), (((refl, tt), (tt, tt)), (tt, tt)))
