-- ===== src/Sort/Samples.antt =====
-- Records that are sorted through buffers of two, and the theorem at them.
use jfrog_client_go.Base.{◌≡◌, refl, true, false, some, List, [], ◌∷◌}
use jfrog_client_go.Base.Text.{Bytes, codes}
use jfrog_client_go.Sort.{sort_content_reader_by_calculated_key}
use jfrog_client_go.Sort.Keyed.{find_key, IsStrict}
use jfrog_client_go.Sort.Sorted.{sort_content_reader_by_calculated_key_lem}

abbrev first_of : Bytes → Bytes
first_of [] = []
first_of (c ∷ s) = c ∷ []

abbrev names : List Bytes
names = codes "d1" ∷ codes "a1" ∷ codes "d2" ∷ codes "c1" ∷ codes "a2" ∷ codes "b1" ∷ []

ascending :
    sort_content_reader_by_calculated_key true first_of 2 names
    ≡ some (codes "a1" ∷ codes "b1" ∷ codes "c1" ∷ codes "d1" ∷ [])
unfolding sort_content_reader_by_calculated_key
ascending = refl

descending :
    sort_content_reader_by_calculated_key false first_of 2 names
    ≡ some (codes "d1" ∷ codes "c1" ∷ codes "b1" ∷ codes "a1" ∷ [])
unfolding sort_content_reader_by_calculated_key
descending = refl

sort_content_reader_by_calculated_key_example :
    (written : List Bytes) × (sort_content_reader_by_calculated_key true first_of 2 names
      ≡ some written)
    × IsStrict first_of true written
    × ((k : Bytes) → find_key first_of k written ≡ find_key first_of k names)
sort_content_reader_by_calculated_key_example =
    sort_content_reader_by_calculated_key_lem true first_of 2 names
