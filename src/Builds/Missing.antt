-- ===== src/Builds/Missing.antt =====
-- artifactoryutils.go, loadMissingProperties and updateProps: the items of a result get the properties
-- of the records with the same path, through a buffer of bounded size. The buffer is the list of its items in the
-- order of writing; the map from a path leads to the last item with the path.
use jfrog_client_go.Base.{ℕ, ◌+◌, Bool, true, false, List, [], ◌∷◌, ◌++◌, ◌==◌, any, if◌then◌else◌}
use jfrog_client_go.Base.Text.{Bytes, str_eq}
use jfrog_client_go.Props.{Property}
use jfrog_client_go.Search.{ResultItem, get_item_relative_path}

-- The map has the path as a key.
abbrev pub has_path : List ResultItem → Bytes → Bool
has_path buffer path = any buffer (λ x. str_eq (get_item_relative_path x) path)

-- value.Properties = resultItem.Properties
unfoldable pub set_properties : Bytes → List Property → List ResultItem → List ResultItem
set_properties path properties [] = []
set_properties path properties (x ∷ buffer) =
    let rest = set_properties path properties buffer in
    if has_path buffer path
    then x ∷ rest
    else if str_eq (get_item_relative_path x) path
    then record x { properties = properties } ∷ buffer
    else x ∷ buffer

-- The loop over the records with properties.
unfoldable pub load_properties : List ResultItem → List ResultItem → List ResultItem
unfolding set_properties
load_properties [] buffer = buffer
load_properties (r ∷ records) buffer =
    load_properties records (set_properties (get_item_relative_path r) r.properties buffer)

-- What is written.
unfoldable pub update_props : List ResultItem → List ResultItem → List ResultItem
unfolding load_properties
update_props records [] = []
update_props records (x ∷ buffer) = load_properties records (x ∷ buffer)

-- len(buffer)
unfoldable pub buffer_len : List ResultItem → ℕ
buffer_len [] = 0
buffer_len (x ∷ buffer) =
    (if has_path buffer (get_item_relative_path x) then 0 else 1) + buffer_len buffer

unfoldable pub load_from : ℕ → List ResultItem → List ResultItem → List ResultItem → List ResultItem
unfolding update_props buffer_len
load_from max_buffer_size records buffer [] = update_props records buffer
load_from max_buffer_size records buffer (x ∷ items) =
    elim (buffer_len (buffer ++ x ∷ []) == max_buffer_size) [
      | true ↦ update_props records (buffer ++ x ∷ []) ++ load_from max_buffer_size records [] items
      | false ↦ load_from max_buffer_size records (buffer ++ x ∷ []) items
    ]

-- The readers give no error.
unfoldable pub load_missing_properties : ℕ → List ResultItem → List ResultItem → List ResultItem
unfolding load_from
load_missing_properties max_buffer_size items records = load_from max_buffer_size records [] items
