-- ===== src/Builds/Filtered.antt =====
-- filterBuildAqlSearchResults writes the items of the best priority of each SHA1 value.
use jfrog_client_go.Base.{
  ℕ, ◌≡◌, refl, ap, ◌∙◌, Bool, ◌&&◌, none, some, List, [], ◌∷◌, ◌++◌, ◌==◌, any, keep, arith,
  if◌then◌else◌, inl, inr, Bool-cases,
}
use jfrog_client_go.Base.Text.{Bytes, str_eq}
use jfrog_client_go.Search.{ResultItem}
use jfrog_client_go.Aql.Body.{Build}
use jfrog_client_go.Builds.{
  ShaMap, put, make, append_priority, append_priorities, fill_priorities, extract_from,
  extract_sha1_from_aql_response, filter_build_aql_search_results,
}
use jfrog_client_go.Builds.Values.{level, best, value-best}
use jfrog_client_go.Builds.Fill.{is_due, due_at, after, fill-shas, file-due}
use jfrog_client_go.Builds.Append.{
  firsts, keep-cong, append_priority-zero, append_priority-firsts, append_priority-other,
}

-- Some artifact of the builds has the SHA1 value.
abbrev pub is_listed : List ResultItem → Bytes → Bool
is_listed artifacts sha = any artifacts (λ a. str_eq a.actual_sha1 sha)

extract_from-lem :
    (shas : ShaMap) (artifacts : List ResultItem) (s : Bytes)
    → extract_from shas artifacts s ≡ (if is_listed artifacts s then some 2 else shas s)
unfolding extract_from
extract_from-lem shas [] s = refl
extract_from-lem shas (a ∷ artifacts) s =
    extract_from-lem (put a.actual_sha1 2 shas) artifacts s
    ∙ elim (Bool-cases (str_eq a.actual_sha1 s)) [
      | inl e ↦ elim (Bool-cases (is_listed artifacts s)) [
        | inl h ↦ rw (e, h) refl
        | inr h ↦ rw (e, h) refl
      ]
      | inr e ↦ rw e refl
    ]

append_priorities-due :
    (builds : List Build) (shas : ShaMap) (items : List ResultItem)
    → let m = (fill_priorities builds shas items).shas in
      append_priorities (fill_priorities builds shas items)
      ≡ keep (is_due builds 0 m) items
        ++ (firsts [] (keep (is_due builds 1 m) items)
            ++ firsts [] (keep (is_due builds 2 m) items))
unfolding append_priorities
append_priorities-due builds shas items =
    let p = fill_priorities builds shas items in
    let (out0, same0) = append_priority-zero p.shas p.shas p.first (λ s. refl) in
    let shas1 = (append_priority 0 p.shas p.first).1 in
    let shas2 = (append_priority 1 shas1 p.second).1 in
    let out1 =
      append_priority-firsts 1 shas1 p.shas [] p.second refl
        (λ s. ap (λ v. v == 1) (same0 s) ∙ ground arith) in
    let out2 = append_priority-firsts 2 shas2 p.shas [] p.third refl (λ s.
      append_priority-other 1 2 shas1 p.second s refl refl
      ∙ ap (λ v. v == 2) (same0 s)
      ∙ ground arith) in
    let due0 = out0 ∙ file-due builds 0 p.shas shas items refl refl in
    let due1 = out1 ∙ ap (firsts []) (file-due builds 1 p.shas shas items refl refl) in
    let due2 = out2 ∙ ap (firsts []) (file-due builds 2 p.shas shas items refl refl) in
    ap (λ ws. ws ++ ((append_priority 1 shas1 p.second).0 ++ (append_priority 2 shas2 p.third).0))
      due0
    ∙ ap (λ ws. keep (is_due builds 0 p.shas) items ++ (ws ++ (append_priority 2 shas2 p.third).0))
        due1
    ∙ ap
        (λ ws.
          keep (is_due builds 0 p.shas) items
          ++ (firsts [] (keep (is_due builds 1 p.shas) items) ++ ws))
        due2

module _ (artifacts : List ResultItem) (builds : List Build) (items : List ResultItem) where
  -- The item's SHA1 value is that of an artifact of the builds, and `l` is its level, the best of the
  -- items with its SHA1 value.
  abbrev pub is_chosen : ℕ → ResultItem → Bool
  is_chosen l item =
      is_listed artifacts item.actual_sha1
      && ((level builds item == l) && (best builds item.actual_sha1 items == l))

  due-chosen :
      (l : ℕ) (item : ResultItem)
      → is_due builds l
          (fill_priorities builds (extract_sha1_from_aql_response artifacts) items).shas
          item
        ≡ is_chosen l item
  unfolding extract_sha1_from_aql_response
  due-chosen l item =
      let shas = extract_sha1_from_aql_response artifacts in
      let entry = fill-shas builds shas items item.actual_sha1 in
      let listed : shas item.actual_sha1
          ≡ (if is_listed artifacts item.actual_sha1 then some 2 else none) =
        extract_from-lem make artifacts item.actual_sha1 in
      ap (due_at builds l item) (entry ∙ ap (after builds item.actual_sha1 items) listed)
      ∙ elim (Bool-cases (is_listed artifacts item.actual_sha1)) [
        | inl h ↦ rw h (
            ap (λ v. (level builds item == l) && (v == l))
              (value-best builds item.actual_sha1 items))
        | inr h ↦ rw h refl
      ]

-- With the map that extractSha1FromAqlResponse makes of the artifacts, the result is made of the items
-- whose SHA1 value is an artifact's and whose level is the best among the items with their SHA1
-- value: first all those of one of the builds (level 0), then, of those of another number of one of
-- the builds (level 1), the first for each SHA1 value, and then the same of the rest (level 2). Each
-- part keeps the order of the items.
pub filter_build_aql_search_results_lem :
    (artifacts : List ResultItem) (builds : List Build) (items : List ResultItem)
    → filter_build_aql_search_results items (extract_sha1_from_aql_response artifacts) builds
      ≡ keep (is_chosen artifacts builds items 0) items
        ++ (firsts [] (keep (is_chosen artifacts builds items 1) items)
            ++ firsts [] (keep (is_chosen artifacts builds items 2) items))
unfolding filter_build_aql_search_results
filter_build_aql_search_results_lem artifacts builds items =
    let shas = extract_sha1_from_aql_response artifacts in
    let chosen = λ (l : ℕ). keep-cong _ _ items (due-chosen artifacts builds items l) in
    append_priorities-due builds shas items ∙ rw (chosen 0, chosen 1, chosen 2) refl
