-- ===== src/Git.antt =====
-- utils/git.go: reading the url, the revision and the branch from the files of a .git directory.
-- `files` has the lines of each file that is there; the text of a failed os.Open, the short name of a
-- reference (go-git) and the masking of credentials in a url (a regular expression) are parameters.
pub mod Config
mod Samples
use jfrog_client_go.Base.{
  ℕ, zero, suc, ◌+◌, Bool, true, false, ◌&&◌, ◌||◌, not, Option, none, some, List, [], ◌∷◌, ◌++◌,
  ◌==◌, ltb, length, drop, take, if◌then◌else◌,
}
use jfrog_client_go.Base.Outcome.{Outcome, panic, err, ok, ◌>>=◌}
use jfrog_client_go.Base.Text.{Bytes, codes, str_eq, has_prefix, has_suffix, index_byte}
use jfrog_client_go.Base.Text.Split.{split_byte}
use jfrog_client_go.Base.Text.Paths.{path_join}

pub record GitManager : Type 0 where
  pub path : Bytes
  pub error : Option Bytes
  pub revision : Bytes
  pub url : Bytes
  pub branch : Bytes

unfoldable pub new_git_manager : Bytes → GitManager
unfolding path_join
new_git_manager path = record {
  path = path_join (path ∷ codes ".git" ∷ []);
  error = none;
  revision = [];
  url = [];
  branch = [];
}

-- The ASCII characters that strings.TrimSpace removes.
abbrev is_space : ℕ → Bool
is_space c = (c == 32) || (ltb 8 c && ltb c 14)

unfoldable pub trim_left : Bytes → Bytes
trim_left [] = []
trim_left (c ∷ s) = let rest = trim_left s in if is_space c then rest else c ∷ s

unfoldable pub trim_right : Bytes → Bytes
unfolding str_eq
trim_right [] = []
trim_right (c ∷ s) =
    let rest = trim_right s in if str_eq rest [] && is_space c then [] else c ∷ rest

unfoldable pub trim_space : Bytes → Bytes
unfolding trim_left trim_right
trim_space s = trim_right (trim_left s)

-- strings.SplitAfter(text, sep)[1]: up to and with the second separator, if there is one.
unfoldable pub split_after_second : ℕ → Bytes → Outcome Bytes
unfolding index_byte
split_after_second sep text = elim (index_byte sep text) [
  | none ↦ panic
  | some i ↦
      let rest = drop (suc i) text in
      elim (index_byte sep rest) [ none ↦ ok rest | some j ↦ ok (take (suc j) rest) ]
]

abbrev pub origin_section : Bytes
origin_section = codes "[remote \"origin\"]"

-- The loop of readUrl over the lines of the config file.
unfoldable pub read_origin : Bool → List Bytes → Outcome Bytes
unfolding trim_space has_prefix str_eq split_after_second
read_origin is_next_line_url [] = ok []
read_origin is_next_line_url (line ∷ lines) =
    elim (is_next_line_url && has_prefix (codes "url") (trim_space line)) [
      | true ↦ split_after_second b'=' (trim_space line) >>= λ part. ok (trim_space part)
      | false ↦ read_origin (is_next_line_url || str_eq line origin_section) lines
    ]

unfoldable pub with_git_suffix : Bytes → Bytes
unfolding has_suffix
with_git_suffix origin_url =
    if not (has_suffix (codes ".git") origin_url) then origin_url ++ codes ".git" else origin_url

-- (revision, refUrl) of the lines of HEAD.
unfoldable pub head_from : Bytes → List Bytes → Outcome (Bytes × Bytes)
unfolding trim_space has_prefix split_after_second
head_from revision [] = ok (revision, [])
head_from revision (text ∷ lines) = elim (has_prefix (codes "ref") text) [
  | true ↦ split_after_second b':' text >>= λ part. ok (revision, trim_space part)
  | false ↦ head_from text lines
]

-- The revision of the first line of packed-refs that ends with the reference; empty without one.
unfoldable pub packed_from : Bytes → List Bytes → Outcome Bytes
unfolding has_suffix split_byte
packed_from ref [] = ok []
packed_from ref (line ∷ lines) = elim (has_suffix ref line) [
  | true ↦ elim (split_byte 32 line) [
    | revision ∷ name ∷ [] ↦ ok revision
    | _ ↦ err (
        codes "failed fetching revision for ref :"
        ++ (ref ++ codes " - Unexpected line structure in packed-refs file"))
  ]
  | false ↦ packed_from ref lines
]

-- The first line of a reference's file.
unfoldable pub first_line : List Bytes → Bytes
unfolding trim_space
first_line [] = []
first_line (text ∷ lines) = trim_space text

module _ (files : Bytes → Option (List Bytes)) (open_error : Bytes → Bytes) (short : Bytes → Bytes)
    (mask : Bytes → Bytes) where
  abbrev pub fail : GitManager → Bytes → GitManager
  fail m e = record m { error = some e }

  unfoldable pub read_url : GitManager → Outcome GitManager
  unfolding read_origin with_git_suffix path_join
  read_url m = elim m.error [
    | some e ↦ ok m
    | none ↦
        let dot_git_path = path_join (m.path ∷ codes "config" ∷ []) in
        elim (files dot_git_path) [
          | none ↦ ok (fail m (open_error dot_git_path))
          | some lines ↦ read_origin false lines >>= λ origin_url.
              ok (record m { url = mask (with_git_suffix origin_url) })
        ]
  ]

  unfoldable pub read_revision_from_packed_ref : GitManager → Bytes → Outcome GitManager
  unfolding packed_from path_join
  read_revision_from_packed_ref m ref =
      elim (files (path_join (m.path ∷ codes "packed-refs" ∷ []))) [
        | none ↦ ok m
        | some lines ↦ elim (packed_from ref lines) [
          | panic ↦ panic
          | err e ↦ ok (fail m e)
          | ok [] ↦ ok m
          | ok (c ∷ revision) ↦ ok (record m { revision = c ∷ revision })
        ]
      ]

  -- After HEAD was read.
  unfoldable pub read_revision : GitManager → Bytes → Bytes → Outcome GitManager
  unfolding read_revision_from_packed_ref first_line path_join str_eq
  read_revision m revision ref =
      if not (str_eq revision [])
      then ok (record m { revision = revision })
      else elim (files (path_join (m.path ∷ ref ∷ []))) [
        | some lines ↦ ok (record m { revision = first_line lines })
        | none ↦ read_revision_from_packed_ref m ref
      ]

  unfoldable pub read_revision_and_branch : GitManager → Outcome GitManager
  unfolding head_from read_revision path_join str_eq
  read_revision_and_branch m = elim m.error [
    | some e ↦ ok m
    | none ↦
        let head_path = path_join (m.path ∷ codes "HEAD" ∷ []) in
        elim (files head_path) [
          | none ↦ ok (fail m (open_error head_path))
          | some lines ↦ head_from [] lines >>= λ head.
              read_revision
                (if not (str_eq head.1 []) then record m { branch = short head.1 } else m) head.0
                head.1
        ]
  ]
