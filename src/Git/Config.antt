-- ===== src/Git/Config.antt =====
-- utils/git.go, readUrl: the url of the remote "origin" of a config file.
use jfrog_client_go.Base.{ℕ, ◌≡◌, refl, ap, ◌∙◌, true, false, List, [], ◌∷◌, ◌++◌, All}
use jfrog_client_go.Base.Outcome.{ok}
use jfrog_client_go.Base.Text.{Bytes, Lacks, codes, str_eq, has_prefix}
use jfrog_client_go.Base.Text.Index.{index_byte-append, index_byte-none, drop-length}
use jfrog_client_go.Git.{origin_section, read_origin, split_after_second, trim_space}

split_after_second-ok :
    (sep : ℕ) (p value : Bytes)
    → Lacks sep p
    → Lacks sep value
    → split_after_second sep (p ++ sep ∷ value) ≡ ok value
unfolding split_after_second
split_after_second-ok sep p value l k =
    let found = index_byte-append sep p value l in
    let rest = drop-length p sep value in
    let last = index_byte-none sep value k in
    rw (found, split_after_second, rest, last) (ap ok rest)

-- A line that is no url of the section.
abbrev IsOther : Bytes → Type 0
IsOther line = has_prefix (codes "url") (trim_space line) ≡ false

read_origin-skip :
    (middle lines : List Bytes)
    → All IsOther middle
    → read_origin true (middle ++ lines) ≡ read_origin true lines
unfolding read_origin
read_origin-skip [] lines h = refl
read_origin-skip (line ∷ middle) lines (h, hs) =
    rw (read_origin, h) (read_origin-skip middle lines hs)

read_origin-before :
    (before lines : List Bytes)
    → All (λ line. str_eq line origin_section ≡ false) before
    → read_origin false (before ++ lines) ≡ read_origin false lines
unfolding read_origin
read_origin-before [] lines h = refl
read_origin-before (line ∷ before) lines (h, hs) =
    rw (read_origin, h) (read_origin-before before lines hs)

-- The first line behind the section's head that starts with "url" gives the url: what stands behind
-- its "=", when neither the name nor the url has another "=".
pub read_origin-url :
    (before middle after : List Bytes) (line name value : Bytes)
    → All (λ l. str_eq l origin_section ≡ false) before
    → All IsOther middle
    → has_prefix (codes "url") (trim_space line) ≡ true
    → trim_space line ≡ name ++ b'=' ∷ value
    → Lacks b'=' name
    → Lacks b'=' value
    → read_origin false (before ++ (origin_section ∷ (middle ++ (line ∷ after))))
      ≡ ok (trim_space value)
unfolding read_origin
read_origin-url before middle after line name value b m u t l k =
    read_origin-before before (origin_section ∷ (middle ++ (line ∷ after))) b
    ∙ read_origin-skip middle (line ∷ after) m
    ∙ rw (read_origin, u, t, split_after_second-ok b'=' name value l k) refl
