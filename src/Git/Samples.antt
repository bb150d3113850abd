-- ===== src/Git/Samples.antt =====
-- A repository with a remote and packed references.
use jfrog_client_go.Base.{◌≡◌, refl, false, Option, none, some, List, [], ◌∷◌, ◌++◌, if◌then◌else◌}
use jfrog_client_go.Base.Outcome.{ok, panic}
use jfrog_client_go.Base.Text.{Bytes, codes, str_eq}
use jfrog_client_go.Git.{
  new_git_manager, read_origin, origin_section, read_url, read_revision_and_branch,
}

abbrev config : List Bytes
config = codes "[core]" ∷ origin_section ∷ codes "\turl = https://h/r" ∷ codes "[branch]" ∷ []

abbrev files : Bytes → Option (List Bytes)
files path =
    if str_eq path (codes "p/.git/config")
    then some config
    else if str_eq path (codes "p/.git/HEAD")
    then some (codes "ref: refs/heads/main" ∷ [])
    else if str_eq path (codes "p/.git/packed-refs")
    then some (codes "# pack" ∷ codes "abc refs/heads/main" ∷ [])
    else none

abbrev open_error : Bytes → Bytes
open_error path = codes "open " ++ path

abbrev same : Bytes → Bytes
same s = s

url :
    read_url files open_error same same (new_git_manager (codes "p"))
    ≡ ok (record (new_git_manager (codes "p")) { url = codes "https://h/r.git" })
unfolding read_url new_git_manager
url = refl

revision :
    read_revision_and_branch files open_error same same (new_git_manager (codes "p"))
    ≡ ok (record (new_git_manager (codes "p")) {
      revision = codes "abc";
      branch = codes "refs/heads/main";
    })
unfolding read_revision_and_branch new_git_manager
revision = refl

-- A url with an "=" is cut behind it, and a line "url" without one panics.
cut : read_origin false (origin_section ∷ codes "url = h?a=b" ∷ []) ≡ ok (codes "h?a=")
unfolding read_origin
cut = refl

no_value : read_origin false (origin_section ∷ codes "url" ∷ []) ≡ panic
unfolding read_origin
no_value = refl
