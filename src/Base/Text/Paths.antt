-- ===== src/Base/Text/Paths.antt =====
-- Go's path.Clean and path.Join.
use mathlib.Core.Bool.{Bool}
use mathlib.Core.List.{List, [], ◌∷◌, reverse}
use jfrog_client_go.Base.Tests.{if◌then◌else◌, ◌==◌}
use jfrog_client_go.Base.Text.{Bytes, codes, str_eq, join}
use jfrog_client_go.Base.Text.Split.{split_byte}

-- The elements kept so far, the last one first, after one more element of the path.
clean_step : Bool → List Bytes → Bytes → List Bytes
unfolding str_eq
clean_step rooted kept e =
    if str_eq e []
    then kept
    else if str_eq e (codes ".")
    then kept
    else if str_eq e (codes "..")
    then elim kept [
      | [] ↦ if rooted then [] else e ∷ []
      | k ∷ ks ↦ if str_eq k (codes "..") then e ∷ k ∷ ks else ks
    ]
    else e ∷ kept

clean_all : Bool → List Bytes → List Bytes → List Bytes
unfolding clean_step
clean_all rooted kept [] = kept
clean_all rooted kept (e ∷ es) = clean_all rooted (clean_step rooted kept e) es

or_dot : Bytes → Bytes
or_dot [] = codes "."
or_dot (c ∷ s) = c ∷ s

-- path.Clean
unfoldable pub clean : Bytes → Bytes
unfolding clean_all or_dot join split_byte
clean [] = codes "."
clean (c ∷ s) =
    let body = join (b'/' ∷ []) (reverse (clean_all (c == b'/') [] (split_byte b'/' (c ∷ s)))) in
    if c == b'/' then b'/' ∷ body else or_dot body

non_empty : List Bytes → List Bytes
non_empty [] = []
non_empty ([] ∷ es) = non_empty es
non_empty ((c ∷ e) ∷ es) = (c ∷ e) ∷ non_empty es

clean_joined : List Bytes → Bytes
unfolding clean
clean_joined [] = []
clean_joined (e ∷ es) = clean (join (b'/' ∷ []) (e ∷ es))

-- path.Join: empty elements are ignored, and no element gives the empty text.
unfoldable pub path_join : List Bytes → Bytes
unfolding clean_joined non_empty
path_join es = clean_joined (non_empty es)
