-- ===== src/Util/Samples.antt =====
-- Texts, and the theorem at one.
use jfrog_client_go.Base.{◌≡◌, refl, [], ◌∷◌, map, arith}
use jfrog_client_go.Base.Text.{codes, join}
use jfrog_client_go.Util.{
  split_with_escape, get_root_path, wild_card_pattern, ant_pattern, trim_path, add_props,
  remove_repo_from_path,
}
use jfrog_client_go.Util.Escape.{escape, split_with_escape-join}

escaped : split_with_escape (codes "a\\;b;c") b';' ≡ codes "a;b" ∷ codes "c" ∷ []
unfolding split_with_escape
escaped = refl

-- After an escaped backslash the separator is still taken as escaped.
after_backslash : split_with_escape (codes "a\\\\;b") b';' ≡ codes "a\\;b" ∷ []
unfolding split_with_escape
after_backslash = refl

root : get_root_path (codes "/home") (codes "~/a/b*/c") wild_card_pattern [] ≡ codes "/home/a"
unfolding get_root_path
root = refl

no_root : get_root_path (codes "/home") (codes "a?/b") ant_pattern [] ≡ codes "."
unfolding get_root_path
no_root = refl

trimmed : trim_path (codes "../a//b/./c") ≡ codes "a/b/c"
unfolding trim_path
trimmed = refl

local_part : remove_repo_from_path (codes "repo/a") ≡ codes "/a"
unfolding remove_repo_from_path
local_part = refl

appended : add_props (codes "a=1") (codes "b=2") ≡ codes "a=1;b=2"
unfolding add_props
appended = refl

split_with_escape-join_example :
    split_with_escape (join (b';' ∷ []) (map (escape b';') (codes "a;b" ∷ codes "c" ∷ []))) b';'
    ≡ codes "a;b" ∷ codes "c" ∷ []
split_with_escape-join_example =
    split_with_escape-join b';' (codes "a;b" ∷ codes "c" ∷ []) (ground arith) (ground arith)
      (ground arith)
