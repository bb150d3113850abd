-- ===== src/Results/Samples.antt =====
-- Paths and artifacts.
use jfrog_client_go.Base.{◌≡◌, refl, false, []}
use jfrog_client_go.Base.Outcome.{ok}
use jfrog_client_go.Base.Text.{codes}
use jfrog_client_go.Util.{Checksum}
use jfrog_client_go.Results.{
  get_file_and_dir_from_path, get_local_path_and_file, to_build_info_artifact,
}

abbrev no_checksum : Checksum
no_checksum = record { sha1 = []; md5 = []; sha256 = [] }

slashes : get_file_and_dir_from_path (codes "a/b/c.txt") ≡ (codes "c.txt", codes "a/b")
unfolding get_file_and_dir_from_path
slashes = refl

two_backslashes : get_file_and_dir_from_path (codes "a\\\\c") ≡ (codes "c", codes "a")
unfolding get_file_and_dir_from_path
two_backslashes = refl

same_name :
    get_local_path_and_file (codes "o") (codes "x/y") (codes "t/") false false
    ≡ (codes "t/x/y", codes "o")
unfolding get_local_path_and_file
same_name = refl

artifact :
    to_build_info_artifact
      (record { artifactory_path = codes "repo/d/f.jar"; checksums = no_checksum })
    ≡ ok (record {
      name = codes "f.jar";
      type = codes "jar";
      path = codes "d/f.jar";
      checksum = no_checksum;
    })
unfolding to_build_info_artifact
artifact = refl
