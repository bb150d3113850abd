-- ===== src/Aql/Builds.antt =====
-- artifactory/services/utils/aqlquerybuilder.go: the queries for builds, for packages of Yarn and
-- PyPI, for the latest item of a path, and for items with a property.
use jfrog_client_go.Base.{Bool, List, [], ◌∷◌, ◌++◌, map, if◌then◌else◌}
use jfrog_client_go.Base.Text.{Bytes, codes, join}
use jfrog_client_go.Aql.Query.{build_include_query_part, build_sort_query_part, quoted}
use jfrog_client_go.Aql.Body.{Build, build_key_val_query_part}

abbrev artifacts_item : Build → Bytes
artifacts_item build =
    codes "{\"$and\":[{\"artifact.module.build.name\":"
    ++ (quoted build.build_name
        ++ (codes ",\"artifact.module.build.number\":"
            ++ (quoted build.build_number ++ codes "}]}")))

unfoldable pub create_aql_body_for_build_artifacts : List Build → Bytes
unfolding join
create_aql_body_for_build_artifacts builds =
    codes "{\"$or\":[" ++ (join (codes ",") (map artifacts_item builds) ++ codes "]}")

abbrev dependencies_item : Build → Bytes
dependencies_item build =
    codes "{\"$and\":[{\"dependency.module.build.name\":"
    ++ (quoted build.build_name
        ++ (codes ",\"dependency.module.build.number\":"
            ++ (quoted build.build_number ++ codes "}]}")))

unfoldable pub create_aql_body_for_build_dependencies : List Build → Bytes
unfolding join
create_aql_body_for_build_dependencies builds =
    codes "{\"$or\":[" ++ (join (codes ",") (map dependencies_item builds) ++ codes "]}")

unfoldable pub create_aql_query_for_build : Bytes → Bool → List Build → Bytes
unfolding create_aql_body_for_build_artifacts create_aql_body_for_build_dependencies
create_aql_query_for_build include_query_part artifacts_query builds =
    let query_body =
      if artifacts_query
      then create_aql_body_for_build_artifacts builds
      else create_aql_body_for_build_dependencies builds in
    codes "items.find(" ++ (query_body ++ (codes ")" ++ include_query_part))

unfoldable pub create_aql_query_for_yarn : Bytes → Bytes → Bytes
unfolding build_include_query_part
create_aql_query_for_yarn npm_name npm_version =
    codes "items.find({\"@npm.name\":"
    ++ (quoted npm_name
        ++ (codes ",\"$or\": [{\"@npm.version\":"
            ++ (quoted npm_version
                ++ (codes "},{\"@npm.version\":"
                    ++ (quoted (codes "v" ++ npm_version)
                        ++ (codes "}]})"
                            ++ build_include_query_part (
                                codes "name"
                                ∷ codes "repo"
                                ∷ codes "path"
                                ∷ codes "actual_sha1"
                                ∷ codes "actual_md5"
                                ∷ codes "sha256"
                                ∷ [])))))))

unfoldable pub create_aql_query_for_pypi : Bytes → Bytes → Bytes
unfolding build_include_query_part
create_aql_query_for_pypi repo file =
    codes "items.find({\"repo\": "
    ++ (quoted repo
        ++ (codes ",\"$or\": [{\"$and\":[{\"path\": {\"$match\": \"*\"},\"name\": {\"$match\": "
            ++ (quoted file
                ++ (codes "}}]}]})"
                    ++ build_include_query_part (
                        codes "name"
                        ∷ codes "repo"
                        ∷ codes "path"
                        ∷ codes "actual_md5"
                        ∷ codes "actual_sha1"
                        ∷ codes "sha256"
                        ∷ [])))))

unfoldable pub create_aql_query_for_latest_created : Bytes → Bytes → Bytes
unfolding build_sort_query_part
create_aql_query_for_latest_created repo path =
    codes "items.find({\"repo\": "
    ++ (quoted repo
        ++ (codes ",\"path\": {\"$match\": "
            ++ (quoted path
                ++ (codes "}}).sort({"
                    ++ (build_sort_query_part (codes "created" ∷ []) (codes "desc")
                        ++ codes "}).limit(1)")))))

unfoldable pub create_props_query : Bytes → Bytes → List Bytes → Bytes
unfolding build_key_val_query_part build_include_query_part
create_props_query aql_body prop_key prop_values =
    codes "items.find({\"$and\":["
    ++ (aql_body
        ++ (codes ",{"
            ++ (build_key_val_query_part prop_key prop_values
                ++ (codes "}]})"
                    ++ build_include_query_part (
                        codes "name"
                        ∷ codes "repo"
                        ∷ codes "path"
                        ∷ codes "actual_sha1"
                        ∷ codes "property"
                        ∷ [])))))
