-- ===== src/Http/Samples.antt =====
-- A request whose first attempt fails and whose second has a 503, and authentications.
use jfrog_client_go.Base.{ℕ, zero, suc, ◌≡◌, refl, false, none, some, []}
use jfrog_client_go.Base.Int.{ℤ, pos}
use jfrog_client_go.Base.Text.{Bytes, codes}
use jfrog_client_go.Http.{
  HttpClient, HttpClientDetails, Attempt, Sending, bearer, set_authentication, send, upload_file,
  download_file, download_file_range, no_context,
}
use jfrog_client_go.Retry.{rested}
use jfrog_client_go.Http.Requests.{IsGood, IsGoodSending, IsFirstGood, requests_lem}

abbrev client : HttpClient
client = record { ctx = no_context; retries = pos 2; retry_wait_milli_secs = pos 0 }

abbrev show : ℤ → Bytes
show i = codes "n"

abbrev attempts : ℕ → Attempt
attempts zero = record { response = none; redirect_url = []; error = some (codes "reset") }
attempts (suc zero) = record { response = some 503; redirect_url = []; error = none }
attempts (suc (suc n)) = record { response = some 404; redirect_url = []; error = none }

abbrev sendings : ℕ → Sending
sendings n = record { create_error = none; attempt = attempts n }

third_time : send show client [] (codes "GET") (codes "u") sendings ≡ (some 404, none)
unfolding send rested
third_time = refl

-- A blocked redirect is an error at once.
abbrev redirected : ℕ → Attempt
redirected n = record { response = none; redirect_url = codes "v"; error = some (codes "redirect") }

blocked :
    download_file show client [] (codes "u") false redirected ≡ (none, some (codes "redirect"))
unfolding download_file
blocked = refl

details : HttpClientDetails
details = record { user = codes "u"; password = codes "p"; api_key = []; access_token = codes "t" }

token : set_authentication details ≡ bearer (codes "t")
unfolding set_authentication details
token = refl

requests_example :
    IsFirstGood
      (λ k. IsGoodSending (sendings k))
      (send show client [] (codes "GET") (codes "u") sendings)
    × IsFirstGood (λ k. IsGood (attempts k)) (upload_file show client [] (codes "u") attempts)
    × IsFirstGood
        (λ k. IsGood (attempts k))
        (download_file show client [] (codes "u") false attempts)
    × IsFirstGood
        (λ k. IsGood (attempts k))
        (download_file_range show client [] (codes "u") (codes "0") attempts)
requests_example =
    requests_lem show client [] (codes "GET") (codes "u") (codes "0") false sendings attempts
