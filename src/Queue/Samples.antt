-- ===== src/Queue/Samples.antt =====
-- Runs of the queue, and its theorem at a queue that overflows.
use jfrog_client_go.Base.{◌≡◌, refl, none, some, [], ◌∷◌, take}
use jfrog_client_go.Base.Int.{pos, negsuc}
use jfrog_client_go.Base.Text.{codes}
use jfrog_client_go.Queue.{new_errors_queue, add_error, get_error}
use jfrog_client_go.Queue.Drain.{add_all, get_all, padded, kept, get_all-add_all}

two_of_three :
    get_all 3 (add_all (new_errors_queue (pos 2)) (codes "a" ∷ codes "b" ∷ codes "c" ∷ []))
    ≡ some (codes "a") ∷ some (codes "b") ∷ none ∷ []
unfolding get_all add_all new_errors_queue add_error get_error
two_of_three = refl

at_least_one :
    get_all 1 (add_all (new_errors_queue (negsuc 4)) (codes "a" ∷ codes "b" ∷ []))
    ≡ some (codes "a") ∷ []
unfolding get_all add_all new_errors_queue add_error get_error
at_least_one = refl

get_all-add_all_example :
    get_all 3 (add_all (new_errors_queue (pos 2)) (codes "a" ∷ codes "b" ∷ codes "c" ∷ []))
    ≡ padded 3 (take (kept (pos 2)) (codes "a" ∷ codes "b" ∷ codes "c" ∷ []))
get_all-add_all_example = get_all-add_all (pos 2) (codes "a" ∷ codes "b" ∷ codes "c" ∷ []) 3
