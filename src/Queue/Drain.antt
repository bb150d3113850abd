-- ===== src/Queue/Drain.antt =====
-- utils/errorsqueue.go: the errors that come out of a queue after some have been added.
use jfrog_client_go.Base.{
  ℕ, zero, suc, ◌≤◌, ◌<◌, ◌⊎◌, Option, none, some, List, [], ◌∷◌, ◌++◌, length, take, ◌≡◌, refl, ap,
  ◌∙◌, arith, inl, inr, append-nil, append_assoc, length-append,
}
use jfrog_client_go.Base.Text.{Bytes}
use jfrog_client_go.Base.Int.{ℤ, pos, negsuc}
use jfrog_client_go.Queue.{ErrorsQueue, queue_size, new_errors_queue, add_error, get_error}

le-cases : (m n : ℕ) → m ≤ n → (m < n) ⊎ (m ≡ n)
le-cases m n h = ground arith

-- AddError on each of the errors in turn.
unfoldable pub add_all : ErrorsQueue → List Bytes → ErrorsQueue
add_all queue [] = queue
add_all queue (e ∷ es) = add_all (add_error queue e) es

-- What `n` calls of GetError give.
unfoldable pub get_all : ℕ → ErrorsQueue → List (Option Bytes)
get_all zero queue = []
get_all (suc n) queue = (get_error queue).0 ∷ get_all n (get_error queue).1

-- The first `n` of the errors, with nil after the last.
unfoldable pub padded : ℕ → List Bytes → List (Option Bytes)
padded zero es = []
padded (suc n) [] = none ∷ padded n []
padded (suc n) (e ∷ es) = some e ∷ padded n es

take-all : (c : ℕ) (xs : List Bytes) → length xs ≤ c → take c xs ≡ xs
take-all zero [] h = refl
take-all zero (x ∷ xs) h = absurd (omega arith)
take-all (suc c) [] h = refl
take-all (suc c) (x ∷ xs) h = ap (λ r. x ∷ r) (take-all c xs (omega arith))

-- A list that fills the bound leaves no room for more.
take-append : (c : ℕ) (xs ys : List Bytes) → length xs ≡ c → take c (xs ++ ys) ≡ xs
take-append zero [] ys h = refl
take-append zero (x ∷ xs) ys h = absurd (omega arith)
take-append (suc c) [] ys h = absurd (omega arith)
take-append (suc c) (x ∷ xs) ys h = ap (λ r. x ∷ r) (take-append c xs ys (omega arith))

add_error-room :
    (capacity : ℕ) (errors : List Bytes) (e : Bytes)
    → length errors < capacity
    → add_error (record { capacity = capacity; errors = errors }) e
      ≡ record { capacity = capacity; errors = errors ++ e ∷ [] }
unfolding add_error
add_error-room capacity errors e h = ground arith

add_error-full :
    (capacity : ℕ) (errors : List Bytes) (e : Bytes)
    → length errors ≡ capacity
    → add_error (record { capacity = capacity; errors = errors }) e
      ≡ record { capacity = capacity; errors = errors }
unfolding add_error
add_error-full capacity errors e h = ground arith

add_all-errors :
    (capacity : ℕ) (errors es : List Bytes)
    → length errors ≤ capacity
    → add_all (record { capacity = capacity; errors = errors }) es
      ≡ record { capacity = capacity; errors = take capacity (errors ++ es) }
unfolding add_all
add_all-errors capacity errors [] h =
    let same : take capacity (errors ++ []) ≡ errors =
      ap (take capacity) (append-nil errors) ∙ take-all capacity errors h in
    rw same refl
add_all-errors capacity errors (e ∷ es) h = elim (le-cases (length errors) capacity h) [
  | inl room ↦
      let more : length (errors ++ e ∷ []) ≤ capacity =
        omega (arith, length-append errors (e ∷ [])) in
      rw (add_error-room capacity errors e room) (
        add_all-errors capacity (errors ++ e ∷ []) es more
        ∙ ap (λ xs. record { capacity = capacity; errors = take capacity xs })
            (append_assoc errors (e ∷ []) es))
  | inr full ↦
      let here = take-append capacity errors (e ∷ es) full in
      let rest = take-append capacity errors es full in
      rw (add_error-full capacity errors e full, here)
        (add_all-errors capacity errors es h
          ∙ ap (λ xs. record { capacity = capacity; errors = xs }) rest)
]

get_all-padded :
    (n capacity : ℕ) (errors : List Bytes)
    → get_all n (record { capacity = capacity; errors = errors }) ≡ padded n errors
unfolding get_all padded get_error
get_all-padded zero capacity errors = refl
get_all-padded (suc n) capacity [] = ap (λ r. none ∷ r) (get_all-padded n capacity [])
get_all-padded (suc n) capacity (e ∷ es) = ap (λ r. some e ∷ r) (get_all-padded n capacity es)

-- How many errors a queue of the size keeps: as many as its size says, but 1 for a size of zero or less.
abbrev pub kept : ℤ → ℕ
kept (pos zero) = 1
kept (pos (suc n)) = suc n
kept (negsuc n) = 1

queue_size-kept : (size : ℤ) → queue_size size ≡ kept size
unfolding queue_size
queue_size-kept (pos zero) = refl
queue_size-kept (pos (suc n)) = ground arith
queue_size-kept (negsuc n) = refl

-- After some errors have been added to a new queue, GetError gives them in the order they were added,
-- as many as the size says, or one for a size of zero or less, and nil from then on.
pub get_all-add_all :
    (size : ℤ) (es : List Bytes) (n : ℕ)
    → get_all n (add_all (new_errors_queue size) es) ≡ padded n (take (kept size) es)
unfolding new_errors_queue
get_all-add_all size es n =
    let added = add_all-errors (queue_size size) [] es (omega arith) in
    rw added (
      get_all-padded n (queue_size size) (take (queue_size size) es)
      ∙ ap (λ c. padded n (take c es)) (queue_size-kept size))
