-- ===== src/Queue.antt =====
-- utils/errorsqueue.go: a bounded queue of errors on a channel, whose first errors are kept.
-- The channel is the list of what it holds; the log line of AddError is left out.
pub mod Drain
mod Samples
use jfrog_client_go.Base.{
  ℕ, zero, suc, Bool, Option, none, some, List, [], ◌∷◌, ◌++◌, ltb, length, if◌then◌else◌,
}
use jfrog_client_go.Base.Text.{Bytes}
use jfrog_client_go.Base.Int.{ℤ, pos, negsuc}

pub record ErrorsQueue : Type 0 where
  pub capacity : ℕ
  pub errors : List Bytes

-- queueSize: at least 1
unfoldable pub queue_size : ℤ → ℕ
queue_size (pos n) = if ltb 1 n then n else 1
queue_size (negsuc n) = 1

unfoldable pub new_errors_queue : ℤ → ErrorsQueue
unfolding queue_size
new_errors_queue size = record { capacity = queue_size size; errors = [] }

-- The channel's buffer takes the error, or the error is dropped.
unfoldable pub add_error : ErrorsQueue → Bytes → ErrorsQueue
add_error queue e =
    if ltb (length queue.errors) queue.capacity
    then record queue { errors = queue.errors ++ e ∷ [] }
    else queue

-- `none` is nil.
unfoldable pub get_error : ErrorsQueue → Option Bytes × ErrorsQueue
get_error queue = elim queue.errors [
  | [] ↦ (none, queue)
  | e ∷ es ↦ (some e, record queue { errors = es })
]
