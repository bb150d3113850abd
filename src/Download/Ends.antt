-- ===== src/Download/Ends.antt =====
-- The download in chunks ends: every step lowers a measure, and until all is done there is a step.
use jfrog_client_go.Base.{
  ℕ, zero, suc, ◌+◌, ◌-◌, ◌*◌, ◌<◌, ◌≤◌, ◌≡◌, refl, ap, some, List, [], ◌∷◌, ◌++◌, ◌⊎◌, inl, inr,
  ◌==◌, ==_iff, All, length, length-append, get_elem?, set, arith, Bool-cases, if◌then◌else◌,
}
use jfrog_client_go.Base.Int.{ℤ}
use jfrog_client_go.Base.Text.{Bytes}
use jfrog_client_go.Download.{
  ConcurrentDownloadFlags, Chunk, Cell, pending, stored, reported, State, breaks,
}
use jfrog_client_go.Download.Steps.{
  header, Step, launch, leave, finish, store, report, Reaches, IsReported, IsFinished,
}
use jfrog_client_go.Download.Invariant.{Reaches-Invariant, length-set}

-- The steps that a goroutine still has.
abbrev weight : Cell → ℕ
weight pending = 2
weight (stored c) = 1
weight (reported c) = 0

abbrev weights : List Cell → ℕ
weights [] = 0
weights (x ∷ xs) = weight x + weights xs

-- The steps that are left at most: three for each goroutine and one for the loop.
abbrev pub steps_left : ConcurrentDownloadFlags → State → ℕ
steps_left flags s =
    3 * (flags.split_count - length s.cells) + weights s.cells + (if s.looping then 1 else 0)

weights-snoc : (cells : List Cell) → weights (cells ++ pending ∷ []) ≡ weights cells + 2
weights-snoc [] = refl
weights-snoc (x ∷ xs) = omega (arith, weights-snoc xs)

weights-set :
    (cells : List Cell) (i : ℕ) (old new : Cell)
    → get_elem? cells i ≡ some old
    → weights (set cells i new) + weight old ≡ weights cells + weight new
weights-set [] i old new h = cc
weights-set (x ∷ xs) zero old new h =
    let same : x ≡ old = ground arith in let level = ap weight same in omega arith
weights-set (x ∷ xs) (suc i) old new h = omega (arith, weights-set xs i old new h)

module _ (flags : ConcurrentDownloadFlags) (format_int : ℤ → Bytes)
    (Answers : Bytes → Chunk → Type 0) where
  Step-lowers :
      (s t : State)
      → length s.cells ≤ flags.split_count
      → Step flags format_int Answers s t
      → steps_left flags t < steps_left flags s
  Step-lowers s t b (launch l k h) =
      let grown = length-append s.cells (pending ∷ []) in
      let more = weights-snoc s.cells in omega arith
  Step-lowers s t b (leave l k h) = rw l (omega arith)
  Step-lowers s t b (finish l k) = rw l (omega arith)
  Step-lowers s t b (store i c k a) =
      let size = length-set s.cells i (stored c) in
      let less = weights-set s.cells i pending (stored c) k in rw size (omega arith)
  Step-lowers s t b (report i c k) =
      let size = length-set s.cells i (reported c) in
      let less = weights-set s.cells i (stored c) (reported c) k in rw size (omega arith)

  -- A goroutine that has a step, or none.
  abbrev Unfinished : List Cell → Type 0
  Unfinished cells =
      (i : ℕ) × ((get_elem? cells i ≡ some pending)
        ⊎ ((c : Chunk) × (get_elem? cells i ≡ some (stored c))))

  find-Unfinished :
      (cells : List Cell) → All (IsReported flags format_int Answers) cells ⊎ Unfinished cells
  find-Unfinished [] = inl tt
  find-Unfinished (pending ∷ xs) = inr (0, inl refl)
  find-Unfinished (stored c ∷ xs) = inr (0, inr (c, refl))
  find-Unfinished (reported c ∷ xs) = elim (find-Unfinished xs) [
    | inl a ↦ inl (tt, a)
    | inr (i, h) ↦ inr (suc i, h)
  ]

  abbrev Next : State → Type 0
  Next s = (t : State) × Step flags format_int Answers s t

  progress :
      ((h : Bytes) → (c : Chunk) × Answers h c)
      → (s : State) → length s.cells ≤ flags.split_count
      → IsFinished flags format_int Answers s ⊎ Next s
  progress answer s b = elim (Bool-cases s.looping) [
    | inl l ↦ elim (Bool-cases (length s.cells == flags.split_count)) [
      | inl e ↦ inr (_, finish l ((==_iff (length s.cells) flags.split_count).0 e))
      | inr e ↦
          let more : length s.cells < flags.split_count = ground arith in
          elim (Bool-cases (breaks s)) [
            | inl k ↦ inr (_, leave l more k)
            | inr k ↦ inr (_, launch l more k)
          ]
    ]
    | inr l ↦ elim (find-Unfinished s.cells) [
      | inl a ↦ inl (l, a)
      | inr (i, inl h) ↦
          let (c, a) = answer (header flags format_int Answers i) in inr (_, store i c h a)
      | inr (i, inr (c, h)) ↦ inr (_, report i c h)
    ]
  ]

  -- Where every request is answered in the end, with whatever result, the download does not hang: in
  -- each state that the loop and the goroutines can reach, either the loop has ended and all goroutines are
  -- done, or there is a next step; and each step lowers the number of steps that are left.
  pub download_chunks-ends :
      ((h : Bytes) → (c : Chunk) × Answers h c)
      → (s : State) → Reaches flags format_int Answers s
      → (IsFinished flags format_int Answers s ⊎ ((t : State) × Step flags format_int Answers s t))
        × ((t : State)
            → Step flags format_int Answers s t
            → steps_left flags t < steps_left flags s)
  download_chunks-ends answer s r =
      let v = Reaches-Invariant flags format_int Answers s r in
      (progress answer s v.bounded, λ t step. Step-lowers s t v.bounded step)
