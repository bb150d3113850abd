-- ===== src/Download/Ranges.antt =====
-- The ranges of the chunks: they follow each other without a gap or an overlap, from the start of the file to its end.
use native.Mathlib.Omega.{div_any}
use native.Mathlib.Nat.{mod-lt, mul_comm, mul-zero, mul-suc, mul-le-mul_left}
use jfrog_client_go.Base.{
  ℕ, zero, suc, ◌+◌, ◌-◌, ◌*◌, ◌/◌, ◌%◌, ◌≤◌, ◌<◌, ◌≡◌, refl, sym, ap, ◌∙◌, true, false, List, [],
  ◌∷◌, ◌++◌, ◌==◌, ==_iff, append-nil, length, take, drop, arith, Bool-cases, inl, inr,
}
use jfrog_client_go.Base.Text.{Bytes}
use jfrog_client_go.Download.{ConcurrentDownloadFlags, chunk_size, chunk_start, chunk_end, concat}

take-drop : (n : ℕ) (xs : Bytes) → take n xs ++ drop n xs ≡ xs
take-drop zero xs = refl
take-drop (suc n) [] = refl
take-drop (suc n) (x ∷ xs) = ap (λ ys. x ∷ ys) (take-drop n xs)

drop-nil : (n : ℕ) → ◌≡◌ {A = Bytes} (drop n []) []
drop-nil zero = refl
drop-nil (suc n) = refl

drop-drop : (m n : ℕ) (xs : Bytes) → drop m (drop n xs) ≡ drop (n + m) xs
drop-drop m zero xs = ap (λ n. drop n xs) (omega arith)
drop-drop m (suc n) [] = drop-nil m ∙ sym (drop-nil (suc n + m))
drop-drop m (suc n) (x ∷ xs) =
    let one_more : suc (n + m) ≡ suc n + m = omega arith in
    drop-drop m n xs ∙ ap (λ k. drop k (x ∷ xs)) one_more

length-drop : (n : ℕ) (xs : Bytes) → length (drop n xs) ≡ length xs - n
length-drop zero xs = omega arith
length-drop (suc n) [] = omega arith
length-drop (suc n) (x ∷ xs) = length-drop n xs ∙ omega arith

take-all : (n : ℕ) (xs : Bytes) → length xs ≤ n → take n xs ≡ xs
take-all zero [] h = refl
take-all zero (x ∷ xs) h = absurd (omega arith)
take-all (suc n) [] h = refl
take-all (suc n) (x ∷ xs) h = ap (λ ys. x ∷ ys) (take-all n xs (omega arith))

-- The bytes from `a` to before `b`.
abbrev pub slice : ℕ → ℕ → Bytes → Bytes
slice a b xs = take (b - a) (drop a xs)

slice-drop : (a b : ℕ) (xs : Bytes) → a ≤ b → slice a b xs ++ drop b xs ≡ drop a xs
slice-drop a b xs h =
    let sum : a + (b - a) ≡ b = omega arith in
    ap (λ ys. slice a b xs ++ ys) (sym (ap (λ n. drop n xs) sum) ∙ sym (drop-drop (b - a) a xs))
    ∙ take-drop (b - a) (drop a xs)

slice-end : (a b : ℕ) (xs : Bytes) → length xs ≡ b → slice a b xs ≡ drop a xs
slice-end a b xs h = let size = length-drop a xs in take-all (b - a) (drop a xs) (omega arith)

module _ (flags : ConcurrentDownloadFlags) where
  abbrev size : ℕ
  size = flags.file_size

  abbrev count : ℕ
  count = flags.split_count

  chunk_end-inner : (i : ℕ) → suc i < count → chunk_end flags i ≡ chunk_start flags (suc i)
  unfolding chunk_end chunk_start
  chunk_end-inner i h =
      let other : (suc i == count) ≡ false = ground arith in
      rw other (ap (λ n. chunk_size flags * n) (omega arith))

  chunk_end-last : (i : ℕ) → suc i ≡ count → chunk_end flags i ≡ size
  unfolding chunk_end chunk_size
  chunk_end-last i h =
      let here : (suc i == count) ≡ true = ground arith in
      let one : i + 1 ≡ count = omega arith in
      rw (here, one)
        (ap (λ n. n + size % count) (mul_comm (chunk_size flags) count) ∙ div_any size count)

  start_mono : (i : ℕ) → chunk_start flags i ≤ chunk_start flags (suc i)
  unfolding chunk_start
  start_mono i =
      let step : chunk_size flags * suc i ≡ chunk_size flags * i + chunk_size flags =
        mul-suc (chunk_size flags) i in
      omega arith

  start-size : (i : ℕ) → i ≤ count → chunk_start flags i ≤ size
  unfolding chunk_start chunk_size
  start-size i h =
      let all = div_any size count in
      let less : chunk_size flags * i ≤ chunk_size flags * count =
        mul-le-mul_left (chunk_size flags) h in
      let turn = mul_comm (chunk_size flags) count in omega arith

  -- The range of each chunk lies in the file and does not end before it starts. The first starts the
  -- file, each starts where the one before it ends, and the last ends the file.
  pub chunk_ranges_lem :
      (i : ℕ)
      → i < count
      → (chunk_start flags i ≤ chunk_end flags i)
        × (chunk_end flags i ≤ size)
        × (i ≡ 0 → chunk_start flags i ≡ 0)
        × (suc i < count → chunk_end flags i ≡ chunk_start flags (suc i))
        × (suc i ≡ count → chunk_end flags i ≡ size)
  unfolding chunk_start
  chunk_ranges_lem i h =
      let zero_start = ap (λ n. chunk_size flags * n) in
      elim (Bool-cases (suc i == count)) [
        | inl e ↦
            let last = (==_iff (suc i) count).0 e in
            let at_end = chunk_end-last i last in
            (
              rw at_end (start-size i (omega arith)),
              omega arith,
              (λ z. zero_start z ∙ mul-zero (chunk_size flags)),
              (λ k. absurd (omega arith)),
              λ k. at_end,
            )
        | inr e ↦
            let inner : suc i < count = ground arith in
            let next = chunk_end-inner i inner in
            (
              rw next (start_mono i),
              rw next (start-size (suc i) (omega arith)),
              (λ z. zero_start z ∙ mul-zero (chunk_size flags)),
              (λ k. next),
              λ k. absurd (omega arith),
            )
      ]

  -- With at least a byte for each chunk, no range is empty.
  pub chunk_start-lt : (i : ℕ) → i < count → count ≤ size → chunk_start flags i < chunk_end flags i
  unfolding chunk_start chunk_end chunk_size
  chunk_start-lt i h k =
      let all = div_any size count in
      let small : size % count < count = mod-lt size (omega arith) in
      let many : 0 < size / count = elim (Bool-cases (size / count == 0)) [
        | inl z ↦
            let none_each : size / count ≡ 0 = (==_iff (size / count) 0).0 z in
            let nothing : count * (size / count) ≡ 0 =
              ap (λ n. count * n) none_each ∙ mul-zero count in
            absurd (omega arith)
        | inr z ↦ ground arith
      ] in
      let next : chunk_size flags * suc i ≡ chunk_size flags * i + chunk_size flags =
        mul-suc (chunk_size flags) i in
      let one_more : i + 1 ≡ suc i = omega arith in
      elim (Bool-cases (suc i == count)) [
        | inl e ↦ rw (e, one_more) (omega arith)
        | inr e ↦ rw (e, one_more) (omega arith)
      ]

  -- The parts of a file, from part `i` on.
  abbrev pub slices : Bytes → ℕ → ℕ → List Bytes
  slices file i zero = []
  slices file i (suc n) =
      slice (chunk_start flags i) (chunk_end flags i) file ∷ slices file (suc i) n

  slices-drop :
      (file : Bytes) (i n : ℕ)
      → length file ≡ size
      → i + suc n ≡ count
      → concat (slices file i (suc n)) ≡ drop (chunk_start flags i) file
  unfolding concat
  slices-drop file i zero h k =
      let last = chunk_end-last i (omega arith) in
      append-nil (slice (chunk_start flags i) (chunk_end flags i) file)
      ∙ slice-end (chunk_start flags i) (chunk_end flags i) file (h ∙ sym last)
  slices-drop file i (suc n) h k =
      let next = chunk_end-inner i (omega arith) in
      ap (λ ys. slice (chunk_start flags i) (chunk_end flags i) file ++ ys)
        (slices-drop file (suc i) n h (omega arith) ∙ ap (λ a. drop a file) (sym next))
      ∙ slice-drop (chunk_start flags i) (chunk_end flags i) file (rw next (start_mono i))

  pub slices-file :
      (file : Bytes) → length file ≡ size → 0 < count → concat (slices file 0 count) ≡ file
  slices-file file h k =
      let one_more : count ≡ suc (count - 1) = omega arith in
      let from_zero : chunk_start flags 0 ≡ 0 = unfold chunk_start in mul-zero (chunk_size flags) in
      ap (λ n. concat (slices file 0 n)) one_more
      ∙ slices-drop file 0 (count - 1) h (omega arith)
      ∙ ap (λ a. drop a file) from_zero
