-- ===== src/Download/Invariant.antt =====
-- What holds in every reachable state of the download of the chunks.
use mathlib.Core.Bool.{false≢true}
use jfrog_client_go.Base.{
  ℕ, zero, suc, ◌+◌, ◌≤◌, ◌≡◌, refl, sym, ap, ◌∙◌, Bool, true, false, ◌||◌, not, Option, none, some,
  List, [], ◌∷◌, ◌++◌, ◌⊎◌, inl, inr, ◌==◌, any, length, length-append, get_elem?, set, arith,
  Bool-cases, Option-cases,
}
use jfrog_client_go.Base.Int.{ℤ}
use jfrog_client_go.Base.Text.{Bytes}
use jfrog_client_go.Download.{
  ConcurrentDownloadFlags, Chunk, Cell, pending, stored, reported, State, breaks, report_err,
  report_resp, partial_content,
}
use jfrog_client_go.Download.Steps.{
  header, Step, launch, leave, finish, store, report, Reaches, here, next,
}

-- A chunk that ended with an error or another status than 206.
abbrev pub is_some : {A : Type 0} → Option A → Bool
is_some none = false
is_some (some a) = true

abbrev pub is_unexpected : Option ℕ → Bool
is_unexpected none = false
is_unexpected (some status) = not (status == partial_content)

abbrev pub is_bad : Cell → Bool
is_bad pending = false
is_bad (stored c) = false
is_bad (reported c) = is_some c.error || is_unexpected c.response

pub length-set : (cells : List Cell) (i : ℕ) (x : Cell) → length (set cells i x) ≡ length cells
length-set [] i x = refl
length-set (y ∷ ys) zero x = refl
length-set (y ∷ ys) (suc i) x = ap suc (length-set ys i x)

any-snoc : (cells : List Cell) → any (cells ++ pending ∷ []) is_bad ≡ any cells is_bad
any-snoc [] = refl
any-snoc (y ∷ ys) = ap (λ b. is_bad y || b) (any-snoc ys)

-- Where the cell was not bad, the bad cells stay, and the new one counts.
any-set :
    (cells : List Cell) (i : ℕ) (old new : Cell)
    → get_elem? cells i ≡ some old
    → is_bad old ≡ false
    → any (set cells i new) is_bad ≡ is_bad new || any cells is_bad
any-set [] i old new h k = cc
any-set (y ∷ ys) zero old new h k =
    let same : y ≡ old = ground arith in rw (ap is_bad same ∙ k) refl
any-set (y ∷ ys) (suc i) old new h k = ground (arith, any-set ys i old new h k)

module _ (flags : ConcurrentDownloadFlags) (format_int : ℤ → Bytes)
    (Answers : Bytes → Chunk → Type 0) where
  -- What is stored for part `i` answers its request.
  abbrev pub CellOk : ℕ → Cell → Type 0
  CellOk i pending = Unit
  CellOk i (stored c) = Answers (header flags format_int Answers i) c
  CellOk i (reported c) = Answers (header flags format_int Answers i) c

  abbrev pub CellsOk : ℕ → List Cell → Type 0
  CellsOk i [] = Unit
  CellsOk i (x ∷ xs) = CellOk i x × CellsOk (suc i) xs

  CellsOk-snoc : (i : ℕ) (cells : List Cell) → CellsOk i cells → CellsOk i (cells ++ pending ∷ [])
  CellsOk-snoc i [] h = (tt, tt)
  CellsOk-snoc i (x ∷ xs) (h, hs) = (h, CellsOk-snoc (suc i) xs hs)

  CellsOk-set :
      (i j : ℕ) (cells : List Cell) (x : Cell)
      → CellsOk i cells
      → CellOk (i + j) x
      → CellsOk i (set cells j x)
  CellsOk-set i j [] x h k = tt
  CellsOk-set i zero (y ∷ ys) x (h, hs) k = let same : i + 0 ≡ i = omega arith in (rw same at k, hs)
  CellsOk-set i (suc j) (y ∷ ys) x (h, hs) k =
      let same : i + suc j ≡ suc i + j = omega arith in
      (h, CellsOk-set (suc i) j ys x hs (rw same at k))

  CellsOk-get :
      (i j : ℕ) (cells : List Cell) (x : Cell)
      → CellsOk i cells
      → get_elem? cells j ≡ some x
      → CellOk (i + j) x
  CellsOk-get i j [] x h k = cc
  CellsOk-get i zero (y ∷ ys) x (h, hs) k =
      let same : y ≡ x = ground arith in
      let at_i : i ≡ i + 0 = omega arith in rw (sym same, sym at_i) h
  CellsOk-get i (suc j) (y ∷ ys) x (h, hs) k =
      let same : suc i + j ≡ i + suc j = omega arith in
      rw (sym same) (CellsOk-get (suc i) j ys x hs k)

  -- The invariant: the cells answer their requests, there are not too many, a break has a bad cell as its
  -- reason, and the loop ends at its bound or at a break.
  pub record Invariant (s : State) : Type 0 where
    pub answered : CellsOk 0 s.cells
    pub bounded : length s.cells ≤ flags.split_count
    pub reason : breaks s ≡ true → any s.cells is_bad ≡ true
    pub ended :
        s.looping ≡ false → (length s.cells ≡ flags.split_count) ⊎ (any s.cells is_bad ≡ true)

  report_err-good : (c : Chunk) (e : Option Bytes) → is_some c.error ≡ false → report_err c e ≡ e
  unfolding report_err
  report_err-good c e h = elim (Option-cases c.error) [
    | inl k ↦ rw k refl
    | inr (x, k) ↦ let h' : true ≡ false = rw k at h in cc
  ]

  report_resp-good :
      (c : Chunk) (r : Option ℕ) → is_unexpected c.response ≡ false → report_resp c r ≡ r
  unfolding report_resp
  report_resp-good c r h = elim (Option-cases c.response) [
    | inl k ↦ rw k refl
    | inr (x, k) ↦
        let h' : not (x == partial_content) ≡ false = rw k at h in
        let same : (x == partial_content) ≡ true = ground arith in rw (k, same) refl
  ]

  -- A chunk that is not bad gives no reason to break.
  breaks-report :
      (s : State) (c : Chunk) (cells : List Cell)
      → (is_some c.error || is_unexpected c.response) ≡ false
      → breaks (record s { cells = cells; err = report_err c s.err; resp = report_resp c s.resp })
        ≡ breaks s
  unfolding breaks
  breaks-report s c cells h =
      let no_err : is_some c.error ≡ false = ground arith in
      let no_resp : is_unexpected c.response ≡ false = ground arith in
      ap (λ e. breaks (record s { cells = cells; err = e; resp = report_resp c s.resp }))
        (report_err-good c s.err no_err)
      ∙ ap (λ r. breaks (record s { cells = cells; resp = r })) (report_resp-good c s.resp no_resp)

  Step-Invariant : (s t : State) → Invariant s → Step flags format_int Answers s t → Invariant t
  unfolding breaks
  Step-Invariant s t v (launch l k b) =
      let grown = length-append s.cells (pending ∷ []) in
      record {
        answered = CellsOk-snoc 0 s.cells v.answered;
        bounded = omega arith;
        reason = λ r. absurd (false≢true (sym b ∙ r));
        ended = λ e. absurd (false≢true (sym e ∙ l));
      }
  Step-Invariant s t v (leave l k b) = record {
    answered = v.answered;
    bounded = v.bounded;
    reason = v.reason;
    ended = λ e. inr (v.reason b);
  }
  Step-Invariant s t v (finish l k) = record {
    answered = v.answered;
    bounded = v.bounded;
    reason = v.reason;
    ended = λ e. inl k;
  }
  Step-Invariant s t v (store i c k a) =
      let size = length-set s.cells i (stored c) in
      let bad = any-set s.cells i pending (stored c) k refl in
      let at_i : 0 + i ≡ i = omega arith in
      record {
        answered = CellsOk-set 0 i s.cells (stored c) v.answered (rw at_i a);
        bounded = rw size v.bounded;
        reason = λ r. bad ∙ v.reason r;
        ended = λ e. rw (size, bad) (v.ended e);
      }
  Step-Invariant s t v (report i c k) =
      let size = length-set s.cells i (reported c) in
      let bad = any-set s.cells i (stored c) (reported c) k refl in
      let a = CellsOk-get 0 i s.cells (stored c) v.answered k in
      record {
        answered = CellsOk-set 0 i s.cells (reported c) v.answered a;
        bounded = rw size v.bounded;
        reason = λ r. bad ∙ elim (Bool-cases (is_bad (reported c))) [
          | inl e ↦ rw e refl
          | inr e ↦ rw e (v.reason (sym (breaks-report s c (set s.cells i (reported c)) e) ∙ r))
        ];
        ended = λ e.
            rw size
              elim (v.ended e) [ inl full ↦ inl full | inr broken ↦ inr (bad ∙ ground arith) ];
      }

  pub Reaches-Invariant : (s : State) → Reaches flags format_int Answers s → Invariant s
  unfolding breaks
  Reaches-Invariant s here = record {
    answered = tt;
    bounded = omega arith;
    reason = λ r. absurd (false≢true r);
    ended = λ e. absurd (false≢true (sym e));
  }
  Reaches-Invariant t (next {s = s} r step) = Step-Invariant s t (Reaches-Invariant s r) step
