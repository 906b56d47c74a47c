-- ===== src/Metrics/Text.antt =====
-- src/utils/MetricsWorker.cpp, the message of a report: no statement that writes to it runs out of
-- buffer.
use sequitur.Prelude.{
  ℕ, zero, suc, ◌+◌, ◌≤◌, ◌<◌, ◌≡◌, refl, true, List, [], ◌∷◌, ◌++◌, append-nil, append_assoc, ltb,
  update, update_self, update_ne, word64, length, arith, sym, ◌∙◌, ap, ap₂, ◌≢◌,
}
use sequitur.Metrics.Message.{
  buffer_size, Buffer, copy, append_str, Charconv, Piece, literal, unsigned, fixed4, put, put_all,
  bytes_from, written,
}

-- The text at the end of the message.
unfoldable pub place : List ℕ → Buffer → Buffer
place text b = record b { bytes = copy b.ptr text (length text) b.bytes; ptr = b.ptr + length text }

-- What the program relies on of `std::to_chars`: if the text fits it is written, and a `uint64_t`
-- has at most 20 digits.
pub record IsCharconv {D : Type 0} (t : Charconv D) (digits : ℕ → List ℕ) (fixed : D → List ℕ)
    : Type 0 where
  pub puts_digits :
      (n : ℕ) (b : Buffer)
      → b.ptr + length (digits n) ≤ buffer_size
      → t.put_unsigned n b ≡ place (digits n) b
  pub puts_fixed :
      (x : D) (b : Buffer)
      → b.ptr + length (fixed x) ≤ buffer_size
      → t.put_fixed4 x b ≡ place (fixed x) b
  pub digits_short : (n : ℕ) → n < word64 → length (digits n) ≤ 20

copy-before :
    (at : ℕ) (str : List ℕ) (len : ℕ) (bytes : ℕ → ℕ) (j : ℕ)
    → j < at
    → copy at str len bytes j ≡ bytes j
unfolding copy
copy-before at [] len bytes j h = refl
copy-before at (c ∷ str) zero bytes j h = refl
copy-before at (c ∷ str) (suc len) bytes j h =
    let ne : j ≢ at = λ e. omega (arith, e) in
    copy-before (at + 1) str len (update bytes at c) j (omega arith) ∙ update_ne bytes at j c ne

bytes_from-copy :
    (at : ℕ) (str : List ℕ) (bytes : ℕ → ℕ)
    → bytes_from (copy at str (length str) bytes) at (length str) ≡ str
unfolding copy bytes_from
bytes_from-copy at [] bytes = refl
bytes_from-copy at (c ∷ str) bytes =
    ap₂ (λ x xs. x ∷ xs)
      (copy-before (at + 1) str (length str) (update bytes at c) at (omega arith)
        ∙ update_self bytes at c)
      (bytes_from-copy (at + 1) str (update bytes at c))

bytes_from-same :
    (f g : ℕ → ℕ) (i n : ℕ)
    → ((j : ℕ) → j < i + n → f j ≡ g j)
    → bytes_from f i n ≡ bytes_from g i n
unfolding bytes_from
bytes_from-same f g i zero h = refl
bytes_from-same f g i (suc n) h =
    ap₂ (λ x xs. x ∷ xs) (h i (omega arith))
      (bytes_from-same f g (i + 1) n λ j k. h j (omega arith))

bytes_from-add :
    (f : ℕ → ℕ) (i n m : ℕ) → bytes_from f i (n + m) ≡ bytes_from f i n ++ bytes_from f (i + n) m
unfolding bytes_from
bytes_from-add f i zero m = ap₂ (λ j k. bytes_from f j k) (omega arith) (omega arith)
bytes_from-add f i (suc n) m =
    ap (bytes_from f i) shift
    ∙ ap (λ xs. f i ∷ xs) (bytes_from-add f (i + 1) n m)
    ∙ ap (λ j. f i ∷ bytes_from f (i + 1) n ++ bytes_from f j m) (omega arith)
  where
    shift : suc n + m ≡ suc (n + m)
    shift = omega arith

pub written-place : (text : List ℕ) (b : Buffer) → written (place text b) ≡ written b ++ text
unfolding written place
written-place text b =
    bytes_from-add (copy b.ptr text (length text) b.bytes) 0 b.ptr (length text)
    ∙ ap₂ (λ xs ys. xs ++ ys)
        (bytes_from-same (copy b.ptr text (length text) b.bytes) b.bytes 0 b.ptr
          λ j h. copy-before b.ptr text (length text) b.bytes j (omega arith))
        (ap (λ i. bytes_from (copy b.ptr text (length text) b.bytes) i (length text)) (omega arith)
          ∙ bytes_from-copy b.ptr text b.bytes)

module _ {D : Type 0} (digits : ℕ → List ℕ) (fixed : D → List ℕ) where
  -- The text of a statement, and the most bytes that it can have.
  abbrev pub text : Piece D → List ℕ
  text (literal str len) = str
  text (unsigned value) = digits value
  text (fixed4 value) = fixed value

  abbrev pub most : Piece D → ℕ
  most (literal str len) = len
  most (unsigned value) = 20
  most (fixed4 value) = 25

  abbrev pub texts : List (Piece D) → List ℕ
  texts [] = []
  texts (p ∷ ps) = text p ++ texts ps

  abbrev pub most_of : List (Piece D) → ℕ
  most_of [] = 0
  most_of (p ∷ ps) = most p + most_of ps

  -- The length given with a literal is its length, and a value is in its range.
  abbrev pub IsExact : Piece D → Type 0
  IsExact (literal str len) = len ≡ length str
  IsExact (unsigned value) = value < word64
  IsExact (fixed4 value) = length (fixed value) ≤ 25

  abbrev pub AreExact : List (Piece D) → Type 0
  AreExact [] = Unit {0}
  AreExact (p ∷ ps) = IsExact p × AreExact ps

  module _ (t : Charconv D) (v : IsCharconv t digits fixed) where
    put_lem :
        (p : Piece D) (b : Buffer)
        → IsExact p
        → b.ptr + most p < buffer_size
        → (put t p b ≡ place (text p) b) × (length (text p) ≤ most p)
    unfolding put append_str place
    put_lem (literal str len) b e h =
        let test : ltb (b.ptr + len) buffer_size ≡ true = ground arith in
        (rw (test, e) refl, omega arith)
    put_lem (unsigned value) b e h =
        let short = v.digits_short value e in (v.puts_digits value b (omega arith), short)
    put_lem (fixed4 value) b e h = (v.puts_fixed value b (omega arith), e)

    pub put_all_lem :
        (ps : List (Piece D)) (b : Buffer)
        → AreExact ps
        → b.ptr + most_of ps < buffer_size
        → (written (put_all t ps b) ≡ written b ++ texts ps)
          × ((put_all t ps b).ptr ≤ b.ptr + most_of ps)
    unfolding put_all place
    put_all_lem [] b e h = (sym (append-nil (written b)), omega arith)
    put_all_lem (p ∷ ps) b (e, es) h =
        let (placed, short) = put_lem p b e (omega arith) in
        let ptr_is = ap (λ c. c.ptr) placed in
        let (rest, le) = put_all_lem ps (put t p b) es (omega (arith, ptr_is)) in
        (
          rest
              ∙ ap (λ c. written c ++ texts ps) placed
              ∙ ap (λ xs. xs ++ texts ps) (written-place (text p) b)
              ∙ append_assoc (written b) (text p) (texts ps),
          omega (arith, ptr_is),
        )
