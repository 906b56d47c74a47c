-- ===== src/Metrics/Message.antt =====
-- src/utils/MetricsWorker.cpp, the message of a report: a buffer of 1024 bytes, `append_str` and
-- `std::to_chars`. A text is the list of its bytes.
use Prim.Native.Char.{code}
use Prim.Native.String.{String}
use sequitur.Prelude.{ℕ, zero, suc, ◌+◌, List, [], ◌∷◌, ltb, if◌then◌else◌, update}

abbrev pub buffer_size : ℕ
buffer_size = 1024

-- The bytes of an ASCII literal.
abbrev pub codes : String → List ℕ
codes String.[] = []
codes (String.◌∷◌ c s) = code c ∷ codes s

-- `buffer` and `ptr`, as its distance from `buffer`.
pub record Buffer : Type 0 where
  pub bytes : ℕ → ℕ
  pub ptr : ℕ

-- After `memset`.
unfoldable pub clear : Buffer
clear = record { bytes = λ _. 0; ptr = 0 }

-- `memcpy(buffer + at, str, len)`. The bytes past the end of `str` are not the program's: here they are left alone.
unfoldable pub copy : ℕ → List ℕ → ℕ → (ℕ → ℕ) → ℕ → ℕ
copy at [] len bytes = bytes
copy at (c ∷ str) zero bytes = bytes
copy at (c ∷ str) (suc len) bytes = copy (at + 1) str len (update bytes at c)

unfoldable pub append_str : List ℕ → ℕ → Buffer → Buffer
append_str str len b =
    if ltb (b.ptr + len) buffer_size
    then record b { bytes = copy b.ptr str len b.bytes; ptr = b.ptr + len }
    else b

-- The two forms of `std::to_chars` that the message uses, on the rest of the buffer.
pub record Charconv (D : Type 0) : Type 0 where
  pub put_unsigned : ℕ → Buffer → Buffer
  pub put_fixed4 : D → Buffer → Buffer

-- A statement that writes to the message.
pub data Piece (D : Type 0) : Type 0 where
  literal : (str : List ℕ) → (len : ℕ) → Piece D
  unsigned : (value : ℕ) → Piece D
  fixed4 : (value : D) → Piece D

module _ {D : Type 0} (t : Charconv D) where
  unfoldable pub put : Piece D → Buffer → Buffer
  put (literal str len) b = append_str str len b
  put (unsigned value) b = t.put_unsigned value b
  put (fixed4 value) b = t.put_fixed4 value b

  unfoldable pub put_all : List (Piece D) → Buffer → Buffer
  put_all [] b = b
  put_all (p ∷ ps) b = put_all ps (put p b)

-- The bytes that are written out: `n` of them, from byte `i` on.
unfoldable pub bytes_from : (ℕ → ℕ) → ℕ → ℕ → List ℕ
bytes_from bytes i zero = []
bytes_from bytes i (suc n) = bytes i ∷ bytes_from bytes (i + 1) n

unfoldable pub written : Buffer → List ℕ
written b = bytes_from b.bytes 0 b.ptr
