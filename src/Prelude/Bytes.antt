-- ===== src/Prelude/Bytes.antt =====
-- encoding/binary with BigEndian, on a `bytes.Buffer` as the list of the bytes that are left.
-- A w-bit integer is the number of its bit pattern, below 2 ^ w; a signed one is negative if its
-- top bit is set.
use Prim.Native.Nat.{ℕ, zero, suc, ◌-◌, ◌+◌, ◌*◌, ◌/◌, ◌%◌, ◌^◌, ◌<◌}
use mathlib.Core.Path.{◌≡◌, refl, subst, ◌∙◌}
use mathlib.Core.Bool.{Bool, not, ◌&&◌, ◌||◌}
use mathlib.Core.List.{List, [], ◌∷◌, ◌++◌, append-nil}
use native.Mathlib.Omega.{arith}
use native.Mathlib.Nat.{pow-suc}
use im_service.Prelude.Tests.{leb, ltb, if◌then◌else◌, le→ltb}
use im_service.Prelude.Lists.{
  length, take, drop, length-append, take-append, drop-append, drop-append_add,
}

abbrev pub Bytes : Type 0
Bytes = List ℕ

abbrev pub neg16 : ℕ → Bool
neg16 x = leb 0x8000 x

abbrev pub neg32 : ℕ → Bool
neg32 x = leb 0x8000_0000 x

abbrev pub neg8 : ℕ → Bool
neg8 x = leb 0x80 x

abbrev pub neg64 : ℕ → Bool
neg64 x = leb 0x8000_0000_0000_0000 x

-- The order of the int64 that two patterns stand for.
abbrev pub lt64 : ℕ → ℕ → Bool
lt64 a b = ltb ((a + 2 ^ 63) % 2 ^ 64) ((b + 2 ^ 63) % 2 ^ 64)

abbrev pub le64 : ℕ → ℕ → Bool
le64 a b = leb ((a + 2 ^ 63) % 2 ^ 64) ((b + 2 ^ 63) % 2 ^ 64)

-- `x > 0`.
abbrev pub positive64 : ℕ → Bool
positive64 x = ltb 0 x && not (neg64 x)

-- `len >= limit` for the length of a list and an int.
abbrev pub at_limit : ℕ → ℕ → Bool
at_limit limit len = neg64 limit || leb limit len

-- `x / d` of an int by a positive constant: towards 0.
abbrev pub quot64 : ℕ → ℕ → ℕ
quot64 x d = if neg64 x then (2 ^ 64 - (2 ^ 64 - x) / d) % 2 ^ 64 else x / d

-- `int(x)` of an int32.
unfoldable pub extend32 : ℕ → ℕ
extend32 x = if neg32 x then x + 0xffff_ffff_0000_0000 else x

-- `binary.Write(buffer, binary.BigEndian, n)` for an integer of `k` bytes.
unfoldable pub write_be : ℕ → ℕ → Bytes
write_be zero n = []
write_be (suc k) n = write_be k (n / 256) ++ n % 256 ∷ []

pub be_value : ℕ → Bytes → ℕ
be_value acc [] = acc
be_value acc (b ∷ bs) = be_value (acc * 256 + b) bs

-- `binary.Read(buffer, binary.BigEndian, &v)` for a `v` of `k` bytes: the new `v`, and what is left
-- of the buffer. On a short buffer `v` keeps its value `old` and the buffer is used up.
unfoldable pub read_be : ℕ → ℕ → Bytes → ℕ × Bytes
unfolding be_value
read_be k old buf = (if ltb (length buf) k then old else be_value 0 (take k buf), drop k buf)

pub length-write_be : (k n : ℕ) → length (write_be k n) ≡ k
unfolding write_be
length-write_be zero n = refl
length-write_be (suc k) n =
    omega (arith, length-append (write_be k (n / 256)) (n % 256 ∷ []), length-write_be k (n / 256))

be_value-append :
    (acc : ℕ) (xs : Bytes) (b : ℕ) → be_value acc (xs ++ b ∷ []) ≡ be_value acc xs * 256 + b
unfolding be_value
be_value-append acc [] b = refl
be_value-append acc (x ∷ xs) b = be_value-append (acc * 256 + x) xs b

be_value-write_be : (k n : ℕ) → n < 256 ^ k → be_value 0 (write_be k n) ≡ n
unfolding write_be be_value
be_value-write_be zero n h = omega arith
be_value-write_be (suc k) n h =
    be_value-append 0 (write_be k (n / 256)) (n % 256)
    ∙ omega (arith, be_value-write_be k (n / 256) (omega (arith, pow-suc 256 k)))

-- What was written is read back, and the rest of the buffer is left.
pub read_be-write_be :
    (k n old : ℕ) (rest : Bytes) → n < 256 ^ k → read_be k old (write_be k n ++ rest) ≡ (n, rest)
unfolding read_be
read_be-write_be k n old rest h =
    let len : length (write_be k n ++ rest) ≡ k + length rest =
      length-append (write_be k n) rest ∙ omega (arith, length-write_be k n) in
    rw (
      le→ltb (length (write_be k n ++ rest)) k (omega arith),
      take-append (write_be k n) rest k (length-write_be k n),
      drop-append (write_be k n) rest k (length-write_be k n),
      be_value-write_be k n h,
    )

pub read_be-write_be_end : (k n old : ℕ) → n < 256 ^ k → read_be k old (write_be k n) ≡ (n, [])
read_be-write_be_end k n old h =
    subst (λ bs. read_be k old bs ≡ (n, [])) (append-nil (write_be k n))
      (read_be-write_be k n old [] h)

pub length-write_be-append :
    (k n : ℕ) (rest : Bytes) → length (write_be k n ++ rest) ≡ k + length rest
length-write_be-append k n rest =
    length-append (write_be k n) rest ∙ omega (arith, length-write_be k n)

-- Past an integer of `k` bytes, what is left of the count falls on the rest.
pub drop-write_be :
    (k n m j : ℕ) (rest : Bytes) → k + m ≡ j → drop j (write_be k n ++ rest) ≡ drop m rest
drop-write_be k n m j rest h =
    drop-append_add (write_be k n) rest j m (omega (arith, length-write_be k n))

pub ruleset lengths = (arith, length-write_be, length-write_be-append)

-- The same at each width that the program uses, ready for `simp`.
pub read8 :
    (n old : ℕ) → n < 2 ^ 64 → (rest : Bytes) → read_be 8 old (write_be 8 n ++ rest) ≡ (n, rest)
read8 n old h rest = read_be-write_be 8 n old rest h

pub read4 :
    (n old : ℕ) → n < 2 ^ 32 → (rest : Bytes) → read_be 4 old (write_be 4 n ++ rest) ≡ (n, rest)
read4 n old h rest = read_be-write_be 4 n old rest h

pub read2 :
    (n old : ℕ) → n < 2 ^ 16 → (rest : Bytes) → read_be 2 old (write_be 2 n ++ rest) ≡ (n, rest)
read2 n old h rest = read_be-write_be 2 n old rest h

pub read1 :
    (n old : ℕ) → n < 2 ^ 8 → (rest : Bytes) → read_be 1 old (write_be 1 n ++ rest) ≡ (n, rest)
read1 n old h rest = read_be-write_be 1 n old rest h

pub read8_end : (n old : ℕ) → n < 2 ^ 64 → read_be 8 old (write_be 8 n) ≡ (n, [])
read8_end n old h = read_be-write_be_end 8 n old h

pub read4_end : (n old : ℕ) → n < 2 ^ 32 → read_be 4 old (write_be 4 n) ≡ (n, [])
read4_end n old h = read_be-write_be_end 4 n old h

pub read1_end : (n old : ℕ) → n < 2 ^ 8 → read_be 1 old (write_be 1 n) ≡ (n, [])
read1_end n old h = read_be-write_be_end 1 n old h
