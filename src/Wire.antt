-- ===== src/Wire.antt =====
-- encoding/binary and bytes.Reader of the Go library, as the packages use them: little-endian
-- numbers, fixed buffers that are filled in place, and a reader that loses its bytes from the front.
pub mod Numbers
pub mod Buffers
pub mod Readers
pub mod Slices
use ads_go.Base.{
  ℕ, zero, suc, ◌+◌, ◌*◌, ◌-◌, ◌/◌, ◌%◌, ◌^◌, ◌<◌, List, [], ◌∷◌, ◌++◌, take, drop, length, All,
  Result, ok, err, panic, Error, ◌>>=◌, slice, replicate, ltb, if◌then◌else◌, min,
}

abbrev pub IsByte : ℕ → Type 0
IsByte b = b < 256

abbrev pub Bytes : Type 0
Bytes = List ℕ

-- The w bytes of a number, lowest first; what does not fit is cut off.
abbrev pub le_bytes : ℕ → ℕ → Bytes
le_bytes zero v = []
le_bytes (suc w) v = (v % 256) ∷ le_bytes w (v / 256)

abbrev pub le_value : Bytes → ℕ
le_value [] = 0
le_value (b ∷ bs) = b + 256 * le_value bs

-- `binary.LittleEndian.Uint16(data[lo:hi])` and its kin: the slice may panic.
abbrev pub uint_at : ℕ → ℕ → Bytes → Result ℕ
uint_at lo hi bs = slice lo hi bs >>= λ s. ok (le_value s)

-- `copy(buf, src)` and `copy(buf[off:], src)`: the length of `buf` stays, what is too long is cut.
abbrev pub overwrite : Bytes → Bytes → Bytes
overwrite [] buf = buf
overwrite (s ∷ src) [] = []
overwrite (s ∷ src) (b ∷ buf) = s ∷ overwrite src buf

abbrev pub copy_at : ℕ → Bytes → Bytes → Bytes
copy_at zero src buf = overwrite src buf
copy_at (suc off) src [] = []
copy_at (suc off) src (b ∷ buf) = b ∷ copy_at off src buf

-- `binary.LittleEndian.PutUint16(buf[off:], v)` and `PutUint32`, in a buffer with room for them.
abbrev pub put_uint16 : ℕ → ℕ → Bytes → Bytes
put_uint16 off v buf = copy_at off (le_bytes 2 v) buf

abbrev pub put_uint32 : ℕ → ℕ → Bytes → Bytes
put_uint32 off v buf = copy_at off (le_bytes 4 v) buf

-- `make([]byte, n)`.
abbrev pub make_bytes : ℕ → Bytes
make_bytes n = replicate n 0

-- A read hands on its value and the bytes that are left.
abbrev pub Reader : Type 0 → Type 0
Reader A = Bytes → Result (A × Bytes)

-- `io.ReadFull`: all n bytes, or the error that the caller makes of it.
pub read_full : ℕ → Error → Reader Bytes
read_full zero e bs = ok ([], bs)
read_full (suc n) e [] = err e
read_full (suc n) e (b ∷ bs) = read_full n e bs >>= λ r. ok (b ∷ r.0, r.1)

-- `binary.Read` of an unsigned number of w bytes.
unfoldable pub read_uint : ℕ → Error → Reader ℕ
unfolding read_full
read_uint w e bs = read_full w e bs >>= λ r. ok (le_value r.0, r.1)

-- `reader.Read(buf)` of a bytes.Reader into n fresh zero bytes. At the end of the input it is an
-- error, also where n is 0; a short read is none, and leaves zeros behind the bytes it found.
unfoldable pub read_some : ℕ → Error → Reader Bytes
read_some n e [] = err e
read_some n e (b ∷ bs) = ok (overwrite (take n (b ∷ bs)) (make_bytes n), drop n (b ∷ bs))
