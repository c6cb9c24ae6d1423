-- ===== src/Pipe/Wire/Laws.antt =====
-- What the primitives of the wire do at a cursor: `drop offset bytes` is what is left to read.
use native.Mathlib.Nat.{pow-suc}
use mathlib.Core.Path.{ap₂}
use librova.Base.{
  ℕ, zero, suc, ◌+◌, ◌*◌, ◌-◌, ◌/◌, ◌%◌, ◌^◌, ◌≤◌, ◌<◌, ◌≡◌, refl, sym, ap, ◌∙◌, arith, List, [],
  ◌∷◌, ◌++◌, take, drop, length, leb, leb→le, le→leb, All, All-take, All-drop, length-append,
  length-take, length-drop, take-append, drop-append, drop-add, take-drop,
}
use librova.Base.Outcome.{ok, >>=-eq-ok, require-eq-ok}
use librova.Pipe.Wire.{le_bytes, from_le, IsByte, max_u32, read_u32, read_u64, read_string}

pub length-le_bytes : (k v : ℕ) → length (le_bytes k v) ≡ k
unfolding le_bytes
length-le_bytes zero v = refl
length-le_bytes (suc k) v = ap suc (length-le_bytes k (v / 256))

pub le_bytes-IsByte : (k v : ℕ) → All IsByte (le_bytes k v)
unfolding le_bytes
le_bytes-IsByte zero v = tt
le_bytes-IsByte (suc k) v = (omega arith, le_bytes-IsByte k (v / 256))

pub from_le-le_bytes : (k v : ℕ) → v < 256 ^ k → from_le (le_bytes k v) ≡ v
unfolding le_bytes from_le
from_le-le_bytes zero v h = omega arith
from_le-le_bytes (suc k) v h =
    omega (arith, from_le-le_bytes k (v / 256) (omega (arith, pow-suc 256 k)))

pub from_le-lt : (bs : List ℕ) → All IsByte bs → from_le bs < 256 ^ length bs
unfolding from_le
from_le-lt [] h = omega arith
from_le-lt (b ∷ bs) h = omega (arith, h.0, from_le-lt bs h.1, pow-suc 256 (length bs))

pub le_bytes-from_le : (bs : List ℕ) → All IsByte bs → le_bytes (length bs) (from_le bs) ≡ bs
unfolding le_bytes from_le
le_bytes-from_le [] h = refl
le_bytes-from_le (b ∷ bs) h =
    let low : (b + 256 * from_le bs) % 256 ≡ b = omega (arith, h.0) in
    let high : (b + 256 * from_le bs) / 256 ≡ from_le bs = omega (arith, h.0) in
    rw (low, high) (ap (◌∷◌ b) (le_bytes-from_le bs h.1))

-- A cursor that stands before a field leaves room for it.
fits :
    (bytes field rest : List ℕ) (offset : ℕ)
    → drop offset bytes ≡ field ++ rest
    → 0 < length field
    → offset + length field ≤ length bytes
fits bytes field rest offset e h =
    omega (arith, ap length e, length-append field rest, length-drop offset bytes)

-- Behind a field the cursor stands before the rest.
drop_field :
    (bytes field rest : List ℕ) (offset : ℕ)
    → drop offset bytes ≡ field ++ rest
    → drop (offset + length field) bytes ≡ rest
drop_field bytes field rest offset e =
    rw (drop-add offset (length field) bytes, e) (drop-append field rest)

-- A field that has been read is the bytes between the two cursors.
field_read :
    (bytes : List ℕ) (offset size : ℕ)
    → drop offset bytes ≡ take size (drop offset bytes) ++ drop (offset + size) bytes
field_read bytes offset size =
    rw (drop-add offset size bytes) (sym (take-drop size (drop offset bytes)))

length_read :
    (bytes : List ℕ) (offset size : ℕ)
    → offset + size ≤ length bytes
    → length (take size (drop offset bytes)) ≡ size
length_read bytes offset size h =
    length-take size (drop offset bytes) (omega (arith, length-drop offset bytes))

-- The word of `k` bytes that stands at a cursor is read back.
pub word_at :
    (k v : ℕ) (bytes rest : List ℕ) (offset : ℕ)
    → v < 256 ^ k
    → drop offset bytes ≡ le_bytes k v ++ rest
    → from_le (take k (drop offset bytes)) ≡ v
word_at k v bytes rest offset h e = rw e (
    ap (λ n. from_le (take n (le_bytes k v ++ rest))) (sym (length-le_bytes k v))
    ∙ ap from_le (take-append (le_bytes k v) rest)
    ∙ from_le-le_bytes k v h)

-- The bytes that a word was read from are its bytes.
word_of :
    (k : ℕ) (bytes : List ℕ) (offset : ℕ)
    → All IsByte bytes
    → offset + k ≤ length bytes
    → (drop offset bytes
        ≡ le_bytes k (from_le (take k (drop offset bytes))) ++ drop (offset + k) bytes)
      × (from_le (take k (drop offset bytes)) < 256 ^ k)
word_of k bytes offset b h =
    let size = length_read bytes offset k h in
    let bytes_are = All-take IsByte k (drop offset bytes) (All-drop IsByte offset bytes b) in
    (
      field_read bytes offset k
          ∙ ap (λ f. f ++ drop (offset + k) bytes)
              (sym (le_bytes-from_le (take k (drop offset bytes)) bytes_are)
                ∙ ap (λ n. le_bytes n (from_le (take k (drop offset bytes)))) size),
      rw size at (from_le-lt (take k (drop offset bytes)) bytes_are),
    )

pub read_u32_at :
    (v : ℕ) (bytes rest : List ℕ) (offset : ℕ)
    → v ≤ max_u32
    → drop offset bytes ≡ le_bytes 4 v ++ rest
    → (read_u32 bytes offset ≡ ok (v, offset + 4))
      × (drop (offset + 4) bytes ≡ rest)
      × (offset + 4 ≤ length bytes)
unfolding read_u32
read_u32_at v bytes rest offset h e =
    let size = length-le_bytes 4 v in
    let room : offset + 4 ≤ length bytes =
      omega (arith, fits bytes (le_bytes 4 v) rest offset e (omega (arith, size)), size) in
    (
      ground (arith, room, word_at 4 v bytes rest offset (omega arith) e),
      rw size at (drop_field bytes (le_bytes 4 v) rest offset e),
      room,
    )

pub read_u64_at :
    (v : ℕ) (bytes rest : List ℕ) (offset : ℕ)
    → v < 2 ^ 64
    → drop offset bytes ≡ le_bytes 8 v ++ rest
    → (read_u64 bytes offset ≡ ok (v, offset + 8)) × (drop (offset + 8) bytes ≡ rest)
unfolding read_u64
read_u64_at v bytes rest offset h e =
    let size = length-le_bytes 8 v in
    let room : offset + 8 ≤ length bytes =
      omega (arith, fits bytes (le_bytes 8 v) rest offset e (omega (arith, size)), size) in
    (
      ground (arith, room, word_at 8 v bytes rest offset (omega arith) e),
      rw size at (drop_field bytes (le_bytes 8 v) rest offset e),
    )

pub read_string_at :
    (s bytes rest : List ℕ) (offset : ℕ)
    → length s ≤ max_u32
    → drop offset bytes ≡ le_bytes 4 (length s) ++ (s ++ rest)
    → (read_string bytes offset ≡ ok (s, offset + 4 + length s))
      × (drop (offset + 4 + length s) bytes ≡ rest)
      × (offset + 4 + length s ≤ length bytes)
unfolding read_string
read_string_at s bytes rest offset h e =
    let (head, left, room) = read_u32_at (length s) bytes (s ++ rest) offset h e in
    let ends : length (s ++ rest) ≡ length bytes - (offset + 4) =
      sym (ap length left) ∙ length-drop (offset + 4) bytes in
    let inside : offset + 4 + length s ≤ length bytes =
      omega (arith, ends, room, length-append s rest) in
    (
      rw (head, le→leb _ _ inside, left, take-append s rest),
      drop_field bytes s rest (offset + 4) left,
      inside,
    )

pub read_u32-inv :
    (bytes : List ℕ) (offset : ℕ) {v next : ℕ}
    → All IsByte bytes
    → read_u32 bytes offset ≡ ok (v, next)
    → (next ≡ offset + 4)
      × (drop offset bytes ≡ le_bytes 4 v ++ drop next bytes)
      × (v ≤ max_u32)
      × (next ≤ length bytes)
unfolding read_u32
read_u32-inv bytes offset {v} {next} b e =
    let room : offset + 4 ≤ length bytes = ground arith in
    let at : v ≡ from_le (take 4 (drop offset bytes)) = ground arith in
    let after : next ≡ offset + 4 = ground arith in
    let (split, small) = word_of 4 bytes offset b room in
    (after, rw (at, after) split, rw at (omega (arith, small)), omega (arith, room, after))

pub read_u64-inv :
    (bytes : List ℕ) (offset : ℕ) {v next : ℕ}
    → All IsByte bytes
    → read_u64 bytes offset ≡ ok (v, next)
    → (next ≡ offset + 8) × (drop offset bytes ≡ le_bytes 8 v ++ drop next bytes) × (v < 2 ^ 64)
unfolding read_u64
read_u64-inv bytes offset {v} {next} b e =
    let room : offset + 8 ≤ length bytes = ground arith in
    let at : v ≡ from_le (take 8 (drop offset bytes)) = ground arith in
    let after : next ≡ offset + 8 = ground arith in
    let (split, small) = word_of 8 bytes offset b room in
    (after, rw (at, after) split, rw at (omega (arith, small)))

-- The body of a text whose length has been read.
body-inv :
    (bytes : List ℕ) (offset start size next : ℕ) (s : List ℕ)
    → All IsByte bytes
    → drop offset bytes ≡ le_bytes 4 size ++ drop start bytes
    → start + size ≤ length bytes
    → take size (drop start bytes) ≡ s
    → start + size ≡ next
    → (drop offset bytes ≡ le_bytes 4 (length s) ++ (s ++ drop next bytes))
      × (length s ≡ size)
      × All IsByte s
body-inv bytes offset start size next s b split inside value after =
    let sized : length s ≡ size = sym (ap length value) ∙ length_read bytes start size inside in
    (
      split
          ∙ ap₂ (λ n rest. le_bytes 4 n ++ rest) (sym sized)
              (field_read bytes start size ∙ ap₂ (λ t n. t ++ drop n bytes) value after),
      sized,
      rw value at (All-take IsByte size (drop start bytes) (All-drop IsByte start bytes b)),
    )

pub read_string-inv :
    (bytes : List ℕ) (offset : ℕ) {s : List ℕ} {next : ℕ}
    → All IsByte bytes
    → read_string bytes offset ≡ ok (s, next)
    → (drop offset bytes ≡ le_bytes 4 (length s) ++ (s ++ drop next bytes))
      × (length s ≤ max_u32)
      × (next ≤ length bytes)
      × All IsByte s
unfolding read_string
read_string-inv bytes offset {s} {next} b e =
    let ((size, start), head, more) = >>=-eq-ok (read_u32 bytes offset) _ e in
    let (after, split, small, room) = read_u32-inv bytes offset b head in
    let (inside, value) =
      require-eq-ok (leb (start + size) (length bytes)) _
        (ok (take size (drop start bytes), start + size)) more in
    let fit : start + size ≤ length bytes = leb→le _ _ inside in
    let last : start + size ≡ next = ground arith in
    let (whole, sized, bytes_are) =
      body-inv bytes offset start size next s b split fit (ground arith) last in
    (whole, omega (arith, sized, small), omega (arith, fit, last), bytes_are)

-- A cursor inside the vector with nothing left to read stands at its end.
pub at_end :
    (bytes : List ℕ) (offset : ℕ)
    → drop offset bytes ≡ []
    → offset ≤ length bytes
    → offset ≡ length bytes
at_end bytes offset e h = omega (arith, ap length e, length-drop offset bytes)
