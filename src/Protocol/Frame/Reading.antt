-- ===== src/Protocol/Frame/Reading.antt =====
-- What `ReadFrame` takes from a stream.
use lodeen.Base.{
  ℕ, zero, suc, ◌+◌, ◌/◌, ◌%◌, ◌||◌, ◌≤◌, ◌<◌, ◌≡◌, refl, ap, List, [], ◌∷◌, ◌++◌, arith, length,
  take, drop, All, length-append, eqb, if◌then◌else◌, none,
}
use lodeen.Protocol.Frame.{
  eof, unexpected_eof, ok, err, max_frame_size, put_uint32, uint32, write_frame, read_full,
  read_body, read_frame, buffer,
}
use lodeen.Protocol.Frame.Words.{
  IsByte, length-put_uint32, uint32-put_uint32, put_uint32-uint32, take-append_self,
  drop-append_self,
}

-- The bytes of a frame.
abbrev pub frame : List ℕ → List ℕ
frame p = put_uint32 (length p) ++ p

-- A writer that works: the header and the payload, and no error, up to the limit.
pub write_frame-buffer :
    (w p : List ℕ)
    → length p ≤ max_frame_size
    → write_frame buffer w p ≡ ((w ++ put_uint32 (length p)) ++ p, none)
unfolding write_frame
write_frame-buffer w p h = ground arith

pub read_full-append : (xs rest : List ℕ) → read_full (length xs) (xs ++ rest) ≡ (ok xs, rest)
unfolding read_full
read_full-append xs rest =
    ground (arith, length-append xs rest, take-append_self xs rest, drop-append_self xs rest)

pub read_frame-frame :
    (p rest : List ℕ)
    → length p ≤ max_frame_size
    → read_frame (put_uint32 (length p) ++ (p ++ rest)) ≡ (ok p, rest)
unfolding read_frame read_body
read_frame-frame p rest h = ground (
  arith,
  read_full-append (put_uint32 (length p)) (p ++ rest),
  length-put_uint32 (length p),
  uint32-put_uint32 (length p) (omega arith),
  read_full-append p rest,
)

take-append-drop {ℓ} : {A : Type ℓ} (n : ℕ) (xs : List A) → take n xs ++ drop n xs ≡ xs
take-append-drop zero xs = refl
take-append-drop (suc n) [] = refl
take-append-drop (suc n) (x ∷ xs) = ap (◌∷◌ x) (take-append-drop n xs)

length-take {ℓ} : {A : Type ℓ} (n : ℕ) (xs : List A) → n ≤ length xs → length (take n xs) ≡ n
length-take zero xs h = refl
length-take (suc n) [] h = absurd (omega arith)
length-take (suc n) (x ∷ xs) h = ap suc (length-take n xs (omega arith))

-- A body that is read has the announced length, which is in bounds, and stands in front of the rest.
read_body-ok :
    (v : ℕ) (hdr stream p rest : List ℕ)
    → uint32 hdr ≡ v
    → read_body (ok hdr) stream ≡ (ok p, rest)
    → (length p ≡ v) × (v ≤ max_frame_size) × (stream ≡ p ++ rest)
unfolding read_body read_full
read_body-ok v hdr stream p rest e h =
    ground (arith, length-take v stream, take-append-drop v stream)

header : (a b c d : ℕ) (s : List ℕ) → read_full 4 (a ∷ b ∷ c ∷ d ∷ s) ≡ (ok (a ∷ b ∷ c ∷ d ∷ []), s)
unfolding read_full
header a b c d s = ground arith

-- Whatever `ReadFrame` accepts is a payload within the limit, and the bytes that it took are
-- those that `WriteFrame` writes for it.
pub read_frame-ok :
    (stream p rest : List ℕ)
    → All IsByte stream
    → read_frame stream ≡ (ok p, rest)
    → (length p ≤ max_frame_size) × (stream ≡ put_uint32 (length p) ++ (p ++ rest))
unfolding read_frame
read_frame-ok (a ∷ b ∷ c ∷ d ∷ s) p rest bytes h = ground (
  arith,
  header a b c d s,
  read_body-ok (uint32 (a ∷ b ∷ c ∷ d ∷ [])) (a ∷ b ∷ c ∷ d ∷ []) s p rest refl,
  put_uint32-uint32 a b c d (omega arith),
)
read_frame-ok [] p rest bytes h = unfold read_full read_body in ground arith
read_frame-ok (a ∷ []) p rest bytes h = unfold read_full read_body in ground arith
read_frame-ok (a ∷ b ∷ []) p rest bytes h = unfold read_full read_body in ground arith
read_frame-ok (a ∷ b ∷ c ∷ []) p rest bytes h = unfold read_full read_body in ground arith

-- A body that breaks off.
read_body-short :
    (v : ℕ) (hdr stream : List ℕ)
    → uint32 hdr ≡ v
    → v ≤ max_frame_size
    → length stream < v
    → read_body (ok hdr) stream ≡ (err (if eqb (length stream) 0 then eof else unexpected_eof), [])
unfolding read_body read_full
read_body-short v hdr stream e h k = ground arith

-- A stream that breaks off inside a frame is refused and used up: with `io.EOF` if it breaks off
-- at the start of the header or of the body, and with `io.ErrUnexpectedEOF` anywhere else.
pub read_frame-truncated :
    (p : List ℕ) (k : ℕ)
    → length p ≤ max_frame_size
    → k < 4 + length p
    → read_frame (take k (put_uint32 (length p) ++ p))
      ≡ (err (if eqb k 0 || eqb k 4 then eof else unexpected_eof), [])
unfolding read_frame put_uint32
read_frame-truncated p zero h lt = unfold read_full read_body in refl
read_frame-truncated p (suc zero) h lt = unfold read_full read_body in refl
read_frame-truncated p (suc (suc zero)) h lt = unfold read_full read_body in refl
read_frame-truncated p (suc (suc (suc zero))) h lt = unfold read_full read_body in refl
read_frame-truncated p (suc (suc (suc (suc j)))) h lt = ground (
  arith,
  header (length p / 16777216 % 256) (length p / 65536 % 256) (length p / 256 % 256)
      (length p % 256) (take j p),
  uint32-put_uint32 (length p) (omega arith),
  read_body-short (length p) (put_uint32 (length p)) (take j p)
      (uint32-put_uint32 (length p) (omega arith)) h,
  length-take j p,
)
