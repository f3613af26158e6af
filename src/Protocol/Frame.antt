-- ===== src/Protocol/Frame.antt =====
-- Length-prefixed frames: internal/shared/protocol/frame.go. A byte slice is a list of numbers
-- below 256. The writer is a parameter, as `io.Writer` is; a reader is the list of the bytes that
-- are still to come, after which the stream ends.
pub mod Words
pub mod Reading
pub mod RoundTrip
use lodeen.Base.{
  ℕ, zero, suc, ◌+◌, ◌*◌, ◌/◌, ◌%◌, ◌^◌, Bool, true, List, [], ◌∷◌, ◌++◌, Option, none, some,
  length, take, drop, ltb, leb, eqb, if◌then◌else◌,
}

-- `ErrFrameTooLarge`, `io.EOF`, `io.ErrUnexpectedEOF`, and whatever a failing writer returns.
pub data FrameError : Type 0 where
  too_large eof unexpected_eof write_failed : FrameError

pub data Result (A : Type 0) : Type 0 where
  ok : A → Result A
  err : FrameError → Result A

-- `MaxFrameSize`
abbrev pub max_frame_size : ℕ
max_frame_size = 64 * 1024

-- `binary.BigEndian.PutUint32`
unfoldable pub put_uint32 : ℕ → List ℕ
put_uint32 v = (v / 16777216 % 256) ∷ (v / 65536 % 256) ∷ (v / 256 % 256) ∷ (v % 256) ∷ []

-- `binary.BigEndian.Uint32`; a slice of any other length never reaches it.
unfoldable pub uint32 : List ℕ → ℕ
uint32 (a ∷ b ∷ c ∷ d ∷ _) = a * 16777216 + b * 65536 + c * 256 + d
uint32 _ = 0

-- `w.Write`: the state of the writer after the call, and whether the call succeeded.
abbrev pub Writer : Type 0 → Type 0
Writer W = W → List ℕ → W × Bool

unfoldable pub write_frame : {W : Type 0} → Writer W → W → List ℕ → W × Option FrameError
write_frame write w payload =
    if ltb max_frame_size (length payload)
    then (w, some too_large)
    else (let (w₁, done) = write w (put_uint32 (length payload % 2 ^ 32)) in
        if done
        then (let (w₂, done₂) = write w₁ payload in
            (w₂, (if done₂ then none else some write_failed)))
        else (w₁, some write_failed))

-- `io.ReadFull` of `n` bytes. A stream that ends too soon is used up.
unfoldable pub read_full : ℕ → List ℕ → Result (List ℕ) × List ℕ
read_full n stream =
    if leb n (length stream)
    then (ok (take n stream), drop n stream)
    else (err (if eqb (length stream) 0 then eof else unexpected_eof), [])

-- The part of `ReadFrame` that stands behind the header.
unfoldable pub read_body : Result (List ℕ) → List ℕ → Result (List ℕ) × List ℕ
read_body (err e) stream = (err e, stream)
read_body (ok hdr) stream =
    let n = uint32 hdr in
    if ltb max_frame_size n then (err too_large, stream) else read_full n stream

unfoldable pub read_frame : List ℕ → Result (List ℕ) × List ℕ
read_frame stream = let (hdr, rest) = read_full 4 stream in read_body hdr rest

-- A writer that keeps all that it is given.
abbrev pub buffer : Writer (List ℕ)
buffer w bytes = (w ++ bytes, true)

-- One frame after another into a buffer.
unfoldable pub write_all : List ℕ → List (List ℕ) → List ℕ
write_all w [] = w
write_all w (p ∷ ps) = write_all (write_frame buffer w p).0 ps

-- Puts a frame that was read in front of those that a later call reads.
unfoldable pub then_frames :
    (List ℕ → Result (List (List ℕ)) × List ℕ)
    → Result (List ℕ) × List ℕ
    → Result (List (List ℕ)) × List ℕ
then_frames later (err e, rest) = (err e, rest)
then_frames later (ok p, rest) =
    let (r, rest') = later rest in elim r [ ok ps ↦ (ok (p ∷ ps), rest') | err e ↦ (err e, rest') ]

-- `n` calls of `ReadFrame`, up to the first that fails.
unfoldable pub read_all : ℕ → List ℕ → Result (List (List ℕ)) × List ℕ
unfolding then_frames
read_all zero stream = (ok [], stream)
read_all (suc n) stream = then_frames (read_all n) (read_frame stream)
