-- ===== src/Protocol/Frame/RoundTrip.antt =====
-- What is written comes back, for a stream of any number of frames.
use lodeen.Base.{ℕ, ◌≤◌, ◌≡◌, refl, List, [], ◌∷◌, ◌++◌, arith, length, All}
use mathlib.Core.List.{append-nil, append_assoc}
use lodeen.Protocol.Frame.{ok, max_frame_size, put_uint32, write_all, read_all}
use lodeen.Protocol.Frame.Reading.{write_frame-buffer, read_frame-frame}

abbrev pub Fits : List ℕ → Type 0
Fits p = length p ≤ max_frame_size

-- The bytes of a list of frames.
unfoldable pub frames : List (List ℕ) → List ℕ
frames [] = []
frames (p ∷ ps) = put_uint32 (length p) ++ (p ++ frames ps)

pub write_all-frames :
    (w : List ℕ) (ps : List (List ℕ)) → All Fits ps → write_all w ps ≡ w ++ frames ps
unfolding write_all frames
write_all-frames w [] h = rw append-nil
write_all-frames w (p ∷ ps) h =
    rw (write_frame-buffer w p h.0, write_all-frames ((w ++ put_uint32 (length p)) ++ p) ps h.1)
      (simp append_assoc)

read_all-frames :
    (ps : List (List ℕ)) (rest : List ℕ)
    → All Fits ps
    → read_all (length ps) (frames ps ++ rest) ≡ (ok ps, rest)
unfolding read_all frames
read_all-frames [] rest h = refl
read_all-frames (p ∷ ps) rest h =
    simp append_assoc
      (ground (arith, read_frame-frame p (frames ps ++ rest) h.0, read_all-frames ps rest h.1))

-- Payloads within the limit, written one after another into a working writer, are read back in
-- order, and what stands behind them in the stream is left for the next call.
pub read_all-write_all :
    (ps : List (List ℕ)) (rest : List ℕ)
    → All Fits ps
    → read_all (length ps) (write_all [] ps ++ rest) ≡ (ok ps, rest)
read_all-write_all ps rest h = rw (write_all-frames [] ps h) (read_all-frames ps rest h)
