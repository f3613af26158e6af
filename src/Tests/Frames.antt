-- ===== src/Tests/Frames.antt =====
-- Runs of what the connection reads and writes.
use lodeen.Base.{ℕ, ◌-◌, ◌≤◌, ◌≡◌, refl, List, [], ◌∷◌, ◌++◌, some, false, take, All, arith}
use Prim.Native.Char.{Char}
use lodeen.Base.Int.{ℤ, pos, negsuc, int_bound}
use lodeen.Protocol.Frame.{
  ok, err, unexpected_eof, max_frame_size, put_uint32, uint32, read_full, read_body, read_frame,
  read_all, write_all,
}
use lodeen.Protocol.Frame.Words.{IsByte}
use lodeen.Protocol.Frame.Reading.{read_frame-ok, read_frame-truncated}
use lodeen.Protocol.Frame.RoundTrip.{read_all-write_all}
use lodeen.Server.Connection.{is_hex, perform_hello}
use lodeen.Server.Connection.Colour.{IsHex, IsClean, perform_hello-IsClean}
use lodeen.Base.Map.{lookup}
use lodeen.Protocol.Messages.{Hello, PlayerState}
use lodeen.Server.Chat.{is_digit, parse_get_arg, cheat_get}
use lodeen.Server.Client.{quantity}
use lodeen.Server.Items.{handle_state}
use lodeen.Server.Snapshot.{show_player}
use lodeen.Tests.Sample.{int_float, player}
use lodeen.Server.Chat.Quantity.{IsDigit, parse_get_arg-reads, cheat_get-overflow}

abbrev payloads : List (List ℕ)
payloads = (1 ∷ 2 ∷ 3 ∷ []) ∷ [] ∷ (255 ∷ []) ∷ []

read_all-write_all_example :
    read_all 3 (write_all [] payloads ++ 7 ∷ 8 ∷ []) ≡ (ok payloads, 7 ∷ 8 ∷ [])
read_all-write_all_example =
    read_all-write_all payloads (7 ∷ 8 ∷ []) (omega arith, (omega arith, (omega arith, tt)))

abbrev stream : List ℕ
stream = 0 ∷ 0 ∷ 0 ∷ 2 ∷ 10 ∷ 11 ∷ 12 ∷ []

stream-IsByte : All IsByte stream
stream-IsByte = ground arith

stream-read : read_frame stream ≡ (ok (10 ∷ 11 ∷ []), 12 ∷ [])
unfolding read_frame read_body read_full uint32
stream-read = refl

read_frame-ok_example : (2 ≤ max_frame_size) × (stream ≡ put_uint32 2 ++ (10 ∷ 11 ∷ 12 ∷ []))
read_frame-ok_example = read_frame-ok stream (10 ∷ 11 ∷ []) (12 ∷ []) stream-IsByte stream-read

read_frame-truncated_example :
    read_frame (take 5 (put_uint32 2 ++ (10 ∷ 11 ∷ []))) ≡ (err unexpected_eof, [])
read_frame-truncated_example = read_frame-truncated (10 ∷ 11 ∷ []) 5 (omega arith) (omega arith)

abbrev digits : List ℕ
digits = b'F' ∷ b'f' ∷ b'0' ∷ b'0' ∷ b'a' ∷ b'A' ∷ []

digits-IsHex : All IsHex digits
unfolding is_hex
digits-IsHex = (refl, (refl, (refl, (refl, (refl, (refl, tt))))))

-- A colour in capital letters, and one that is none.
abbrev introduction : Hello
introduction = record { nick = "ann"; version = ""; color_hex = b'#' ∷ digits }

abbrev disguise : PlayerState ℤ
disguise = record (player "p1" []).state { color_hex = b'x' ∷ [] }

perform_hello-IsClean_example :
    let greeted = perform_hello introduction (player "p1" []) in
    IsClean greeted.color_hex
    × IsClean (show_player greeted).color_hex
    × IsClean (show_player (handle_state disguise greeted)).color_hex
    × IsClean (handle_state disguise greeted).state.color_hex
perform_hello-IsClean_example = perform_hello-IsClean introduction disguise (player "p1" [])

d_no_digit : is_digit "d" ≡ false
unfolding is_digit
d_no_digit = refl

abbrev forty_two : List Char
forty_two = "4" ∷ "2" ∷ []

forty_two-IsDigit : All IsDigit forty_two
unfolding is_digit
forty_two-IsDigit = (refl, (refl, tt))

parse_get_arg-reads_example : parse_get_arg "wood42" ≡ some ("wood", pos 42)
parse_get_arg-reads_example =
    parse_get_arg-reads "d" ("o" ∷ "o" ∷ "w" ∷ []) "4" ("2" ∷ []) d_no_digit forty_two-IsDigit
      (omega arith)

e_no_digit : is_digit "e" ≡ false
unfolding is_digit
e_no_digit = refl

-- 2^63
abbrev too_many : List Char
too_many =
    "9" ∷ "2" ∷ "2" ∷ "3" ∷ "3" ∷ "7" ∷ "2" ∷ "0" ∷ "3" ∷ "6" ∷ "8" ∷ "5" ∷ "4" ∷ "7" ∷ "7" ∷ "5"
    ∷ "8" ∷ "0" ∷ "8" ∷ []

too_many-IsDigit : All IsDigit too_many
unfolding is_digit
too_many-IsDigit = (
  refl,
  (
    refl,
    (
      refl,
      (
        refl,
        (
          refl,
          (
            refl,
            (
              refl,
              (
                refl,
                (
                  refl,
                  (
                    refl,
                    (refl, (refl, (refl, (refl, (refl, (refl, (refl, (refl, (refl, tt))))))))),
                  ),
                ),
              ),
            ),
          ),
        ),
      ),
    ),
  ),
)

owner-has : quantity "ore" (player "p1" (("ore", pos 6) ∷ [])).inventory ≡ pos 6
unfolding quantity lookup
owner-has = refl

cheat_get-overflow_example :
    quantity "ore"
      (cheat_get 0 "ore9223372036854775808" (player "p1" (("ore", pos 6) ∷ []))).inventory
    ≡ negsuc (int_bound - 7)
cheat_get-overflow_example =
    cheat_get-overflow 0 "e" ("r" ∷ "o" ∷ []) "9"
      ("2" ∷ "2" ∷ "3" ∷ "3" ∷ "7" ∷ "2" ∷ "0" ∷ "3" ∷ "6" ∷ "8" ∷ "5" ∷ "4" ∷ "7" ∷ "7" ∷ "5" ∷ "8"
        ∷ "0" ∷ "8" ∷ [])
      6 "ore" (player "p1" (("ore", pos 6) ∷ [])) e_no_digit too_many-IsDigit (omega arith)
      (omega arith) owner-has (omega arith)
