-- ===== src/Server/Chat/Quantity.antt =====
-- `/get<item><qty>`: where a text is split, and what number is read.
use lodeen.Base.{
  ℕ, String, ◌+◌, ◌-◌, ◌*◌, ◌≤◌, ◌<◌, ◌≡◌, ◌==◌, refl, ap, ◌∙◌, sym, true, false, List, [], ◌∷◌,
  ◌++◌, some, arith, All, ltb, if◌then◌else◌,
}
use Prim.Native.Char.{Char, code}
use mathlib.Core.List.{
  reverse, reverse-cons, reverse-append, reverse-reverse, append-nil, append_assoc,
}
use lodeen.Base.Int.{
  pos, negsuc, int_bound, wrap_int, int_add, int_mul, ◌+ℤ◌, ◌*ℤ◌, wrap_int-id, sub_ℕ,
}
use lodeen.Server.Client.{quantity}
use lodeen.Base.Map.{insert}
use lodeen.Server.Client.Inventory.{quantity-insert, send_inventory-inventory}
use lodeen.Server.State.{Client}
use lodeen.Server.Chat.{
  cheat_get, give, is_digit, chars, text_of, split_digits, read_digits, clamp_quantity,
  name_and_quantity, parse_get_arg,
}

-- The number that the digits write in base 10, behind the digits of `n`.
abbrev pub value_from : ℕ → List Char → ℕ
value_from n [] = n
value_from n (c ∷ cs) = value_from (n * 10 + (code c - b'0')) cs

abbrev pub IsDigit : Char → Type 0
IsDigit c = is_digit c ≡ true

wrap_step :
    (n d : ℕ) → int_add (int_mul (wrap_int (pos n)) (pos 10)) (pos d) ≡ wrap_int (pos (n * 10 + d))
unfolding int_add int_mul wrap_int ◌+ℤ◌ ◌*ℤ◌
wrap_step n d = ground arith

-- The loop over the digits wraps as a 64-bit int does.
read_digits-wrap :
    (n : ℕ) (cs : List Char) → read_digits (wrap_int (pos n)) cs ≡ wrap_int (pos (value_from n cs))
unfolding read_digits
read_digits-wrap n [] = refl
read_digits-wrap n (c ∷ cs) =
    rw (wrap_step n (code c - b'0')) (read_digits-wrap (n * 10 + (code c - b'0')) cs)

pub read_digits-value : (cs : List Char) → read_digits (pos 0) cs ≡ wrap_int (pos (value_from 0 cs))
read_digits-value cs =
    ap (λ z. read_digits z cs) (sym (wrap_int-id (pos 0) (omega arith))) ∙ read_digits-wrap 0 cs

chars-text_of : (cs : List Char) → chars (text_of cs) ≡ cs
chars-text_of [] = refl
chars-text_of (c ∷ cs) = ap (◌∷◌ c) (chars-text_of cs)

All-append : (xs ys : List Char) → All IsDigit xs → All IsDigit ys → All IsDigit (xs ++ ys)
All-append [] ys h k = k
All-append (x ∷ xs) ys h k = (h.0, All-append xs ys h.1 k)

All-reverse : (xs : List Char) → All IsDigit xs → All IsDigit (reverse xs)
All-reverse [] h = tt
All-reverse (x ∷ xs) h =
    rw (reverse-cons x xs) (All-append (reverse xs) (x ∷ []) (All-reverse xs h.1) (h.0, tt))

-- The loop takes the digits at the end, up to the first character that is none.
split_digits-stop :
    (e : List Char) (c : Char) (before acc : List Char)
    → All IsDigit e
    → is_digit c ≡ false
    → split_digits (e ++ (c ∷ before)) acc ≡ (c ∷ before, reverse e ++ acc)
unfolding split_digits
split_digits-stop [] c before acc h k = rw (k, split_digits)
split_digits-stop (x ∷ e) c before acc h k =
    rw (h.0, split_digits)
      (split_digits-stop e c before (x ∷ acc) h.1 k
        ∙ ap (λ l. (c ∷ before, l))
            (sym (ap (λ l. l ++ acc) (reverse-cons x e) ∙ append_assoc (reverse e) (x ∷ []) acc)))

split_text :
    (c : Char) (before digits : List Char)
    → is_digit c ≡ false
    → All IsDigit digits
    → split_digits (reverse (chars (text_of (reverse (c ∷ before) ++ digits)))) []
      ≡ (c ∷ before, digits)
split_text c before digits k h =
    rw
      (
        chars-text_of (reverse (c ∷ before) ++ digits),
        reverse-append (reverse (c ∷ before)) digits,
        reverse-reverse (c ∷ before),
      )
      (split_digits-stop (reverse digits) c before [] (All-reverse digits h) k
        ∙ ap (λ l. (c ∷ before, l))
            (append-nil (reverse (reverse digits)) ∙ reverse-reverse digits))

clamp_quantity-small :
    (v : ℕ)
    → v < int_bound
    → clamp_quantity (wrap_int (pos v)) ≡ (if ltb 100000 v then pos 100000 else pos v)
unfolding clamp_quantity
clamp_quantity-small v h = rw (wrap_int-id (pos v) (omega arith)) (ground arith)

clamp_quantity-big :
    (v : ℕ)
    → int_bound ≤ v
    → v < 2 * int_bound
    → clamp_quantity (wrap_int (pos v)) ≡ negsuc (2 * int_bound - 1 - v)
unfolding clamp_quantity wrap_int
clamp_quantity-big v h k = ground arith

-- The answer for a text that splits, as the number modulo 2^64.
parse_get_arg-wrap :
    (c : Char) (before : List Char) (d : Char) (ds : List Char)
    → is_digit c ≡ false
    → All IsDigit (d ∷ ds)
    → parse_get_arg (text_of (reverse (c ∷ before) ++ (d ∷ ds)))
      ≡ some
          (text_of (reverse (c ∷ before)), clamp_quantity (wrap_int (pos (value_from 0 (d ∷ ds)))))
unfolding parse_get_arg
parse_get_arg-wrap c before d ds k h =
    ap name_and_quantity (split_text c before (d ∷ ds) k h)
    ∙ ap (λ q. some (text_of (reverse (c ∷ before)), clamp_quantity q)) (read_digits-value (d ∷ ds))

-- The name is given from its last character backwards, `c ∷ before`; that character is no digit.
-- For a quantity that an int64 holds, `parseGetArg` gives the name and the quantity, or 100000
-- where the quantity is greater.
pub parse_get_arg-reads :
    (c : Char) (before : List Char) (d : Char) (ds : List Char)
    → is_digit c ≡ false
    → All IsDigit (d ∷ ds)
    → value_from 0 (d ∷ ds) < int_bound
    → parse_get_arg (text_of (reverse (c ∷ before) ++ (d ∷ ds)))
      ≡ some (
        text_of (reverse (c ∷ before)),
        (let v = value_from 0 (d ∷ ds) in if ltb 100000 v then pos 100000 else pos v),
      )
parse_get_arg-reads c before d ds k h small =
    parse_get_arg-wrap c before d ds k h
    ∙ ap (λ q. some (text_of (reverse (c ∷ before)), q))
        (clamp_quantity-small (value_from 0 (d ∷ ds)) small)

-- A quantity from 2^63 up to 2^64 - 1 is read as a negative number, which no limit holds back.
pub parse_get_arg-overflow :
    (c : Char) (before : List Char) (d : Char) (ds : List Char)
    → is_digit c ≡ false
    → All IsDigit (d ∷ ds)
    → int_bound ≤ value_from 0 (d ∷ ds)
    → value_from 0 (d ∷ ds) < 2 * int_bound
    → parse_get_arg (text_of (reverse (c ∷ before) ++ (d ∷ ds)))
      ≡ some (text_of (reverse (c ∷ before)), negsuc (2 * int_bound - 1 - value_from 0 (d ∷ ds)))
parse_get_arg-overflow c before d ds k h big less =
    parse_get_arg-wrap c before d ds k h
    ∙ ap (λ q. some (text_of (reverse (c ∷ before)), q))
        (clamp_quantity-big (value_from 0 (d ∷ ds)) big less)

-- A quantity below zero, added to what the client has.
int_add-negative :
    (n v : ℕ)
    → n < int_bound
    → int_bound ≤ v
    → v < 2 * int_bound
    → int_add (pos n) (negsuc (2 * int_bound - 1 - v)) ≡ sub_ℕ n (2 * int_bound - v)
unfolding int_add wrap_int ◌+ℤ◌
int_add-negative n v small big less = ground arith

module _ {F : Type 0} where
  -- The command `/get` with a name that does not end in a digit, given from its last character
  -- backwards, and a quantity from 2^63 up to 2^64 - 1, by a client that holds `n` of the named item,
  -- from 0 to 2^63 - 1: the client loses 2^64 less the quantity of it, below zero where it has fewer,
  -- and all other quantities are as before.
  pub cheat_get-overflow :
      (now : ℕ) (c : Char) (before : List Char) (d : Char) (ds : List Char) (n : ℕ) (j : String)
      (cl : Client F)
      → is_digit c ≡ false
      → All IsDigit (d ∷ ds)
      → int_bound ≤ value_from 0 (d ∷ ds)
      → value_from 0 (d ∷ ds) < 2 * int_bound
      → quantity (text_of (reverse (c ∷ before))) cl.inventory ≡ pos n
      → n < int_bound
      → quantity j (cheat_get now (text_of (reverse (c ∷ before) ++ (d ∷ ds))) cl).inventory ≡ (
          if text_of (reverse (c ∷ before)) == j
          then sub_ℕ n (2 * int_bound - value_from 0 (d ∷ ds))
          else quantity j cl.inventory)
  unfolding cheat_get give
  cheat_get-overflow now c before d ds n j cl k h big less has small =
      let name = text_of (reverse (c ∷ before)) in
      let v = value_from 0 (d ∷ ds) in
      let negative = negsuc (2 * int_bound - 1 - v) in
      let given = insert name (int_add (quantity name cl.inventory) negative) cl.inventory in
      rw
        (
          parse_get_arg-overflow c before d ds k h big less,
          send_inventory-inventory (record cl { inventory = given }),
          has,
          int_add-negative n v small big less,
        )
        (quantity-insert name j (sub_ℕ n (2 * int_bound - v)) cl.inventory)
