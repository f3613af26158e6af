-- ===== src/Client/App/Factory/Digits.antt =====
-- What `itoa` writes is read back by the digits of the chat command.
use lodeen.Base.{
  ℕ, zero, suc, ◌-◌, ◌/◌, ◌%◌, ◌^◌, ◌<◌, ◌≡◌, refl, ap, ◌∙◌, arith, true, List, [], ◌∷◌, inl, inr,
  ltb, Bool-cases,
}
use lodeen.Base.Int.{pos, int_bound, wrap_int-id, wrap_int}
use lodeen.Client.App.Factory.{digit, fill, itoa}
use lodeen.Server.Chat.{is_digit, read_digits}
use lodeen.Server.Chat.Quantity.{value_from, read_digits-value}
use Prim.Native.Char.{Char, code}

code-digit : (d : ℕ) → d < 10 → (code (digit d) - b'0' ≡ d) × (is_digit (digit d) ≡ true)
unfolding digit is_digit
code-digit zero h = (refl, refl)
code-digit (suc zero) h = (refl, refl)
code-digit (suc (suc zero)) h = (refl, refl)
code-digit (suc (suc (suc zero))) h = (refl, refl)
code-digit (suc (suc (suc (suc zero)))) h = (refl, refl)
code-digit (suc (suc (suc (suc (suc zero))))) h = (refl, refl)
code-digit (suc (suc (suc (suc (suc (suc zero)))))) h = (refl, refl)
code-digit (suc (suc (suc (suc (suc (suc (suc zero))))))) h = (refl, refl)
code-digit (suc (suc (suc (suc (suc (suc (suc (suc zero)))))))) h = (refl, refl)
code-digit (suc (suc (suc (suc (suc (suc (suc (suc (suc zero))))))))) h = (refl, refl)
code-digit (suc (suc (suc (suc (suc (suc (suc (suc (suc (suc d)))))))))) h = absurd (omega arith)

-- The digits in front of `written` count as the number does.
fill-value :
    (room n : ℕ) (written : List Char)
    → n < 10 ^ room
    → value_from 0 (fill room n written) ≡ value_from n written
unfolding fill
fill-value zero n written h = ap (λ (k : ℕ). value_from k written) (omega arith)
fill-value (suc room) n written h = elim (Bool-cases (ltb 0 n)) [
  | inl more ↦ rw more (
      fill-value room (n / 10) (digit (n % 10) ∷ written) (omega arith)
      ∙ ap (λ (k : ℕ). value_from k written) (omega (arith, (code-digit (n % 10) (omega arith)).0)))
  | inr done ↦ rw done (ap (λ (k : ℕ). value_from k written) (ground arith))
]

-- What `itoa` writes of a number of an int that is not negative is read back as the number by the
-- digits of the chat command.
pub read_digits-itoa : (n : ℕ) → n < int_bound → read_digits (pos 0) (itoa (pos n)) ≡ pos n
unfolding itoa
read_digits-itoa zero h = read_digits-value ("0" ∷ []) ∙ wrap_int-id (pos 0) (omega arith)
read_digits-itoa (suc n) h =
    read_digits-value (fill 20 (suc n) [])
    ∙ ap (λ (k : ℕ). wrap_int (pos k)) (fill-value 20 (suc n) [] (omega arith))
    ∙ wrap_int-id (pos (suc n)) (omega arith)
