-- ===== src/Preprocess/Decimal.antt =====
-- A number that is printed reads back: `%d` gives different texts for different numbers.
use Prim.Native.Char.{code}
use Prim.Native.String.{◌++◌}
use Prim.Native.String.append
use laya_go.Prelude.{
  ℕ, zero, suc, ◌+◌, ◌-◌, ◌*◌, ◌/◌, ◌%◌, ◌<◌, ◌≡◌, ap, ◌∙◌, String, Bool-cases, inl, inr, get_or,
  ltb, arith,
}
use laya_go.Preprocess.Text.{digits, decimal, decimal_from}

-- The number that a text of digits stands for, behind what was read before it.
unfoldable pub read_from : ℕ → String → ℕ
read_from n String.[] = n
read_from n (String.◌∷◌ c s) = read_from (10 * n + (code c - b'0')) s

read_from-append : (n : ℕ) (s t : String) → read_from n (s ++ t) ≡ read_from (read_from n s) t
unfolding read_from
read_from-append n String.[] t = ap (read_from n) (append.nil t)
read_from-append n (String.◌∷◌ c s) t =
    ap (read_from n) (append.cons c s t) ∙ read_from-append (10 * n + (code c - b'0')) s t

read_from-digit : (n d : ℕ) → d < 10 → read_from n (get_or digits d "") ≡ 10 * n + d
unfolding read_from
read_from-digit n zero h = omega arith
read_from-digit n (suc zero) h = omega arith
read_from-digit n (suc (suc zero)) h = omega arith
read_from-digit n (suc (suc (suc zero))) h = omega arith
read_from-digit n (suc (suc (suc (suc zero)))) h = omega arith
read_from-digit n (suc (suc (suc (suc (suc zero))))) h = omega arith
read_from-digit n (suc (suc (suc (suc (suc (suc zero)))))) h = omega arith
read_from-digit n (suc (suc (suc (suc (suc (suc (suc zero))))))) h = omega arith
read_from-digit n (suc (suc (suc (suc (suc (suc (suc (suc zero)))))))) h = omega arith
read_from-digit n (suc (suc (suc (suc (suc (suc (suc (suc (suc zero))))))))) h = omega arith
read_from-digit n (suc (suc (suc (suc (suc (suc (suc (suc (suc (suc d)))))))))) h =
    absurd (omega arith)

read_from-decimal_from : (fuel n : ℕ) → n < fuel → read_from 0 (decimal_from fuel n) ≡ n
unfolding decimal_from
read_from-decimal_from zero n h = absurd (omega arith)
read_from-decimal_from (suc fuel) n h =
    let last = read_from-digit 0 (n % 10) (omega arith) in
    let rest = read_from-decimal_from fuel (n / 10) in
    elim (Bool-cases (ltb n 10)) [
      | inl t ↦ rw (t, last) (ground arith)
      | inr t ↦
          rw (t, read_from-append)
            (ap (λ k. read_from k (get_or digits (n % 10) "")) (rest (ground arith))
              ∙ read_from-digit (n / 10) (n % 10) (omega arith)
              ∙ omega arith)
    ]

-- Reading what is printed gives the number back.
pub read_from-decimal : (n : ℕ) → read_from 0 (decimal n) ≡ n
unfolding decimal
read_from-decimal n = read_from-decimal_from (suc n) n (omega arith)
