-- ===== src/Types/Bytes.antt =====
-- Byte strings, and `to_be_bytes` and `from_be_bytes` of the unsigned integers.
use protofish4_rs.Base.{
  ℕ, zero, suc, ◌+◌, ◌*◌, ◌/◌, ◌%◌, ◌^◌, ◌<◌, ◌≡◌, refl, ap₂, List, [], ◌∷◌, arith, length, All,
}

abbrev pub IsByte : ℕ → Type 0
IsByte b = b < 256

abbrev pub IsBytes : List ℕ → Type 0
IsBytes = All IsByte

-- The `k` lowest bytes of a number, highest first.
abbrev pub to_be_bytes : ℕ → ℕ → List ℕ
to_be_bytes zero n = []
to_be_bytes (suc k) n = (n / 256 ^ k % 256) ∷ to_be_bytes k n

abbrev pub from_be_bytes : List ℕ → ℕ
from_be_bytes [] = 0
from_be_bytes (b ∷ bs) = b * 256 ^ length bs + from_be_bytes bs

pub length-to_be_bytes : (k n : ℕ) → length (to_be_bytes k n) ≡ k
length-to_be_bytes zero n = refl
length-to_be_bytes (suc k) n = omega (arith, length-to_be_bytes k n)

pub to_be_bytes-IsBytes : (k n : ℕ) → IsBytes (to_be_bytes k n)
to_be_bytes-IsBytes zero n = tt
to_be_bytes-IsBytes (suc k) n = (omega arith, to_be_bytes-IsBytes k n)

pub from_be_bytes_two : (n : ℕ) → n < 2 ^ 16 → from_be_bytes (to_be_bytes 2 n) ≡ n
from_be_bytes_two n h = omega arith

pub from_be_bytes_four : (n : ℕ) → n < 2 ^ 32 → from_be_bytes (to_be_bytes 4 n) ≡ n
from_be_bytes_four n h = omega arith

pub from_be_bytes_eight : (n : ℕ) → n < 2 ^ 64 → from_be_bytes (to_be_bytes 8 n) ≡ n
from_be_bytes_eight n h = omega arith

cons_eq : {a b : ℕ} {xs ys : List ℕ} → a ≡ b → xs ≡ ys → a ∷ xs ≡ b ∷ ys
cons_eq p q = ap₂ ◌∷◌ p q

pub to_be_bytes_two :
    (bs : List ℕ) → IsBytes bs → length bs ≡ 2 → to_be_bytes 2 (from_be_bytes bs) ≡ bs
to_be_bytes_two (a ∷ b ∷ []) h e = cons_eq (omega arith) (cons_eq (omega arith) refl)
to_be_bytes_two [] h e = absurd (omega arith)
to_be_bytes_two (a ∷ []) h e = absurd (omega arith)
to_be_bytes_two (a ∷ b ∷ c ∷ bs) h e = absurd (omega arith)

pub to_be_bytes_four :
    (bs : List ℕ) → IsBytes bs → length bs ≡ 4 → to_be_bytes 4 (from_be_bytes bs) ≡ bs
to_be_bytes_four (a ∷ b ∷ c ∷ d ∷ []) h e =
    cons_eq (omega arith)
      (cons_eq (omega arith) (cons_eq (omega arith) (cons_eq (omega arith) refl)))
to_be_bytes_four [] h e = absurd (omega arith)
to_be_bytes_four (a ∷ []) h e = absurd (omega arith)
to_be_bytes_four (a ∷ b ∷ []) h e = absurd (omega arith)
to_be_bytes_four (a ∷ b ∷ c ∷ []) h e = absurd (omega arith)
to_be_bytes_four (a ∷ b ∷ c ∷ d ∷ x ∷ bs) h e = absurd (omega arith)

pub from_be_bytes-lt : (bs : List ℕ) → IsBytes bs → from_be_bytes bs < 256 ^ length bs
from_be_bytes-lt [] h = omega arith
from_be_bytes-lt (b ∷ bs) h = grind (arith, from_be_bytes-lt bs h.1)

pub to_be_bytes_eight :
    (bs : List ℕ) → IsBytes bs → length bs ≡ 8 → to_be_bytes 8 (from_be_bytes bs) ≡ bs
to_be_bytes_eight (a ∷ b ∷ c ∷ d ∷ e ∷ f ∷ g ∷ h ∷ []) p q = cons_eq (omega arith) (
    cons_eq (omega arith) (
      cons_eq (omega arith) (
        cons_eq (omega arith) (
          cons_eq (omega arith)
            (cons_eq (omega arith) (cons_eq (omega arith) (cons_eq (omega arith) refl)))))))
to_be_bytes_eight [] p q = absurd (omega arith)
to_be_bytes_eight (a ∷ []) p q = absurd (omega arith)
to_be_bytes_eight (a ∷ b ∷ []) p q = absurd (omega arith)
to_be_bytes_eight (a ∷ b ∷ c ∷ []) p q = absurd (omega arith)
to_be_bytes_eight (a ∷ b ∷ c ∷ d ∷ []) p q = absurd (omega arith)
to_be_bytes_eight (a ∷ b ∷ c ∷ d ∷ e ∷ []) p q = absurd (omega arith)
to_be_bytes_eight (a ∷ b ∷ c ∷ d ∷ e ∷ f ∷ []) p q = absurd (omega arith)
to_be_bytes_eight (a ∷ b ∷ c ∷ d ∷ e ∷ f ∷ g ∷ []) p q = absurd (omega arith)
to_be_bytes_eight (a ∷ b ∷ c ∷ d ∷ e ∷ f ∷ g ∷ h ∷ x ∷ bs) p q = absurd (omega arith)
