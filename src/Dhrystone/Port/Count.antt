-- ===== src/Dhrystone/Port/Count.antt =====
-- The count that `dhr_printf` returns.
use takshaka.Base.{
  ℕ, ◌+◌, ◌-◌, ◌*◌, ◌≡◌, refl, ap, ◌∙◌, sym, ◌==◌, Bool, true, false, if◌then◌else◌, Option, none,
  some, ◌>>=◌, List, [], ◌∷◌, length, length-append, arith, Bool-cases, inl, inr,
}
use mathlib.Core.Option.{some-injective, none-ne-some}
use takshaka.Dhrystone.Port.{
  Argument, word, text, Printed, takes_argument, convert, directive, Place, plain, percent,
  width_of, is_digit, before, print_from, returned, dhr_printf,
}

-- The count is the number of printed bytes, if anything is returned.
abbrev Counted : Option Printed → Type 0
Counted none = Unit
Counted (some p) = p.count ≡ length p.out

convert-Counted :
    (letter pad width : ℕ) (args : List Argument) → Counted (convert letter pad width args)
unfolding convert
convert-Counted letter pad width [] = tt
convert-Counted letter pad width (word v ∷ args) = ground arith
convert-Counted letter pad width (text s ∷ args) = ground arith

directive-Counted :
    (letter pad width : ℕ) (args : List Argument) → Counted (directive letter pad width args)
unfolding directive
directive-Counted letter pad width args = elim (Bool-cases (takes_argument letter)) [
  | inl takes ↦ rw takes (convert-Counted letter pad width args)
  | inr other ↦
      rw other (elim (Bool-cases (letter == b'%')) [ inl p ↦ rw p refl | inr p ↦ rw p refl ])
]

before-Counted :
    (out : List ℕ) (n : ℕ) (r : Option Printed)
    → n ≡ length out
    → Counted r
    → Counted (r >>= λ p. some (before out n p))
before-Counted out n none e h = tt
before-Counted out n (some p) e h = omega (arith, length-append out p.out)

if-Counted :
    (b : Bool) (x y : Option Printed) → Counted x → Counted y → Counted (if b then x else y)
if-Counted true x y hx hy = hx
if-Counted false x y hx hy = hy

then-Counted :
    (d : Option Printed) (k : List Argument → Option Printed)
    → Counted d
    → ((args : List Argument) → Counted (k args))
    → Counted (d >>= λ d'. k d'.args >>= λ p. some (before d'.out d'.count p))
then-Counted none k hd hk = tt
then-Counted (some d) k hd hk = before-Counted d.out d.count (k d.args) hd (hk d.args)

print_from-Counted :
    (fmt : List ℕ) (at : Place) (args : List Argument) → Counted (print_from at fmt args)
unfolding print_from
print_from-Counted [] at args = tt
print_from-Counted (c ∷ fmt) plain args =
    if-Counted (c == 0) (some (record { out = []; count = 0; args = args })) _ refl (
      if-Counted (c == b'%') (print_from percent fmt args) _ (print_from-Counted fmt percent args) (
        before-Counted (c ∷ []) 1 (print_from plain fmt args) refl
          (print_from-Counted fmt plain args)))
print_from-Counted (c ∷ fmt) percent args =
    if-Counted (c == b'0') (print_from (width_of b'0' 0) fmt args) _
      (print_from-Counted fmt (width_of b'0' 0) args)
      (if-Counted (is_digit c) (print_from (width_of b' ' (c - b'0')) fmt args) _
        (print_from-Counted fmt (width_of b' ' (c - b'0')) args)
        (if-Counted (c == 0) none _ tt (
          then-Counted (directive c b' ' 0 args) (print_from plain fmt)
            (directive-Counted c b' ' 0 args) (print_from-Counted fmt plain))))
print_from-Counted (c ∷ fmt) (width_of pad width) args =
    if-Counted (is_digit c) (print_from (width_of pad (width * 10 + (c - b'0'))) fmt args) _
      (print_from-Counted fmt (width_of pad (width * 10 + (c - b'0'))) args)
      (if-Counted (c == 0) none _ tt (
        then-Counted (directive c pad width args) (print_from plain fmt)
          (directive-Counted c pad width args) (print_from-Counted fmt plain)))

-- Where `dhr_printf` returns, it returns the number of bytes that it has printed, for every format.
pub dhr_printf-length :
    (fmt : List ℕ) (args : List Argument) (out : List ℕ) (count : ℕ)
    → dhr_printf fmt args ≡ some (out, count)
    → count ≡ length out
unfolding dhr_printf
dhr_printf-length fmt args out count h =
    of_result (print_from plain fmt args) (print_from-Counted fmt plain args) h
  where
    of_result :
        (r : Option Printed) → Counted r → (r >>= returned) ≡ some (out, count) → count ≡ length out
    of_result none c e = absurd (none-ne-some (out, count) e)
    of_result (some p) c e =
        let same = some-injective (p.out, p.count) (out, count) e in
        sym (ap (λ (t : List ℕ × ℕ). t.1) same) ∙ c ∙ ap (λ (t : List ℕ × ℕ). length t.0) same
