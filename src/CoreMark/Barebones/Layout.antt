-- ===== src/CoreMark/Barebones/Layout.antt =====
-- How `number` of coremark/src/barebones/ee_printf.c lays out a number in its field.
use takshaka.Base.{
  ℕ, zero, suc, ◌+◌, ◌-◌, ◌≡◌, refl, sym, ap, ◌∙◌, ltb, Bool, true, false, not, ◌&&◌, ◌||◌,
  if◌then◌else◌, List, [], ◌∷◌, ◌++◌, length, length-append, replicate, length-replicate,
  append-nil, append_assoc, arith,
}
use takshaka.CoreMark.Barebones.{digits}

abbrev greater : ℕ → ℕ → ℕ
greater a b = if ltb a b then b else a

-- The zeros before the digits: those of the precision, or with a field that is filled with zeros those
-- that fill it too.
abbrev pub zeros : (zeropad left : Bool) (size precision signs digits : ℕ) → ℕ
zeros zeropad left size precision signs digits =
    (if zeropad && not left then greater precision (size - signs) else precision) - digits

-- What `number` puts together.
abbrev pub assembled : (zeropad left : Bool) (size precision : ℕ) (sign pre tmp : List ℕ) → List ℕ
assembled zeropad left size precision sign pre tmp =
    let c = if zeropad && not left then b'0' else b' ' in
    let i = length tmp in
    let least = if ltb precision i then i else precision in
    let room = size - length sign - length pre - least in
    let spaces = if not ((zeropad && not left) || left) then room else 0 in
    let pads = if not left then room - spaces else 0 in
    replicate spaces b' '
    ++ (sign
        ++ (pre
            ++ (replicate pads c
                ++ (replicate (least - i) b'0' ++ (tmp ++ replicate (room - spaces - pads) b' ')))))

replicate-add {ℓ} :
    {A : Type ℓ} (a : A) (m n k : ℕ) → k ≡ m + n → replicate k a ≡ replicate m a ++ replicate n a
replicate-add a zero n k e = ap (λ (t : ℕ). replicate t a) (omega (arith, e))
replicate-add a (suc m) n zero e = absurd (omega arith)
replicate-add a (suc m) n (suc k) e = ap (λ t. a ∷ t) (replicate-add a m n k (omega arith))

-- The digits with their sign and zeros.
abbrev pub body : (sign pre : List ℕ) (zeros : ℕ) (text : List ℕ) → List ℕ
body sign pre zeros text = sign ++ (pre ++ (replicate zeros b'0' ++ text))

length-body :
    (sign pre : List ℕ) (z : ℕ) (text : List ℕ)
    → length (body sign pre z text) ≡ length sign + length pre + z + length text
length-body sign pre z text =
    length-append sign (pre ++ (replicate z b'0' ++ text))
    ∙ omega (
      arith,
      length-append pre (replicate z b'0' ++ text),
      length-append (replicate z b'0') text,
      length-replicate {A = ℕ} z b'0',
    )

abbrev pub justified : (left : Bool) (size : ℕ) → List ℕ → List ℕ
justified left size text =
    if not left
    then replicate (size - length text) b' ' ++ text
    else text ++ replicate (size - length text) b' '

-- The counts of `assembled`, by the lengths of its parts.
module _ (size precision s p i : ℕ) where
  abbrev least : ℕ
  least = if ltb precision i then i else precision

  least_zeros : least - i ≡ precision - i
  least_zeros = ground arith

  left_room : size - s - p - least - 0 - 0 ≡ size - (s + p + (precision - i) + i)
  left_room = ground arith

  right_room : size - s - p - least ≡ size - (s + p + (precision - i) + i)
  right_room = ground arith

  filled_zeros : greater precision (size - (s + p)) - i ≡ (size - s - p - least - 0) + (least - i)
  filled_zeros = ground arith

  filled_room : size - (s + p + (greater precision (size - (s + p)) - i) + i) ≡ 0
  filled_room = ground arith

module _ (size precision : ℕ) (sign pre tmp : List ℕ) where
  -- A body that is written part by part, with spaces behind it.
  spaced : (z k : ℕ) → List ℕ
  spaced z k = sign ++ (pre ++ (replicate z b'0' ++ (tmp ++ replicate k b' ')))

  spaced-body : (z k : ℕ) → spaced z k ≡ body sign pre z tmp ++ replicate k b' '
  unfolding spaced
  spaced-body z k = simp append_assoc

  spaced-eq :
      {z z' k k' : ℕ} → z ≡ z' → k ≡ k' → spaced z k ≡ body sign pre z' tmp ++ replicate k' b' '
  spaced-eq {z} {z'} {k} {k'} e e' = (λ t. spaced (e t) (e' t)) ∙ spaced-body z' k'

  spaced_none : {z z' k : ℕ} → z ≡ z' → k ≡ 0 → spaced z k ≡ body sign pre z' tmp
  spaced_none {z} {z'} {k} e e' = spaced-eq e e' ∙ append-nil (body sign pre z' tmp)

  room_of :
      (z : ℕ)
      → size - length (body sign pre z tmp) ≡ size - (length sign + length pre + z + length tmp)
  room_of z = ap (λ (t : ℕ). size - t) (length-body sign pre z tmp)

  regrouped :
      (m n z : ℕ)
      → z ≡ m + n
      → sign ++ (pre ++ (replicate m b'0' ++ (replicate n b'0' ++ (tmp ++ []))))
        ≡ body sign pre z tmp
  regrouped m n z e = rw (replicate-add {A = ℕ} b'0' m n z e) (simp (append-nil, append_assoc))

  assembled_left :
      (zeropad : Bool)
      → assembled zeropad true size precision sign pre tmp
        ≡ justified true size (
            body sign pre
              (zeros zeropad true size precision (length sign + length pre) (length tmp))
              tmp)
  unfolding spaced
  assembled_left true =
      spaced-eq (least_zeros size precision (length sign) (length pre) (length tmp)) (
        left_room size precision (length sign) (length pre) (length tmp)
        ∙ sym (room_of (precision - length tmp)))
  assembled_left false =
      spaced-eq (least_zeros size precision (length sign) (length pre) (length tmp)) (
        left_room size precision (length sign) (length pre) (length tmp)
        ∙ sym (room_of (precision - length tmp)))

  assembled_right :
      assembled false false size precision sign pre tmp
      ≡ justified false size (
          body sign pre
            (zeros false false size precision (length sign + length pre) (length tmp))
            tmp)
  unfolding spaced
  assembled_right =
      let s = length sign in
      let p = length pre in
      let i = length tmp in
      let room = size - s - p - least size precision s p i in
      let no_pads : room - room ≡ 0 = omega arith in
      let no_tail : room - room - (room - room) ≡ 0 = omega arith in
      let spaces : room ≡ size - length (body sign pre (precision - i) tmp) =
        right_room size precision s p i ∙ sym (room_of (precision - i)) in
      (λ t.
        replicate (spaces t) b' '
        ++ (sign
            ++ (pre
                ++ (replicate (no_pads t) b' '
                    ++ (replicate (least_zeros size precision s p i t) b'0'
                        ++ (tmp ++ replicate (no_tail t) b' '))))))
      ∙ ap (λ (t : List ℕ). replicate (size - length (body sign pre (precision - i) tmp)) b' ' ++ t)
          (spaced_none {z = precision - i} {k = 0} refl refl)

  assembled_filled :
      assembled true false size precision sign pre tmp
      ≡ justified false size (
          body sign pre
            (zeros true false size precision (length sign + length pre) (length tmp))
            tmp)
  assembled_filled =
      let s = length sign in
      let p = length pre in
      let i = length tmp in
      let room = size - s - p - least size precision s p i in
      let z = zeros true false size precision (s + p) i in
      let tail : room - 0 - (room - 0) ≡ 0 = omega arith in
      let no_spaces : size - length (body sign pre z tmp) ≡ 0 =
        room_of z ∙ filled_room size precision s p i in
      (λ t.
        sign
        ++ (pre
            ++ (replicate (room - 0) b'0'
                ++ (replicate (least size precision s p i - i) b'0'
                    ++ (tmp ++ replicate (tail t) b' ')))))
      ∙ regrouped (room - 0) (least size precision s p i - i) z (filled_zeros size precision s p i)
      ∙ λ t. replicate (sym no_spaces t) b' ' ++ body sign pre z tmp

pub assembled-justified :
    (zeropad left : Bool) (size precision : ℕ) (sign pre tmp : List ℕ)
    → assembled zeropad left size precision sign pre tmp
      ≡ justified left size (
          body sign pre
            (zeros zeropad left size precision (length sign + length pre) (length tmp))
            tmp)
assembled-justified zeropad true size precision sign pre tmp =
    assembled_left size precision sign pre tmp zeropad
assembled-justified true false size precision sign pre tmp =
    assembled_filled size precision sign pre tmp
assembled-justified false false size precision sign pre tmp =
    assembled_right size precision sign pre tmp
