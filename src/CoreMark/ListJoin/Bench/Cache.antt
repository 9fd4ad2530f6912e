-- ===== src/CoreMark/ListJoin/Bench/Cache.antt =====
-- The cached result of `calc_func`, and the restored data of `cmp_idx`.
use takshaka.Base.{
  ℕ, ◌+◌, ◌*◌, ◌/◌, ◌%◌, ◌^◌, ◌<◌, ◌≡◌, refl, ap, ◌∙◌, sym, subst, ◌==◌, true, some, ◌>>=◌, arith,
  Bool-cases, Option-cases, inl, inr, ◌⊎◌, bit_and, bit_or, ==_iff,
}
use mathlib.Core.Option.{some-injective, none-ne-some}
use takshaka.Base.Bits.{and_mask}
use takshaka.Base.Fields.{or_low, and_above, and_comm}
use takshaka.CoreMark.Crc.{crcu16}
use takshaka.CoreMark.ListJoin.Bench.{
  CoreResults, Calculated, data_type, calculate, calc_func, rebuilt,
}

-- What `calc_func` reads of the data that it has stored.
stored_fields :
    (high low : ℕ)
    → low < 2 ^ 7
    → let stored = bit_or (bit_or (bit_and high 0xff00) 0x80) low in
      (bit_and (stored / 2 ^ 7) 1 ≡ 1) × (bit_and stored 0x7f ≡ low)
stored_fields high low h =
    let q : ℕ = bit_and (high / 2 ^ 8) 0xff in
    let stored : ℕ = bit_or (bit_or (bit_and high 0xff00) 0x80) low in
    let upper : bit_or (bit_and high 0xff00) 0x80 ≡ (2 * q + 1) * 2 ^ 7 =
      ap (λ (t : ℕ). bit_or t 0x80) (and_above 8 high 0xff)
      ∙ or_low 8 0x80 q (omega arith)
      ∙ omega arith in
    let whole : stored ≡ low + (2 * q + 1) * 2 ^ 7 =
      ap (λ (t : ℕ). bit_or t low) upper ∙ or_low 7 low (2 * q + 1) h in
    (and_mask 1 (stored / 2 ^ 7) ∙ omega (arith, whole), and_mask 7 stored ∙ omega (arith, whole))

abbrev stored_of : (high low : ℕ) → ℕ
stored_of high low = bit_or (bit_or (bit_and high 0xff00) 0x80) low

-- What `calc_func` stores is its data itself, or has the same high byte and a low byte with bit 7 set.
record Caches (item : ℕ) (c : Calculated) : Type 0 where
  low : ℕ
  narrow : low < 2 ^ 7
  shape : (c.pdata ≡ item) × (bit_and (item / 2 ^ 7) 1 ≡ 1) ⊎ (c.pdata ≡ stored_of item low)
  value : c.retval ≡ bit_and c.pdata 0x7f

narrow_mask : (x : ℕ) → bit_and x 0x7f < 2 ^ 7
narrow_mask x = omega (arith, and_mask 7 x)

calc_func-Caches :
    (item : ℕ) (res : CoreResults) (c : Calculated) → calc_func item res ≡ some c → Caches item c
unfolding calc_func
calc_func-Caches item res c h = elim (Bool-cases (bit_and (item / 2 ^ 7) 1 == 1)) [
  | inl cached ↦
      let is : record { retval = bit_and item 0x7f; pdata = item; res = res } ≡ c =
        some-injective _ c (sym (rw cached refl) ∙ h) in
      subst (Caches item) is (record {
        low = bit_and item 0x7f;
        narrow = narrow_mask item;
        shape = inl (refl, (==_iff (bit_and (item / 2 ^ 7) 1) 1).0 cached);
        value = refl;
      })
  | inr fresh ↦ elim (Option-cases (calculate (bit_and item 7) item (data_type item) res)) [
    | inl failed ↦ absurd (none-ne-some c (sym (rw (fresh, failed, ◌>>=◌) refl) ∙ h))
    | inr (r, runs) ↦
        let low : ℕ = bit_and r.0 0x7f in
        let made : Calculated = record {
          retval = low;
          pdata = stored_of item low;
          res = record r.1 { crc = crcu16 r.0 r.1.crc };
        } in
        let is : made ≡ c = some-injective made c (sym (rw (fresh, runs, ◌>>=◌) refl) ∙ h) in
        subst (Caches item) is (record {
          low = low;
          narrow = narrow_mask r.0;
          shape = inr refl;
          value = sym (stored_fields item low (narrow_mask r.0)).1;
        })
  ]
]

-- A call of `calc_func` caches: a second one on the data that it stored returns the same value and
-- changes nothing.
pub calc_func-calc_func :
    (item : ℕ) (res : CoreResults) (c : Calculated) (res' : CoreResults)
    → calc_func item res ≡ some c
    → calc_func c.pdata res' ≡ some (record { retval = c.retval; pdata = c.pdata; res = res' })
unfolding calc_func
calc_func-calc_func item res c res' h =
    let k = calc_func-Caches item res c h in
    rw (bit_set k.low k.narrow k.shape)
      (ap (λ (v : ℕ). some (record { retval = v; pdata = c.pdata; res = res' })) (sym k.value))
  where
    bit_set :
        (low : ℕ)
        → low < 2 ^ 7
        → (c.pdata ≡ item) × (bit_and (item / 2 ^ 7) 1 ≡ 1) ⊎ (c.pdata ≡ stored_of item low)
        → (bit_and (c.pdata / 2 ^ 7) 1 == 1) ≡ true
    bit_set low narrow (inl (same, set)) =
        (==_iff (bit_and (c.pdata / 2 ^ 7) 1) 1).1
          (ap (λ (t : ℕ). bit_and (t / 2 ^ 7) 1) same ∙ set)
    bit_set low narrow (inr same) =
        (==_iff (bit_and (c.pdata / 2 ^ 7) 1) 1).1
          (ap (λ (t : ℕ). bit_and (t / 2 ^ 7) 1) same ∙ (stored_fields item low narrow).0)

high_byte : (high low : ℕ) → low < 2 ^ 7 → stored_of high low / 2 ^ 8 % 2 ^ 8 ≡ high / 2 ^ 8 % 2 ^ 8
high_byte high low h =
    let q : ℕ = bit_and (high / 2 ^ 8) 0xff in
    let upper : bit_or (bit_and high 0xff00) 0x80 ≡ (2 * q + 1) * 2 ^ 7 =
      ap (λ (t : ℕ). bit_or t 0x80) (and_above 8 high 0xff)
      ∙ or_low 8 0x80 q (omega arith)
      ∙ omega arith in
    let whole : stored_of high low ≡ low + (2 * q + 1) * 2 ^ 7 =
      ap (λ (t : ℕ). bit_or t low) upper ∙ or_low 7 low (2 * q + 1) h in
    omega (arith, whole, and_mask 8 (high / 2 ^ 8))

rebuilt_lem : (x : ℕ) → rebuilt x ≡ x / 2 ^ 8 % 2 ^ 8 * 2 ^ 8 + x / 2 ^ 8 % 2 ^ 8
rebuilt_lem x =
    let h : ℕ = x / 2 ^ 8 in
    let low : bit_and 0xff h ≡ h % 2 ^ 8 = and_comm 0xff h ∙ and_mask 8 h in
    let high : bit_and x 0xff00 ≡ h % 2 ^ 8 * 2 ^ 8 =
      and_above 8 x 0xff ∙ ap (λ (t : ℕ). t * 2 ^ 8) (and_mask 8 h) in
    ap (bit_or (bit_and x 0xff00)) low
    ∙ ap (λ (t : ℕ). bit_or t (h % 2 ^ 8)) high
    ∙ or_low 8 (h % 2 ^ 8) (h % 2 ^ 8) (omega arith)
    ∙ omega arith

-- `cmp_idx` without results undoes the caching: it rebuilds the same data from what `calc_func` has
-- stored as from what stood there before.
pub rebuilt-calc_func :
    (item : ℕ) (res : CoreResults) (c : Calculated)
    → calc_func item res ≡ some c
    → rebuilt c.pdata ≡ rebuilt item
rebuilt-calc_func item res c h =
    let k = calc_func-Caches item res c h in
    omega (arith, rebuilt_lem c.pdata, rebuilt_lem item, same_high k.low k.narrow k.shape)
  where
    same_high :
        (low : ℕ)
        → low < 2 ^ 7
        → (c.pdata ≡ item) × (bit_and (item / 2 ^ 7) 1 ≡ 1) ⊎ (c.pdata ≡ stored_of item low)
        → c.pdata / 2 ^ 8 % 2 ^ 8 ≡ item / 2 ^ 8 % 2 ^ 8
    same_high low narrow (inl (same, _)) = ap (λ (t : ℕ). t / 2 ^ 8 % 2 ^ 8) same
    same_high low narrow (inr same) =
        ap (λ (t : ℕ). t / 2 ^ 8 % 2 ^ 8) same ∙ high_byte item low narrow
