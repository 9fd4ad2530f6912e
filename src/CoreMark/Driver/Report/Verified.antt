-- ===== src/CoreMark/Driver/Report/Verified.antt =====
-- When the report says that a run is correct.
use takshaka.Base.{
  ℕ, zero, suc, ◌<◌, ◌≤◌, ◌≡◌, ◌≢◌, ◌↔◌, refl, ap, sym, subst, ◌∙◌, Option, none, some, get_or,
  arith,
}
use takshaka.CoreMark.ListJoin.Bench.{CoreResults}
use takshaka.CoreMark.Port.{Sizes, check_data_types}
use takshaka.CoreMark.Driver.{
  executed, crc_error, known_errors, list_known_crc, matrix_known_crc, state_known_crc,
}
use takshaka.CoreMark.Driver.Report.{total_errors, validated, cannot_validate, verdict}

-- Every executed algorithm has the checksum that is known for these parameters.
abbrev pub Matches : CoreResults → (id : ℕ) → Type 0
Matches res id =
    (executed res.execs 0 ≡ 1 → res.crclist ≡ get_or list_known_crc id 0)
    × (executed res.execs 1 ≡ 1 → res.crcmatrix ≡ get_or matrix_known_crc id 0)
    × (executed res.execs 2 ≡ 1 → res.crcstate ≡ get_or state_known_crc id 0)

crc_error-le : (ran crc known : ℕ) → crc_error ran crc known ≤ 1
crc_error-le ran crc known = ground arith

crc_error_zero : (ran crc known : ℕ) → crc_error ran crc known ≡ 0 → ran ≡ 1 → crc ≡ known
crc_error_zero ran crc known h ran_it = ground arith

crc_error_none :
    (ran crc known : ℕ) → ran < 2 → (ran ≡ 1 → crc ≡ known) → crc_error ran crc known ≡ 0
crc_error_none zero crc known small same = refl
crc_error_none (suc zero) crc known small same = ground (arith, same refl)
crc_error_none (suc (suc n)) crc known small same = absurd (omega arith)

known_errors-le : (res : CoreResults) (id : ℕ) → known_errors res id ≤ 3
unfolding known_errors
known_errors-le res id = omega (arith, crc_error-le)

known_errors-Matches : (res : CoreResults) (id : ℕ) → (known_errors res id ≡ 0) ↔ Matches res id
unfolding known_errors
known_errors-Matches res id = (
  λ h. (
    crc_error_zero _ _ _ (omega arith),
    crc_error_zero _ _ _ (omega arith),
    crc_error_zero _ _ _ (omega arith),
  ),
  λ m. omega (
    arith,
    crc_error_none (executed res.execs 0) res.crclist (get_or list_known_crc id 0) (omega arith)
        m.0,
    crc_error_none (executed res.execs 1) res.crcmatrix (get_or matrix_known_crc id 0) (omega arith)
        m.1,
    crc_error_none (executed res.execs 2) res.crcstate (get_or state_known_crc id 0) (omega arith)
        m.2,
  ),
)

total_known :
    (res : CoreResults) (k : ℕ) (s : Sizes)
    → check_data_types s ≡ 0
    → total_errors res (some k) s ≡ known_errors res k
unfolding total_errors
total_known res k s sizes = omega (arith, known_errors-le res k)

verdict_zero : (n : ℕ) → n ≤ 3 → (verdict n ≡ validated) ↔ (n ≡ 0)
unfolding verdict
verdict_zero n small = (λ h. ground arith, λ h. ground arith)

some_inj : (a b : ℕ) → ◌≡◌ {A = Option ℕ} (some a) (some b) → a ≡ b
some_inj a b h = cc

verdict_small : (n : ℕ) → n ≤ 3 → verdict n ≢ cannot_validate
unfolding verdict
verdict_small n small h = ground arith

verdict_unknown :
    (res : CoreResults) (s : Sizes)
    → check_data_types s ≡ 0
    → verdict (total_errors res none s) ≡ cannot_validate
unfolding total_errors verdict
verdict_unknown res s sizes = rw sizes refl

-- With the right sizes of the data types, a run is validated exactly where its parameters are known and
-- every executed algorithm has the known checksum; for unknown parameters nothing is said about it.
pub verdict_correct :
    (res : CoreResults) (id : Option ℕ) (s : Sizes)
    → check_data_types s ≡ 0
    → ((verdict (total_errors res id s) ≡ validated) ↔ ((k : ℕ) × (id ≡ some k) × Matches res k))
      × ((verdict (total_errors res id s) ≡ cannot_validate) ↔ (id ≡ none))
verdict_correct res none s sizes = (
  (λ h. absurd (cc (verdict_unknown res s sizes)), λ m. absurd (cc (m.1))),
  (λ h. refl, λ h. verdict_unknown res s sizes),
)
verdict_correct res (some k) s sizes =
    let total = total_known res k s sizes in
    let exact = verdict_zero (known_errors res k) (known_errors-le res k) in
    let matches = known_errors-Matches res k in
    (
      (
        λ h. (k, refl, matches.0 (exact.0 (ap verdict (sym total) ∙ h))),
        λ m. rw total (exact.1 (matches.1 (subst (Matches res) (sym (some_inj k m.0 m.1)) m.2))),
      ),
      (
        λ h. absurd (
            verdict_small (known_errors res k) (known_errors-le res k)
              (ap verdict (sym total) ∙ h)),
        λ h. absurd (cc h),
      ),
    )
