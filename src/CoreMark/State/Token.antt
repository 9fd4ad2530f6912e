-- ===== src/CoreMark/State/Token.antt =====
-- `core_state_transition` on a token, and the loop of `core_bench_state` over tokens.
use takshaka.Base.{
  ℕ, zero, suc, ◌≤◌, ◌≡◌, ◌≢◌, refl, sym, ap, ◌∙◌, Bool, true, false, ◌||◌, List, [], ◌∷◌, ◌++◌,
  some, arith, Bool-cases, inl, inr, ◌==◌, if◌then◌else◌, length,
}
use takshaka.CoreMark.State.{
  CoreState, start, invalid, Counts, Scan, Tally, is_invalid, next_symbol, scan,
  core_state_transition, run_tokens, count,
}
use takshaka.CoreMark.State.Format.{Format, is_numeric}
use takshaka.CoreMark.State.Automaton.{delta, next_symbol-delta, run, run-invalid, run-Format}
use takshaka.CoreMark.State.Sound.{Format-run}

-- No NUL and no comma.
abbrev pub IsToken : List ℕ → Type 0
IsToken [] = Unit
IsToken (c ∷ cs) = ((c == 0) ≡ false) × ((c == b',') ≡ false) × IsToken cs

abbrev pub is_stop : ℕ → Bool
is_stop c = c == 0 || c == b','

-- The machine steps over a comma, and stays at a NUL.
abbrev pub behind : ℕ → List ℕ → List ℕ
behind stop rest = if stop == 0 then stop ∷ rest else rest

-- What the machine does with a token and the byte that ends it.
record Scanned (s : CoreState) (t : List ℕ) (stop : ℕ) (rest : List ℕ) (tc : Counts) : Type 0 where
  scanned : Scan
  runs : scan (t ++ stop ∷ rest) s tc ≡ some scanned
  ends : scanned.state ≡ run s t
  goes_on : run s t ≢ invalid → scanned.rest ≡ behind stop rest

is_invalid_of_ne : (s : CoreState) → s ≢ invalid → is_invalid s ≡ false
is_invalid_of_ne invalid h = absurd (h refl)
is_invalid_of_ne _ h = refl

eq_of_is_invalid : (s : CoreState) → is_invalid s ≡ true → s ≡ invalid
eq_of_is_invalid invalid h = refl
eq_of_is_invalid _ h = cc

token-Scanned :
    (s : CoreState) (t : List ℕ) (stop : ℕ) (rest : List ℕ) (tc : Counts)
    → IsToken t
    → is_stop stop ≡ true
    → Scanned s t stop rest tc
unfolding scan run
token-Scanned s [] stop rest tc h p = record {
  scanned = record {
    state = s;
    counts = tc;
    rest = if stop == 0 || is_invalid s then stop ∷ rest else rest;
  };
  runs = ground arith;
  ends = refl;
  goes_on = λ ne. ground (arith, is_invalid_of_ne s);
}
token-Scanned s (c ∷ cs) stop rest tc h p = elim (Bool-cases (is_invalid s)) [
  | inl bad ↦
      let is : s ≡ invalid = eq_of_is_invalid s bad in
      let lost : run (delta s c) cs ≡ invalid =
        ap (λ (q : CoreState). run q (c ∷ cs)) is ∙ run-invalid (c ∷ cs) in
      record {
        scanned = record { state = s; counts = tc; rest = c ∷ (cs ++ stop ∷ rest) };
        runs = ground arith;
        ends = is ∙ sym lost;
        goes_on = λ ne. absurd (ne lost);
      }
  | inr good ↦
      let next = next_symbol s c tc in
      let ih = token-Scanned next.0 cs stop rest next.1 h.2 p in
      let same : run next.0 cs ≡ run (delta s c) cs =
        ap (λ (q : CoreState). run q cs) (next_symbol-delta s c tc) in
      record {
        scanned = ih.scanned;
        runs = rw (h.0, h.1, good) ih.runs;
        ends = ih.ends ∙ same;
        goes_on = λ ne. ih.goes_on (λ e. ne (sym same ∙ e));
      }
]

module _ (t rest : List ℕ) (stop : ℕ) (tc : Counts) (token : IsToken t)
    (ends : is_stop stop ≡ true) where
  -- A number of format `f` ends the machine in `f`, behind the whole token.
  pub core_state_transition-Format :
      (f : CoreState)
      → is_numeric f ≡ true
      → Format f t
      → (tc' : Counts) × (core_state_transition (t ++ stop ∷ rest) tc
          ≡ some (record { state = f; counts = tc'; rest = behind stop rest }))
  unfolding core_state_transition
  core_state_transition-Format f n number =
      let s = token-Scanned start t stop rest tc token ends in
      let is : run start t ≡ f = run-Format f t number in
      let ne : run start t ≢ invalid = λ e. ground arith in
      (s.scanned.counts, ground (arith, s.runs, s.ends, s.goes_on ne))

  -- Where it ends in a numeric state, the token is a number of that format, and the machine stands
  -- behind it.
  pub Format-core_state_transition :
      (r : Scan)
      → core_state_transition (t ++ stop ∷ rest) tc ≡ some r
      → is_numeric r.state ≡ true
      → Format r.state t × (r.rest ≡ behind stop rest)
  unfolding core_state_transition
  Format-core_state_transition r e n =
      let s = token-Scanned start t stop rest tc token ends in
      let is : r ≡ s.scanned = ground (arith, s.runs) in
      let state : run start t ≡ r.state = ground (arith, s.ends) in
      let ne : run start t ≢ invalid = λ bad. ground arith in
      (Format-run r.state t state n, ground (arith, s.goes_on ne))

abbrev pub has_zero : List ℕ → Bool
has_zero [] = false
has_zero (c ∷ cs) = c == 0 || has_zero cs

record Progress (cs : List ℕ) (s : CoreState) (tc : Counts) : Type 0 where
  scanned : Scan
  runs : scan cs s tc ≡ some scanned
  shorter : length scanned.rest ≤ length cs
  zero_left : has_zero scanned.rest ≡ true

scan-Progress : (cs : List ℕ) (s : CoreState) (tc : Counts) → has_zero cs ≡ true → Progress cs s tc
unfolding scan
scan-Progress [] s tc h = cc
scan-Progress (c ∷ cs) s tc h = elim (Bool-cases (c == 0 || is_invalid s)) [
  | inl stop ↦ record {
    scanned = record { state = s; counts = tc; rest = c ∷ cs };
    runs = rw stop;
    shorter = omega arith;
    zero_left = h;
  }
  | inr on ↦ elim (Bool-cases (c == b',')) [
    | inl comma ↦ record {
      scanned = record { state = s; counts = tc; rest = cs };
      runs = rw (on, comma);
      shorter = omega arith;
      zero_left = ground arith;
    }
    | inr other ↦
        let next = next_symbol s c tc in
        let ih = scan-Progress cs next.0 next.1 (ground arith) in
        record {
          scanned = ih.scanned;
          runs = rw (on, other) ih.runs;
          shorter = omega (arith, ih.shorter);
          zero_left = ih.zero_left;
        }
  ]
]

-- The first byte of a token is always read.
first-Progress :
    (c : ℕ) (cs : List ℕ) (tc : Counts)
    → (c == 0) ≡ false
    → has_zero (c ∷ cs) ≡ true
    → (r : Scan) × (core_state_transition (c ∷ cs) tc ≡ some r)
      × (length r.rest ≤ length cs)
      × (has_zero r.rest ≡ true)
unfolding core_state_transition scan
first-Progress c cs tc nz h = elim (Bool-cases (c == b',')) [
  | inl comma ↦
      (record { state = start; counts = tc; rest = cs }, rw (nz, comma), omega arith, ground arith)
  | inr other ↦
      let next = next_symbol start c tc in
      let on = scan-Progress cs next.0 next.1 (ground arith) in
      (on.scanned, rw (nz, other) on.runs, on.shorter, on.zero_left)
]

-- In memory that holds a NUL the loop over tokens ends, and reads no further than that NUL.
pub run_tokens_total :
    (fuel : ℕ) (p : List ℕ) (t : Tally)
    → has_zero p ≡ true
    → length p ≤ fuel
    → (t' : Tally) × (run_tokens fuel p t ≡ some t')
unfolding run_tokens
run_tokens_total zero [] t h le = cc
run_tokens_total zero (c ∷ cs) t h le = absurd (omega arith)
run_tokens_total (suc fuel) [] t h le = cc
run_tokens_total (suc fuel) (c ∷ cs) t h le = elim (Bool-cases (c == 0)) [
  | inl done ↦ (t, rw (done, run_tokens))
  | inr more ↦
      let (r, runs, shorter, left) = first-Progress c cs t.track more h in
      let t' : Tally = record { track = r.counts; final = count t.final r.state } in
      let (out, e) = run_tokens_total fuel r.rest t' left (omega arith) in
      (out, rw (more, runs, run_tokens) e)
]
