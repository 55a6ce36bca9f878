-- ===== src/Log/Heading.antt =====
-- The parts that `log_core` of log/log.c prints before the message, and how long they can be.
use utils_modules.Base.{
  ℕ, zero, suc, ◌+◌, ◌-◌, ◌/◌, ◌%◌, ◌≤◌, ◌≡◌, refl, arith, List, [], ◌∷◌, ◌++◌, ltb, if◌then◌else◌,
  length, get_or, replicate, length-append, length-replicate, All, Bool-cases, inl, inr,
}
use utils_modules.Log.{
  Log, Scene, parts_of, decimal, field_of, zeroed, spaced, level_texts, wdays, func_name, has,
  get_indent,
}
use utils_modules.Log.Lines.{texts, Short, length-texts}

length-decimal : (fuel n : ℕ) → length (decimal fuel n) ≤ fuel
unfolding decimal
length-decimal zero n = omega arith
length-decimal (suc fuel) n = elim (Bool-cases (ltb n 10)) [
  | inl small ↦ rw small (omega arith)
  | inr large ↦ rw large (
      omega (
        arith,
        length-decimal fuel (n / 10),
        length-append (decimal fuel (n / 10)) ((48 + n % 10) ∷ []),
      ))
]

length-field_of :
    (width fill bound : ℕ) (text : List ℕ)
    → width ≤ bound
    → length text ≤ bound
    → length (field_of width fill text) ≤ bound
unfolding field_of
length-field_of width fill bound text h k = omega (
  arith,
  length-append (replicate (width - length text) fill) text,
  length-replicate (width - length text) fill,
)

length-get_or :
    (bound i : ℕ) (xs : List (List ℕ))
    → All (λ t. length t ≤ bound) xs
    → length (get_or xs i []) ≤ bound
length-get_or bound i [] h = omega arith
length-get_or bound zero (x ∷ xs) h = h.0
length-get_or bound (suc i) (x ∷ xs) h = length-get_or bound i xs (h.1)

-- A number in a field of at most 20 characters.
length-number : (width fill n : ℕ) → width ≤ 20 → length (field_of width fill (decimal 20 n)) ≤ 20
length-number width fill n h = length-field_of width fill 20 (decimal 20 n) h (length-decimal 20 n)

-- The parts are short, if the name of the file is not long.
pub parts_of-Short :
    (l : Log) (s : Scene) (level : ℕ) → length s.file ≤ 200 → All (Short 250) (parts_of l s level)
unfolding parts_of
parts_of-Short l s level h =
    let two : (n : ℕ) → length (zeroed 2 n) ≤ 20 = λ n. length-number 2 48 n (omega arith) in
    let three : (n : ℕ) → length (zeroed 3 n) ≤ 20 = λ n. length-number 3 48 n (omega arith) in
    let eight : (n : ℕ) → length (spaced 8 n) ≤ 20 = λ n. length-number 8 32 n (omega arith) in
    let line : List ℕ = zeroed 3 s.line ++ (93 ∷ []) in
    (
      λ len. length-get_or 250 level level_texts (
          (
            omega arith,
            (
              omega arith,
              (omega arith, (omega arith, (omega arith, (omega arith, (omega arith, tt))))),
            ),
          )),
      (
        λ len. length-get_or 250 s.wday wdays (
            (
              omega arith,
              (
                omega arith,
                (omega arith, (omega arith, (omega arith, (omega arith, (omega arith, tt))))),
              ),
            )),
        (
          λ len. ground (arith, length-decimal 20 s.year),
          (
            λ len. omega (arith, two s.mon),
            (
              λ len. omega (arith, two s.day),
              (
                λ len. omega (
                  arith,
                  two s.hour,
                  two s.minute,
                  two s.sec,
                  length-append (zeroed 2 s.hour)
                      (58 ∷ (zeroed 2 s.minute ++ (58 ∷ zeroed 2 s.sec))),
                  length-append (zeroed 2 s.minute) (58 ∷ zeroed 2 s.sec),
                ),
                (
                  λ len. omega (arith, three s.msec, length-append (zeroed 3 s.msec) (32 ∷ [])),
                  (
                    λ len. omega (
                      arith,
                      h,
                      three s.line,
                      length-field_of 14 32 200 s.file (omega arith) h,
                      length-field_of 16 32 16 func_name (omega arith) (omega arith),
                      length-append (zeroed 3 s.line) (93 ∷ []),
                      length-append (field_of 16 32 func_name) (35 ∷ line),
                      length-append (field_of 14 32 s.file)
                          (58 ∷ (field_of 16 32 func_name ++ (35 ∷ line))),
                    ),
                    (
                      λ len. omega (
                        arith,
                        eight s.thread_id,
                        length-append (spaced 8 s.thread_id) (93 ∷ []),
                      ),
                      (
                        λ len. omega (
                          arith,
                          eight s.process_id,
                          length-append (spaced 8 s.process_id) (93 ∷ []),
                        ),
                        (λ len. omega arith, (λ len. omega arith, tt)),
                      ),
                    ),
                  ),
                ),
              ),
            ),
          ),
        ),
      ),
    )

-- The text before the message.
abbrev pub heading : Log → Scene → ℕ → List ℕ
heading l s level =
    texts (parts_of l s level) [] ++ replicate (if has l 0x4000 then get_indent s else 0) 46

pub length-parts_of : (l : Log) (s : Scene) (level : ℕ) → length (parts_of l s level) ≡ 12
unfolding parts_of
length-parts_of l s level = refl

pub length-heading :
    (l : Log) (s : Scene) (level : ℕ) → length s.file ≤ 200 → length (heading l s level) ≤ 3080
unfolding parts_of get_indent
length-heading l s level h =
    let indent : ℕ = if has l 0x4000 then get_indent s else 0 in
    let bounded : indent ≤ 80 = ground arith in
    omega (
      arith,
      bounded,
      length-texts 250 (parts_of l s level) [] (parts_of-Short l s level h),
      length-append (texts (parts_of l s level) []) (replicate indent 46),
      length-replicate {A = ℕ} indent 46,
    )
