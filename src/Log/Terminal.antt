-- ===== src/Log/Terminal.antt =====
-- The colours of log/log.c, and what `log_write` prints. A level is a number from 0 on.
use utils_modules.Base.{
  ℕ, zero, suc, ◌+◌, ◌-◌, ◌*◌, ◌/◌, ◌%◌, ◌<◌, ◌≡◌, refl, ap, ap₂, ◌∙◌, arith, bit_and, true, List,
  [], ◌∷◌, ◌++◌, if◌then◌else◌, ◌==◌,
}
use utils_modules.Log.{Log, has}

-- `LOG_COLOR_0` to `LOG_COLOR_6`, and `LOG_COLOR_77`.
pub record Colors : Type 0 where
  pub color_0 : ℕ
  pub color_1 : ℕ
  pub color_2 : ℕ
  pub color_3 : ℕ
  pub color_4 : ℕ
  pub color_5 : ℕ
  pub color_6 : ℕ
  pub color_77 : ℕ

-- `mdl_log_set_color`.
unfoldable pub set_color : Colors → ℕ → ℕ → Colors
set_color cs level color =
    if level == 0
    then record cs { color_0 = color }
    else if level == 1
    then record cs { color_1 = color }
    else if level == 2
    then record cs { color_2 = color }
    else if level == 3
    then record cs { color_3 = color }
    else if level == 4
    then record cs { color_4 = color }
    else if level == 5
    then record cs { color_5 = color }
    else if level == 6
    then record cs { color_6 = color }
    else if level == 77
    then record cs { color_77 = color }
    else cs

-- `mdl_log_get_color`.
unfoldable pub get_color : Colors → ℕ → ℕ
get_color cs level =
    if level == 0
    then cs.color_0
    else if level == 1
    then cs.color_1
    else if level == 2
    then cs.color_2
    else if level == 3
    then cs.color_3
    else if level == 4
    then cs.color_4
    else if level == 5
    then cs.color_5
    else if level == 6
    then cs.color_6
    else cs.color_77

-- `strcat` of what stands for a color, without its bright bit.
unfoldable pub ansi_text : List ℕ → ℕ → List ℕ
ansi_text start color =
    if color == 0
    then start ++ (48 ∷ 109 ∷ [])
    else if color == 2
    then start ++ (49 ∷ 109 ∷ [])
    else if color == 4
    then start ++ (50 ∷ 109 ∷ [])
    else if color == 1
    then start ++ (52 ∷ 109 ∷ [])
    else if color == 6
    then start ++ (51 ∷ 109 ∷ [])
    else if color == 3
    then start ++ (53 ∷ 109 ∷ [])
    else if color == 5
    then start ++ (54 ∷ 109 ∷ [])
    else if color == 7
    then start ++ (55 ∷ 109 ∷ [])
    else 27 ∷ 91 ∷ 48 ∷ 48 ∷ 109 ∷ []

-- `term_set_color`: what it puts on the terminal. Where `TERM_COLOR_BRIGHT` is set, `^` takes it off.
unfoldable pub term_set_color : ℕ → List ℕ
term_set_color color =
    if bit_and color 8 == 0
    then ansi_text (27 ∷ 91 ∷ 48 ∷ 48 ∷ 59 ∷ 51 ∷ []) color
    else ansi_text (27 ∷ 91 ∷ 48 ∷ 49 ∷ 59 ∷ 51 ∷ []) (color - 8)

-- "%s": the characters before the zero.
unfoldable pub c_string : List ℕ → List ℕ
c_string [] = []
c_string (c ∷ cs) = let rest : List ℕ = c_string cs in if c == 0 then [] else c ∷ rest

-- `log_write`, with `log_term_set_color` and `log_term_restore_color`: what it prints.
unfoldable pub log_write : Log → Colors → ℕ → List ℕ → List ℕ
log_write l cs level buffer =
    if has l 0x0400
    then term_set_color (get_color cs level)
      ++ (c_string buffer ++ term_set_color (get_color cs 77))
    else c_string buffer

-- The escape sequence of a color by its bits: whether it is bright, and red, green and blue as the
-- terminal counts them.
abbrev pub escape : ℕ → List ℕ
escape c =
    27
    ∷ 91
    ∷ 48
    ∷ (48 + c / 8 % 2)
    ∷ 59
    ∷ 51
    ∷ (48 + (c / 2 % 2 + 2 * (c / 4 % 2) + 4 * (c % 2)))
    ∷ 109
    ∷ []

-- A property of the numbers below a bound, one after the other.
abbrev Upto : ℕ → (ℕ → Type 0) → Type 0
Upto zero P = Unit
Upto (suc n) P = P 0 × Upto n (λ k. P (suc k))

each_below : (n : ℕ) (P : ℕ → Type 0) → Upto n P → (k : ℕ) → k < n → P k
each_below zero P h k lt = absurd (omega arith)
each_below (suc n) P h zero lt = h.0
each_below (suc n) P h (suc k) lt = each_below n (λ i. P (suc i)) (h.1) k (omega arith)

all_colors : Upto 16 (λ c. term_set_color c ≡ escape c)
unfolding term_set_color ansi_text
all_colors = (
  refl,
  (
    refl,
    (
      refl,
      (
        refl,
        (
          refl,
          (
            refl,
            (refl, (refl, (refl, (refl, (refl, (refl, (refl, (refl, (refl, (refl, tt)))))))))),
          ),
        ),
      ),
    ),
  ),
)

term_set_color-escape : (c : ℕ) → c < 16 → term_set_color c ≡ escape c
term_set_color-escape = each_below 16 (λ c. term_set_color c ≡ escape c) all_colors

-- A color that is set is the one that is got, and the color of the terminal stays.
abbrev IsGot : Colors → ℕ → ℕ → Type 0
IsGot cs c level =
    (get_color (set_color cs level c) level ≡ c)
    × (get_color (set_color cs level c) 77 ≡ cs.color_77)

set_color-IsGot : (cs : Colors) (level c : ℕ) → level < 7 → IsGot cs c level
unfolding get_color set_color
set_color-IsGot cs level c =
    each_below 7 (IsGot cs c)
      (
        (refl, refl),
        (
          (refl, refl),
          ((refl, refl), ((refl, refl), ((refl, refl), ((refl, refl), ((refl, refl), tt))))),
        ),
      )
      level

-- After the color of one of the levels 0 to 6 was set, where the colors are on and have no other bits
-- than the four, `log_write` of that level prints the escape sequence of the color, the characters of
-- the buffer before its zero, and the escape sequence of the color of the terminal.
pub log_write_lem :
    (l : Log) (cs : Colors) (level c : ℕ) (buffer : List ℕ)
    → has l 0x0400 ≡ true
    → level < 7
    → c < 16
    → cs.color_77 < 16
    → log_write l (set_color cs level c) level buffer
      ≡ escape c ++ (c_string buffer ++ escape cs.color_77)
unfolding log_write
log_write_lem l cs level c buffer on h hc h77 =
    let first : term_set_color (get_color (set_color cs level c) level) ≡ escape c =
      ap term_set_color ((set_color-IsGot cs level c h).0) ∙ term_set_color-escape c hc in
    let last : term_set_color (get_color (set_color cs level c) 77) ≡ escape cs.color_77 =
      ap term_set_color ((set_color-IsGot cs level c h).1)
      ∙ term_set_color-escape cs.color_77 h77 in
    rw on (ap₂ (λ x y. x ++ (c_string buffer ++ y)) first last)
