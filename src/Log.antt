-- ===== src/Log.antt =====
-- log/log.c: the line that `log_core` puts together in its buffer and hands to the writer. Characters
-- stand as their codes; `HAS_THREADS` is not defined by any file of the repository, so it is 0.
pub mod Lines
pub mod Heading
pub mod Core
pub mod Terminal
mod Tests
use utils_modules.Base.{
  ℕ, zero, suc, ◌+◌, ◌-◌, ◌/◌, ◌%◌, min, bit_and, List, [], ◌∷◌, ◌++◌, Option, none, some, Bool,
  true, false, not, ◌&&◌, ◌||◌, ltb, leb, ◌==◌, if◌then◌else◌, ◌>>=◌, length, get_or, take,
  replicate,
}
use utils_modules.Base.Memory.{splice}

-- `log_max_level`, `log_decor` and whether `log_writer` is set.
pub record Log : Type 0 where
  pub max_level : ℕ
  pub decor : ℕ
  pub writer : Bool

-- What the system tells: the parts of `parsed_time_t`, `__FILE__`, `__LINE__`, the ids of the thread and the
-- process, and the indent of the thread, where a negative one stands as 0.
pub record Scene : Type 0 where
  pub wday : ℕ
  pub day : ℕ
  pub mon : ℕ
  pub year : ℕ
  pub sec : ℕ
  pub minute : ℕ
  pub hour : ℕ
  pub msec : ℕ
  pub file : List ℕ
  pub line : ℕ
  pub thread_id : ℕ
  pub process_id : ℕ
  pub raw_indent : ℕ

-- The text of a number in "%d", of at most `fuel` digits.
unfoldable pub decimal : ℕ → ℕ → List ℕ
decimal zero n = []
decimal (suc fuel) n =
    let rest : List ℕ = decimal fuel (n / 10) in
    if ltb n 10 then (48 + n) ∷ [] else rest ++ ((48 + n % 10) ∷ [])

-- A text in a field of a width.
unfoldable pub field_of : ℕ → ℕ → List ℕ → List ℕ
field_of width fill text = replicate (width - length text) fill ++ text

-- "%d" of an int or a long, and "%0wd", "%wd".
abbrev pub shown : ℕ → List ℕ
shown n = decimal 20 n

abbrev pub zeroed : ℕ → ℕ → List ℕ
zeroed width n = field_of width 48 (shown n)

abbrev pub spaced : ℕ → ℕ → List ℕ
spaced width n = field_of width 32 (shown n)

-- `LOG_MAX_SIZE`.
abbrev pub log_max_size : ℕ
log_max_size = 4000

-- `log_buffer` at the start.
unfoldable pub empty_buffer : List ℕ
empty_buffer = replicate log_max_size 0

-- The buffer and `len`.
abbrev pub Line : Type 0
Line = List ℕ × ℕ

-- `len += snprintf(log_buffer + len, max - len, ...)` of a text; `none` is a size below 0.
unfoldable pub print : List ℕ → Line → Option Line
print text (buffer, len) =
    if ltb (log_max_size - 1) len
    then none
    else if len == log_max_size - 1
    then some (buffer, len + length text)
    else some
        (splice buffer len (take (log_max_size - 2 - len) text ++ (0 ∷ [])), len + length text)

-- Whether `log_decor` has a bit.
abbrev pub has : Log → ℕ → Bool
has l bit = not (bit_and l.decor bit == 0)

-- A part of the line: whether it is printed, and its text after `len` characters.
abbrev pub Part : Type 0
Part = Bool × (ℕ → List ℕ)

-- The parts in order.
unfoldable pub print_parts : List Part → Line → Option Line
print_parts [] line = some line
print_parts (part ∷ parts) line = do
  let next = if part.0 then print (part.1 (line.1)) line else some line
  after ← next
  print_parts parts after

-- `ltexts`.
abbrev pub level_texts : List (List ℕ)
level_texts =
    (70 ∷ 65 ∷ 84 ∷ 65 ∷ 76 ∷ 58 ∷ [])
    ∷ (69 ∷ 82 ∷ 82 ∷ 79 ∷ 82 ∷ 58 ∷ [])
    ∷ (32 ∷ 87 ∷ 65 ∷ 82 ∷ 78 ∷ 58 ∷ [])
    ∷ (32 ∷ 73 ∷ 78 ∷ 70 ∷ 79 ∷ 58 ∷ [])
    ∷ (68 ∷ 69 ∷ 66 ∷ 85 ∷ 71 ∷ 58 ∷ [])
    ∷ (84 ∷ 82 ∷ 65 ∷ 67 ∷ 69 ∷ 58 ∷ [])
    ∷ (68 ∷ 69 ∷ 84 ∷ 82 ∷ 67 ∷ 58 ∷ [])
    ∷ []

-- `wdays`.
abbrev pub wdays : List (List ℕ)
wdays =
    (83 ∷ 117 ∷ 110 ∷ [])
    ∷ (77 ∷ 111 ∷ 110 ∷ [])
    ∷ (84 ∷ 117 ∷ 101 ∷ [])
    ∷ (87 ∷ 101 ∷ 100 ∷ [])
    ∷ (84 ∷ 104 ∷ 117 ∷ [])
    ∷ (70 ∷ 114 ∷ 105 ∷ [])
    ∷ (83 ∷ 97 ∷ 116 ∷ [])
    ∷ []

-- `__func__` in `log_core`.
abbrev pub func_name : List ℕ
func_name = 108 ∷ 111 ∷ 103 ∷ 95 ∷ 99 ∷ 111 ∷ 114 ∷ 101 ∷ []

-- The parts that `log_core` prints before the indent.
unfoldable pub parts_of : Log → Scene → ℕ → List Part
parts_of l s level =
    (has l 0x0800, λ len. get_or level_texts level [])
    ∷ (has l 0x0001, λ len. get_or wdays s.wday [])
    ∷ (has l 0x0002, λ len. if len == 0 then shown s.year else 32 ∷ shown s.year)
    ∷ (has l 0x0004, λ len. 45 ∷ zeroed 2 s.mon)
    ∷ (has l 0x0008, λ len. 45 ∷ zeroed 2 s.day)
    ∷ (
      has l 0x0010,
      λ len. 32 ∷ (zeroed 2 s.hour ++ (58 ∷ (zeroed 2 s.minute ++ (58 ∷ zeroed 2 s.sec)))),
    )
    ∷ (has l 0x0020, λ len. 46 ∷ (zeroed 3 s.msec ++ (32 ∷ [])))
    ∷ (
      has l 0x0040,
      λ len.
          32
          ∷ 91
          ∷ (field_of 14 32 s.file
              ++ (58 ∷ (field_of 16 32 func_name ++ (35 ∷ (zeroed 3 s.line ++ (93 ∷ [])))))),
    )
    ∷ (has l 0x1000, λ len. 32 ∷ 91 ∷ (spaced 8 s.thread_id ++ (93 ∷ [])))
    ∷ (has l 0x0100, λ len. 35 ∷ 91 ∷ (spaced 8 s.process_id ++ (93 ∷ [])))
    ∷ (not (l.decor == 0) && not (l.decor == 0x0080), λ len. 32 ∷ [])
    ∷ (not (has l 0x2000) && has l 0x0200, λ len. 32 ∷ [])
    ∷ []

-- `log_get_indent`, with `LOG_MAX_INDENT`.
unfoldable pub get_indent : Scene → ℕ
get_indent s = min s.raw_indent 80

-- The indent; `none` is a write behind the buffer.
unfoldable pub print_indent : ℕ → Line → Option Line
print_indent indent (buffer, len) =
    if ltb log_max_size (len + indent)
    then none
    else some (splice buffer len (replicate indent 46), len + indent)

-- What follows the message: the newline, if there is room, and the last character of the buffer.
unfoldable pub end_line : Bool → Line → Line
end_line newline (buffer, len) =
    let ended : Line =
      if leb (log_max_size - 1) len
      then (buffer, len)
      else if newline
      then (splice buffer len (10 ∷ []), len + 1)
      else (buffer, len) in
    (splice (ended.0) (log_max_size - 1) (0 ∷ []), ended.1)

-- `suspend_logging`: the level that was saved, and the log.
unfoldable pub suspend_logging : Log → ℕ × Log
suspend_logging l = (l.max_level, record l { max_level = 0 })

-- `resume_logging`.
unfoldable pub resume_logging : ℕ → Log → Log
resume_logging saved l =
    if (l.max_level == 0) && not (saved == 0) then record l { max_level = saved } else l

-- `is_logging_suspended`.
unfoldable pub is_logging_suspended : Log → Bool
is_logging_suspended l = l.max_level == 0

-- `log_core` of a message as `vsnprintf` formats it: the log, and the call of the writer with the
-- level, the buffer and `len`. `none` is an access out of the buffer or of `ltexts`.
unfoldable pub log_core : Log → Scene → ℕ → List ℕ → Option (Log × Option (ℕ × Line))
log_core l s level message =
    if ltb l.max_level level || is_logging_suspended l
    then some (l, none)
    else if has l 0x0800 && leb 7 level
    then none
    else do
      let (saved, quiet) = suspend_logging l
      headed ← print_parts (parts_of quiet s level) (empty_buffer, 0)
      let indent = if has quiet 0x4000 then get_indent s else 0
      indented ← (if ltb 0 indent then print_indent indent headed else some headed)
      printed ← print message indented
      let line = end_line (has quiet 0x0080) printed
      some (resume_logging saved quiet, if l.writer then some (level, line) else none)
