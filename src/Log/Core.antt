-- ===== src/Log/Core.antt =====
-- What `log_core` of log/log.c hands to the writer, and what it leaves.
use utils_modules.Base.{
  ℕ, ◌+◌, ◌-◌, ◌≤◌, ◌<◌, ◌≡◌, refl, sym, ap, ◌∙◌, arith, List, [], ◌∷◌, ◌++◌, Option, none, some,
  Bool, false, ltb, leb, ◌==◌, if◌then◌else◌, ◌>>=◌, length, take, replicate, length-append,
  length-take, length-replicate, Bool-cases, inl, inr, ◌&&◌, ◌||◌, append-nil,
}
use utils_modules.Log.{
  Log, Scene, Line, empty_buffer, log_max_size, print, print_parts, print_indent, end_line,
  parts_of, has, get_indent, log_core, suspend_logging, resume_logging, is_logging_suspended,
}
use utils_modules.Log.Lines.{
  empty-padded, padded, print-padded, print-room, texts, print_parts-padded, print_indent-padded,
  end_line-room, end_line-cut,
}
use utils_modules.Log.Heading.{parts_of-Short, heading, length-parts_of, length-heading}

-- A heading, a message and a newline if they fit, or the part that fits with the length of all.
abbrev pub fitted : Bool → List ℕ → List ℕ → Line
fitted newline head message =
    let text : List ℕ = head ++ message in
    let ended : List ℕ = text ++ (if newline then 10 ∷ [] else []) in
    if ltb (length text) (log_max_size - 1)
    then (padded ended, length ended)
    else (padded (head ++ take (log_max_size - 2 - length head) message), length text)

-- What the writer gets.
abbrev pub sent : Log → Scene → ℕ → List ℕ → Line
sent l s level message = fitted (has l 0x0080) (heading l s level) message

print_parts-all :
    (l : Log) (s : Scene) (level : ℕ)
    → length s.file ≤ 200
    → print_parts (parts_of l s level) (empty_buffer, 0)
      ≡ some (padded (texts (parts_of l s level) []), length (texts (parts_of l s level) []))
print_parts-all l s level h = rw empty-padded (
    print_parts-padded 250 (parts_of l s level) [] (parts_of-Short l s level h)
      (omega (arith, length-parts_of l s level)))

-- The heading, with its indent, in the buffer.
print_heading :
    (l : Log) (s : Scene) (level : ℕ) (k : Line → Option (Log × Option (ℕ × Line)))
    → length s.file ≤ 200
    → print_parts (parts_of l s level) (empty_buffer, 0) >>= (λ headed.
      (if ltb 0 (if has l 0x4000 then get_indent s else 0)
        then print_indent (if has l 0x4000 then get_indent s else 0) headed
        else some headed)
      >>= k)
      ≡ k (padded (heading l s level), length (heading l s level))
print_heading l s level k h =
    let indent : ℕ = if has l 0x4000 then get_indent s else 0 in
    let text : List ℕ = texts (parts_of l s level) [] in
    let room : length text + indent < log_max_size = omega (
      arith,
      length-heading l s level h,
      length-append text (replicate indent 46),
      length-replicate {A = ℕ} indent 46,
    ) in
    rw (print_parts-all l s level h) (elim (Bool-cases (ltb 0 indent)) [
      | inl some_indent ↦ rw some_indent (rw (print_indent-padded text indent room) refl)
      | inr no_indent ↦
          let none_left : [] ≡ replicate indent 46 =
            let zero_left : 0 ≡ indent = ground arith in ap (λ n. replicate n 46) zero_left in
          rw no_indent (
            ap (λ t. k (padded t, length t))
              (sym (append-nil text) ∙ ap (λ t. text ++ t) none_left))
    ])

print_message :
    (newline : Bool) (head message : List ℕ) (k : Line → Option (Log × Option (ℕ × Line)))
    → length head + 1 < log_max_size
    → print message (padded head, length head) >>= (λ printed. k (end_line newline printed))
      ≡ k (fitted newline head message)
print_message newline head message k h =
    let joined = length-append head message in
    let kept = take (log_max_size - 2 - length head) message in
    elim (Bool-cases (ltb (length (head ++ message)) (log_max_size - 1))) [
      | inl fits ↦
          let room : length (head ++ message) + 1 < log_max_size = ground arith in
          rw fits (
            rw (print-room head message (omega (arith, joined)))
              (ap k (end_line-room newline (head ++ message) room)))
      | inr cut ↦
          let long : log_max_size ≤ length head + length message + 1 = ground (arith, joined) in
          let short : length (head ++ kept) < log_max_size = omega (
            arith,
            length-append head kept,
            length-take (log_max_size - 2 - length head) message,
          ) in
          rw cut (
            rw (print-padded head message h) (
              ap k (
                end_line-cut newline (head ++ kept) (length head + length message) short long
                ∙ ap (λ n. (padded (head ++ kept), n)) (sym joined))))
    ]

-- A suspended log prints the same parts.
parts_of-quiet :
    (l : Log) (s : Scene) (level : ℕ)
    → parts_of (record l { max_level = 0 }) s level ≡ parts_of l s level
unfolding parts_of
parts_of-quiet l s level = refl

resume-suspend :
    (l : Log) → 0 < l.max_level → resume_logging l.max_level (record l { max_level = 0 }) ≡ l
unfolding resume_logging
resume-suspend l on = let set : (l.max_level == 0) ≡ false = ground arith in rw set refl

-- `log_core` of a message of a level that is on, which is not the level 0 alone, leaves the log, and
-- the writer, if there is one, gets the heading, the message and the newline if they fit; of a longer
-- line it gets the part that fits, with the length of all. The name of the file has at most 200
-- characters.
pub log_core_lem :
    (l : Log) (s : Scene) (level : ℕ) (message : List ℕ)
    → 0 < l.max_level
    → level ≤ l.max_level
    → level < 7
    → length s.file ≤ 200
    → log_core l s level message
      ≡ some (l, if l.writer then some (level, sent l s level message) else none)
unfolding log_core suspend_logging is_logging_suspended
log_core_lem l s level message on loud known h =
    let heard : (ltb l.max_level level || (l.max_level == 0)) ≡ false = ground arith in
    let inside : (has l 0x0800 && leb 7 level) ≡ false = ground arith in
    let hand : Line → Option (Log × Option (ℕ × Line)) =
      λ line. some (l, if l.writer then some (level, line) else none) in
    rw heard (
      rw inside (
        rw (parts_of-quiet l s level) (
          rw (resume-suspend l on) (
            print_heading l s level
              (λ indented.
                print message indented >>= (λ printed. hand (end_line (has l 0x0080) printed)))
              h
            ∙ print_message (has l 0x0080) (heading l s level) message hand
                (omega (arith, length-heading l s level h))))))
