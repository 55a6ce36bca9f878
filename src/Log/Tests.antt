-- ===== src/Log/Tests.antt =====
-- A run of `log_core`.
use utils_modules.Base.{ℕ, ◌≡◌, refl, arith, ◌++◌, List, [], ◌∷◌, some, none, true, if◌then◌else◌}
use utils_modules.Log.{Log, Scene, parts_of, decimal, field_of, get_indent, log_core}
use utils_modules.Log.Lines.{texts}
use utils_modules.Log.Core.{sent, log_core_lem}
use utils_modules.Log.Terminal.{
  Colors, set_color, get_color, term_set_color, ansi_text, c_string, log_write, escape,
  log_write_lem,
}
use utils_modules.Log.Heading.{heading}

-- The level text, the day, the hour, the indent and the newline.
abbrev settings : Log
settings = record { max_level = 6; decor = 0x4899; writer = true }

abbrev noon : Scene
noon = record {
  wday = 4;
  day = 26;
  mon = 11;
  year = 2026;
  sec = 9;
  minute = 5;
  hour = 12;
  msec = 7;
  file = 108 ∷ 111 ∷ 103 ∷ 46 ∷ 99 ∷ [];
  line = 544;
  thread_id = 71;
  process_id = 70;
  raw_indent = 2;
}

-- "ERROR:Thu-26 12:05:09 ..".
heading_test :
    heading settings noon 1
    ≡ 69 ∷ 82 ∷ 82 ∷ 79 ∷ 82 ∷ 58 ∷ 84 ∷ 104 ∷ 117 ∷ 45 ∷ 50 ∷ 54 ∷ 32 ∷ 49 ∷ 50 ∷ 58 ∷ 48 ∷ 53 ∷ 58
      ∷ 48 ∷ 57 ∷ 32 ∷ 46 ∷ 46 ∷ []
unfolding texts parts_of decimal field_of get_indent
heading_test = refl

abbrev greeting : List ℕ
greeting = 104 ∷ 105 ∷ []

log_core_lem_example :
    log_core settings noon 1 greeting
    ≡ some (settings, if settings.writer then some (1, sent settings noon 1 greeting) else none)
log_core_lem_example =
    log_core_lem settings noon 1 greeting (omega arith) (omega arith) (omega arith) (omega arith)

-- The text "no" in red on a white terminal.
abbrev colors : Colors
colors = record {
  color_0 = 10;
  color_1 = 10;
  color_2 = 14;
  color_3 = 15;
  color_4 = 7;
  color_5 = 7;
  color_6 = 7;
  color_77 = 7;
}

abbrev colored : Log
colored = record { max_level = 6; decor = 0x0400; writer = true }

log_write_lem_example :
    log_write colored (set_color colors 4 2) 4 (110 ∷ 111 ∷ 0 ∷ 111 ∷ [])
    ≡ escape 2 ++ (c_string (110 ∷ 111 ∷ 0 ∷ 111 ∷ []) ++ escape 7)
log_write_lem_example =
    log_write_lem colored colors 4 2 (110 ∷ 111 ∷ 0 ∷ 111 ∷ []) refl (omega arith) (omega arith)
      (omega arith)

shows_red :
    log_write colored (set_color colors 4 2) 4 (110 ∷ 111 ∷ 0 ∷ 111 ∷ [])
    ≡ 27 ∷ 91 ∷ 48 ∷ 48 ∷ 59 ∷ 51 ∷ 49 ∷ 109 ∷ 110 ∷ 111 ∷ 27 ∷ 91 ∷ 48 ∷ 48 ∷ 59 ∷ 51 ∷ 55 ∷ 109
      ∷ []
unfolding log_write set_color get_color term_set_color ansi_text c_string
shows_red = refl
