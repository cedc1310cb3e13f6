-- ===== src/Store/Short.antt =====
-- A section with a short name.
use ini.Base.{Bytes, arith, length, ℕ, ◌<◌, ◌≡◌}
use ini.Line.{judge_ini_file_linetype, line_section}
use ini.Line.Section.{IsBracketed, bracketed, judge_bracketed, short_part}
use ini.Memory.{World, err, format_error, ok, on_error, ◌>>=◌}
use ini.Slots.{get_index_ini_section, release_section}
use ini.Store.{init_line_section}

-- A name of fewer than two bytes in brackets, with no `]` in it and no semicolon and no `=` in the
-- line, is judged a section, but where there is a node for it `init_line_section` ends with
-- INIFILE_FORMAT_ERROR, and the node is given up.
pub init_line_section_short :
    (name r : Bytes) (w : World) (i : ℕ) (w' : World)
    → IsBracketed name r
    → length name < 2
    → get_index_ini_section w ≡ (ok i, w')
    → (judge_ini_file_linetype (bracketed name r) ≡ line_section)
      × (init_line_section (bracketed name r) w ≡ (err format_error, release_section i w'))
unfolding init_line_section on_error ◌>>=◌
init_line_section_short name r w i w' h short taken =
    (judge_bracketed name r h, ground (arith, short_part name r h short))
