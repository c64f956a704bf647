-- ===== src/Shell/Run.antt =====
-- src/commands/mod.rs: `run_command`, on the console. What the commands print about the machine is a
-- parameter: the text of each without its last line end.
use agnost_os.Base.{ℕ, List, [], ◌∷◌, ◌++◌, if◌then◌else◌}
use agnost_os.Commands.{
  Command, help, about, history, echo, meminfo, taskinfo, font, clear, shutdown, empty, unknown,
  uptime, codes, text_eq, parse,
}
use agnost_os.Console.{
  KWriter, RasterHeight, size16, size20, size24, size32, newline, reset, set_font_size, write_str,
}
use agnost_os.Console.Browsing.{print_history}
use agnost_os.Console.Buffer.{Buffer}

-- `args.join(" ")`.
unfoldable pub join : List (List ℕ) → List ℕ
join [] = []
join (arg ∷ []) = arg
join (arg ∷ (next ∷ args)) = arg ++ (b' ' ∷ join (next ∷ args))

-- The text of `about`.
abbrev about_text : List ℕ
about_text =
    codes "AgnostOS v0.1 - written in Rust " ++ newline ∷ codes " codeberg.com/guru901/agnostos"

abbrev usage_text : List ℕ
usage_text = codes "usage: font <16|20|24|32>"

abbrev first_or_empty : List (List ℕ) → List ℕ
first_or_empty [] = []
first_or_empty (arg ∷ args) = arg

module _ (raster_width : RasterHeight → ℕ) (info : Command → List (List ℕ) → List ℕ) where
  abbrev print : KWriter → List ℕ → KWriter
  print w s = write_str raster_width w (s ++ newline ∷ [])

  unfoldable pub set_font : KWriter → List ℕ → KWriter
  set_font w size =
      if text_eq size (codes "16")
      then set_font_size w size16
      else if text_eq size (codes "20")
      then set_font_size w size20
      else if text_eq size (codes "24")
      then set_font_size w size24
      else if text_eq size (codes "32")
      then set_font_size w size32
      else print w usage_text

  -- The machine stops at `shutdown`.
  unfoldable pub dispatch : Command → List (List ℕ) → KWriter → KWriter
  unfolding join set_font
  dispatch help args w = print w (info help args)
  dispatch about args w = print w about_text
  dispatch history args w = print_history w
  dispatch echo args w = print w (join args)
  dispatch meminfo args w = print w (info meminfo [])
  dispatch taskinfo args w = print w (info taskinfo [])
  dispatch font args w = set_font w (first_or_empty args)
  dispatch clear args w = reset w
  dispatch shutdown args w = w
  dispatch uptime args w = print w (info uptime [])
  dispatch empty args w = w
  dispatch unknown args w = print w (codes "Unknown command")

  unfoldable pub run_command : KWriter → List ℕ → KWriter
  unfolding dispatch
  run_command w line = let parsed = parse line in dispatch parsed.command parsed.args w
