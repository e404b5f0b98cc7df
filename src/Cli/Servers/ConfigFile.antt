-- ===== src/Cli/Servers/ConfigFile.antt =====
-- A configuration file lists servers, one to a line, with blanks and comments.
use sqns.Base.{
  ◌≡◌, refl, ap, ap₂, ◌∙◌, Option, none, some, List, [], ◌∷◌, ◌++◌, append-nil, All, All-append,
  map, filter, arith,
}
use sqns.Text.{Text, is_whitespace, trim}
use sqns.Text.Trim.{IsSolid, IsBlank, Lacks, Lacks-IsBlank, trim-padded}
use sqns.Endpoint.{split}
use sqns.Cli.Servers.{lines, config_line, nonempty, servers_from_config}

-- A line: blanks round what names a server, and a comment, if there is one.
pub record Line : Type 0 where
  pub indent : Text
  pub server : Text
  pub gap : Text
  pub note : Option Text

abbrev note_text : Option Text → Text
note_text none = []
note_text (some note) = 35 ∷ note

abbrev pub write_line : Line → Text
write_line l = (l.indent ++ (l.server ++ l.gap)) ++ note_text l.note

abbrev pub write_config : List Line → Text
write_config [] = []
write_config (l ∷ ls) = write_line l ++ (10 ∷ write_config ls)

abbrev IsNote : Option Text → Type 0
IsNote none = Unit
IsNote (some note) = Lacks 10 note

-- What stands where a line has a server may be empty; it has neither white space nor the sign of a comment.
pub record IsLine (l : Line) : Type 0 where
  pub indent : IsBlank l.indent
  pub solid : IsSolid l.server
  pub no_note : Lacks 35 l.server
  pub gap : IsBlank l.gap
  pub note : IsNote l.note

lines-append : (s t : Text) → Lacks 10 s → lines (s ++ (10 ∷ t)) ≡ s ∷ lines t
unfolding lines
lines-append [] t h = refl
lines-append (c ∷ s) t h = rw (lines-append s t h.1, lines, h.0) refl

split-append : (s t : Text) → Lacks 35 s → (split 35 (s ++ (35 ∷ t))).0 ≡ s
unfolding split
split-append [] t h = refl
split-append (c ∷ s) t h = rw (h.0, split) (ap (◌∷◌ c) (split-append s t h.1))

split-Lacks : (s : Text) → Lacks 35 s → (split 35 s).0 ≡ s
unfolding split
split-Lacks [] h = refl
split-Lacks (c ∷ s) h = rw (h.0, split) (ap (◌∷◌ c) (split-Lacks s h.1))

split-note : (s : Text) (note : Option Text) → Lacks 35 s → (split 35 (s ++ note_text note)).0 ≡ s
split-note s none h = ap (λ (x : Text). (split 35 x).0) (append-nil s) ∙ split-Lacks s h
split-note s (some note) h = split-append s note h

blank_no_note : (b : Text) → IsBlank b → Lacks 35 b
unfolding is_whitespace
blank_no_note b h = Lacks-IsBlank 35 b refl h

solid_line : (s : Text) → IsSolid s → Lacks 10 s
unfolding is_whitespace
solid_line [] h = tt
solid_line (c ∷ s) h = (ground arith, solid_line s h.1)

blank_line : (b : Text) → IsBlank b → Lacks 10 b
blank_line [] h = tt
blank_line (c ∷ b) h = (h.0.1, blank_line b h.1)

note_line : (note : Option Text) → IsNote note → Lacks 10 (note_text note)
note_line none h = tt
note_line (some note) h = (refl, h)

-- Something that holds of all three parts in front of the comment.
write_line-Lacks : (l : Line) → IsLine l → Lacks 10 (write_line l)
write_line-Lacks l h =
    All-append _ (l.indent ++ (l.server ++ l.gap)) (note_text l.note)
      (All-append _ l.indent (l.server ++ l.gap) (blank_line l.indent h.indent)
        (All-append _ l.server l.gap (solid_line l.server h.solid) (blank_line l.gap h.gap)))
      (note_line l.note h.note)

config_line-write_line : (l : Line) → IsLine l → config_line (write_line l) ≡ l.server
unfolding config_line
config_line-write_line l h =
    let front : Lacks 35 (l.indent ++ (l.server ++ l.gap)) =
      All-append _ l.indent (l.server ++ l.gap) (blank_no_note l.indent h.indent)
        (All-append _ l.server l.gap h.no_note (blank_no_note l.gap h.gap)) in
    ap trim (split-note (l.indent ++ (l.server ++ l.gap)) l.note front)
    ∙ trim-padded l.indent l.server l.gap h.indent h.solid h.gap

config_lines :
    (ls : List Line)
    → All IsLine ls
    → map config_line (lines (write_config ls)) ≡ map (λ (l : Line). l.server) ls
config_lines [] h = (unfold lines in refl)
config_lines (l ∷ ls) h =
    ap (map config_line) (lines-append (write_line l) (write_config ls) (write_line-Lacks l h.0))
    ∙ ap₂ ◌∷◌ (config_line-write_line l h.0) (config_lines ls h.1)

-- The servers that a configuration file names are read from it, in their order, whatever blanks and comments stand
-- round them; lines that have only these are passed over.
pub servers_from_config-write_config :
    (ls : List Line)
    → All IsLine ls
    → servers_from_config (write_config ls) ≡ filter nonempty (map (λ (l : Line). l.server) ls)
unfolding servers_from_config
servers_from_config-write_config ls h = ap (filter nonempty) (config_lines ls h)
