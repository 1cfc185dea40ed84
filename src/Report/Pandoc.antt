-- ===== src/Report/Pandoc.antt =====
-- internal/report/pdf.go: tryPandoc, over the files of the machine by their names. What a run of
-- pandoc does is a parameter; os.Remove removes the file of its name, if there is one.
pub mod Leftovers
use microservice_diagnosis.Prelude.{
  ℕ, String, ◌<>◌, Bool, true, false, Option, none, some, List, if◌then◌else◌,
}
use microservice_diagnosis.Prelude.Dict.{Dict, lookup, insert, erase}
use microservice_diagnosis.Report.Markdown.{Line}

abbrev pub Bytes : Type 0
Bytes = List ℕ

abbrev pub Files : Type 0
Files = Dict Bytes

-- How os.WriteFile ends: with the whole file, or with an error and maybe a part of it.
pub data Writing : Type 0 where
  whole not_created : Writing
  partial : Bytes → Writing

-- `run` is a run with a PDF engine: whether pandoc exits with 0, and what it has written to the PDF
-- file, if it has created it. `encode` is the UTF-8 of a text.
pub record Machine : Type 0 where
  pub encode : List Line → Bytes
  pub write : Writing
  pub run : String → Files → Bool × Option Bytes

-- The names of the two temporary files, by what they share.
abbrev pub md_file : String → String
md_file stem = stem <> ".md"

abbrev pub pdf_file : String → String
pdf_file stem = stem <> ".pdf"

abbrev pub put : String → Option Bytes → Files → Files
put name none fs = fs
put name (some b) fs = insert name b fs

abbrev pub run_pandoc : Machine → String → String → Files → Bool × Files
run_pandoc m stem engine fs = ((m.run engine fs).0, put (pdf_file stem) (m.run engine fs).1 fs)

-- `os.ReadFile`, and the two deferred removals.
abbrev pub finish : String → Files → Option Bytes × Files
finish stem fs = (lookup (pdf_file stem) fs, erase (md_file stem) (erase (pdf_file stem) fs))

-- The second engine, after which only the text is removed if it fails too.
abbrev pub fall_back : Machine → String → Files → Option Bytes × Files
fall_back m stem fs =
    let second = run_pandoc m stem "pdflatex" fs in
    if second.0 then finish stem second.1 else (none, erase (md_file stem) second.1)

abbrev pub convert : Machine → String → Files → Option Bytes × Files
convert m stem fs =
    let first = run_pandoc m stem "weasyprint" fs in
    if first.0 then finish stem first.1 else fall_back m stem first.1

abbrev pub after_write : Machine → String → Bytes → Writing → Files → Option Bytes × Files
after_write m stem text not_created fs = (none, fs)
after_write m stem text (partial b) fs = (none, insert (md_file stem) b fs)
after_write m stem text whole fs = convert m stem (insert (md_file stem) text fs)

unfoldable pub try_pandoc : Machine → String → List Line → Files → Option Bytes × Files
try_pandoc m stem text fs = after_write m stem (m.encode text) m.write fs
