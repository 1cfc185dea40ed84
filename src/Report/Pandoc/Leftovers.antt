-- ===== src/Report/Pandoc/Leftovers.antt =====
-- What tryPandoc leaves among the files.
use microservice_diagnosis.Prelude.{
  String, true, false, Option, none, some, List, str_eq, eq_iff, [], ◌∷◌, ◌∙◌, ◌≡◌, refl, arith,
  Bool-cases, inl, inr,
}
use microservice_diagnosis.Prelude.Dict.{lookup, insert, erase, lookup-insert, lookup-erase}
use microservice_diagnosis.Report.Markdown.{Line}
use microservice_diagnosis.Report.Pandoc.{
  Bytes, Files, Writing, whole, not_created, partial, Machine, md_file, pdf_file, put, run_pandoc,
  finish, fall_back, convert, after_write, try_pandoc,
}

module _ (m : Machine) (stem j : String) (other_md : str_eq (md_file stem) j ≡ false)
    (other_pdf : str_eq (pdf_file stem) j ≡ false) where
  lookup-put : (b : Option Bytes) (fs : Files) → lookup j (put (pdf_file stem) b fs) ≡ lookup j fs
  lookup-put none fs = refl
  lookup-put (some b) fs = ground (arith, lookup-insert j (pdf_file stem) b fs)

  lookup-finish : (fs : Files) → lookup j (finish stem fs).1 ≡ lookup j fs
  lookup-finish fs = ground (
    arith,
    lookup-erase j (md_file stem) (erase (pdf_file stem) fs),
    lookup-erase j (pdf_file stem) fs,
  )

  lookup-fall_back : (fs : Files) → lookup j (fall_back m stem fs).1 ≡ lookup j fs
  lookup-fall_back fs = elim (Bool-cases (m.run "pdflatex" fs).0) [
    | inl e ↦ rw (e, lookup-finish (run_pandoc m stem "pdflatex" fs).1) (lookup-put _ fs)
    | inr e ↦ ground (
      arith,
      lookup-erase j (md_file stem) (run_pandoc m stem "pdflatex" fs).1,
      lookup-put (m.run "pdflatex" fs).1 fs,
    )
  ]

  lookup-convert : (fs : Files) → lookup j (convert m stem fs).1 ≡ lookup j fs
  lookup-convert fs = elim (Bool-cases (m.run "weasyprint" fs).0) [
    | inl e ↦ rw (e, lookup-finish (run_pandoc m stem "weasyprint" fs).1) (lookup-put _ fs)
    | inr e ↦ rw (e, lookup-fall_back (run_pandoc m stem "weasyprint" fs).1) (lookup-put _ fs)
  ]

  lookup-after_write :
      (text : Bytes) (w : Writing) (fs : Files)
      → lookup j (after_write m stem text w fs).1 ≡ lookup j fs
  lookup-after_write text not_created fs = refl
  lookup-after_write text (partial b) fs = ground (arith, lookup-insert j (md_file stem) b fs)
  lookup-after_write text whole fs = ground (
    arith,
    lookup-convert (insert (md_file stem) text fs),
    lookup-insert j (md_file stem) text fs,
  )

  -- tryPandoc changes no file but its two temporary ones, however it ends.
  pub try_pandoc-lookup :
      (text : List Line) (fs : Files) → lookup j (try_pandoc m stem text fs).1 ≡ lookup j fs
  unfolding try_pandoc
  try_pandoc-lookup text fs = lookup-after_write (m.encode text) m.write fs

module _ (m : Machine) (stem : String) where
  -- Neither temporary file is there.
  abbrev pub Cleaned : Files → Type 0
  Cleaned fs = (lookup (md_file stem) fs ≡ none) × (lookup (pdf_file stem) fs ≡ none)

  finish-Cleaned : (fs : Files) → Cleaned (finish stem fs).1
  finish-Cleaned fs = (
    lookup-erase (md_file stem) (md_file stem) (erase (pdf_file stem) fs)
        ∙ rw ((eq_iff (md_file stem) (md_file stem)).1 refl) refl,
    gone fs,
  )
    where
      gone : (fs : Files) → lookup (pdf_file stem) (finish stem fs).1 ≡ none
      gone fs =
          let same : str_eq (pdf_file stem) (pdf_file stem) ≡ true =
            (eq_iff (pdf_file stem) (pdf_file stem)).1 refl in
          ground (
            arith,
            lookup-erase (pdf_file stem) (md_file stem) (erase (pdf_file stem) fs),
            lookup-erase (pdf_file stem) (pdf_file stem) fs,
          )

  fall_back-Cleaned :
      (b : Bytes) (fs : Files) → (fall_back m stem fs).0 ≡ some b → Cleaned (fall_back m stem fs).1
  fall_back-Cleaned b fs h = elim (Bool-cases (m.run "pdflatex" fs).0) [
    | inl e ↦ rw e (finish-Cleaned (run_pandoc m stem "pdflatex" fs).1)
    | inr e ↦ ground arith
  ]

  convert-Cleaned :
      (b : Bytes) (fs : Files) → (convert m stem fs).0 ≡ some b → Cleaned (convert m stem fs).1
  convert-Cleaned b fs h = elim (Bool-cases (m.run "weasyprint" fs).0) [
    | inl e ↦ rw e (finish-Cleaned (run_pandoc m stem "weasyprint" fs).1)
    | inr e ↦ rw e (fall_back-Cleaned b (run_pandoc m stem "weasyprint" fs).1 (ground arith))
  ]

  after_write-Cleaned :
      (text b : Bytes) (w : Writing) (fs : Files)
      → (after_write m stem text w fs).0 ≡ some b
      → Cleaned (after_write m stem text w fs).1
  after_write-Cleaned text b not_created fs h = ground arith
  after_write-Cleaned text b (partial p) fs h = ground arith
  after_write-Cleaned text b whole fs h = convert-Cleaned b (insert (md_file stem) text fs) h

  -- When tryPandoc has made a PDF, neither of its temporary files is there.
  pub try_pandoc-Cleaned :
      (text : List Line) (b : Bytes) (fs : Files)
      → (try_pandoc m stem text fs).0 ≡ some b
      → Cleaned (try_pandoc m stem text fs).1
  unfolding try_pandoc
  try_pandoc-Cleaned text b fs h = after_write-Cleaned (m.encode text) b m.write fs h

-- When both runs fail, what they have written of the PDF stays.
leftover :
    (try_pandoc
      (record { encode = λ t. []; write = whole; run = λ e fs. (false, some []) })
      "r"
      []
      []).1
    ≡ ("r.pdf", []) ∷ []
unfolding try_pandoc insert erase
leftover = refl
