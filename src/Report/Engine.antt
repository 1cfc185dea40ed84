-- ===== src/Report/Engine.antt =====
-- internal/report/engine.go and pdf.go: GenerateReport, RenderMarkdown and RenderPDF, and the two
-- handlers of internal/server/orchestrator.go that call them. pandoc is a parameter: the bytes that it
-- makes of a text, if it succeeds.
pub mod Missing
use microservice_diagnosis.Prelude.{ℕ, Option, none, some, List}
use microservice_diagnosis.Store.Rows.{Uuid, Time}
use microservice_diagnosis.Store.World.{
  World, Env, M, Error, not_found, Result, ok, err, pure, try, ◌>>=◌,
}
use microservice_diagnosis.Report.Data.{ReportData, load_report_data}
use microservice_diagnosis.Report.Markdown.{Line, render_markdown}

abbrev pub Pandoc : Type 0
Pandoc = List Line → Option (List ℕ)

-- The bytes of RenderPDF, which fall back to a placeholder with the text; it never fails.
pub data Rendered : Type 0 where
  application_pdf : List ℕ → Rendered
  text_markdown : List Line → Rendered

abbrev or_placeholder : List Line → Option (List ℕ) → Rendered
or_placeholder text none = text_markdown text
or_placeholder text (some bytes) = application_pdf bytes

unfoldable pub render_pdf : Pandoc → Time → ReportData → Rendered
render_pdf pandoc now d = or_placeholder (render_markdown now d) (pandoc (render_markdown now d))

-- The markdown is rendered once for itself, and at `later` once more for the PDF.
unfoldable pub generate_report : Env → Pandoc → Time → Time → Uuid → M (List Line × Rendered)
generate_report env pandoc now later id = do
  d ← load_report_data env id
  pure (render_markdown now d, render_pdf pandoc later d)

unfoldable pub render_report : Env → Time → Uuid → M (List Line)
render_report env now id = do d ← load_report_data env id; pure (render_markdown now d)

pub data Format : Type 0 where
  markdown pdf : Format

pub data Response : Type 0 where
  -- The markdown as JSON.
  report : List Line → Response
  -- The data, with its content type.
  data_of : Rendered → Response
  -- The data as the attachment report-id.pdf or report-id.markdown.
  attachment : Format → Rendered → Response
  bad_request missing internal_error : Response

abbrev pub answer_pdf : Result (List Line × Rendered) → Response
answer_pdf (ok (text, rendered)) = data_of rendered
answer_pdf (err x) = internal_error

abbrev pub answer_markdown : Result (List Line) → Response
answer_markdown (ok text) = report text
answer_markdown (err not_found) = missing
answer_markdown (err x) = internal_error

-- `GetReport`, with the format of the query, which is markdown if it is not "pdf".
unfoldable pub get_report : Env → Pandoc → Time → Time → Option Uuid → Format → M Response
get_report env pandoc now later none format = pure bad_request
get_report env pandoc now later (some id) pdf = do
  made ← try (generate_report env pandoc now later id)
  pure (answer_pdf made)
get_report env pandoc now later (some id) markdown = do
  made ← try (render_report env now id)
  pure (answer_markdown made)

abbrev pub download_pdf : Result (List Line × Rendered) → Response
download_pdf (ok (text, rendered)) = attachment pdf rendered
download_pdf (err x) = internal_error

abbrev pub download_markdown : Result (List Line) → Response
download_markdown (ok text) = attachment markdown (text_markdown text)
download_markdown (err not_found) = missing
download_markdown (err x) = internal_error

-- `DownloadReport`.
unfoldable pub download_report : Env → Pandoc → Time → Time → Option Uuid → Format → M Response
download_report env pandoc now later none format = pure bad_request
download_report env pandoc now later (some id) pdf = do
  made ← try (generate_report env pandoc now later id)
  pure (download_pdf made)
download_report env pandoc now later (some id) markdown = do
  made ← try (render_report env now id)
  pure (download_markdown made)
